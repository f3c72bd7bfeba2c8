-- ===== src/Connection/Item.antt =====
-- The methods of ConnectionQueueItem. `own_slots` is what AutoLimitUtil::getSlotsPerUser allows.
use airdcpp_core.Base.{
  ℕ, ◌+◌, ◌-◌, ◌*◌, ◌^◌, Bool, true, false, not, ◌&&◌, ◌||◌, ltb, leb, ◌==◌, if◌then◌else◌,
}
use airdcpp_core.Base.Int.{pos}
use airdcpp_core.Connection.Types.{
  ConnectionType, any_file, State, connecting, waiting, active, Item, uint64, at_least_one,
  is_small,
}

unfoldable pub new_item : (user hub_url : ℕ) → ConnectionType → (token : ℕ) → Item
new_item user hub_url type token = record {
  token = token;
  download_type = any_file;
  last_bundle = 0;
  last_attempt = 0;
  errors = pos 0;
  state = waiting;
  max_remote_conns = 0;
  conn_type = type;
  user = user;
  hub_url = hub_url;
  mcn = false;
  running = false;
}

abbrev pub is_active_state : State → Bool
is_active_state active = true
is_active_state _ = false

abbrev pub is_connecting_state : State → Bool
is_connecting_state connecting = true
is_connecting_state _ = false

abbrev pub is_waiting_state : State → Bool
is_waiting_state waiting = true
is_waiting_state _ = false

abbrev pub is_active : Item → Bool
is_active c = is_active_state c.state

abbrev pub is_small_slot : Item → Bool
is_small_slot c = is_small c.download_type

unfoldable pub allow_new_connections : (own_slots : ℕ) → Item → (running_count : ℕ) → Bool
allow_new_connections own_slots c n =
    if not (c.max_remote_conns == 0) && leb c.max_remote_conns n
    then false
    else if not (own_slots == 0) && leb own_slots n
    then false
    else true

unfoldable pub allow_connect : Item → (attempts attempt_limit tick : ℕ) → Bool
allow_connect c attempts limit tick =
    if (c.last_attempt == 0) && ltb attempts (limit * 2)
    then true
    else ((limit == 0) || ltb attempts limit)
      && ltb (uint64 (c.last_attempt + 60 * 1000 * at_least_one c.errors)) tick

unfoldable pub is_timeout : Item → (tick : ℕ) → Bool
is_timeout c tick = is_connecting_state c.state && ltb (uint64 (c.last_attempt + 50 * 1000)) tick

-- getLastAttempt() == -1, where the -1 is converted to 64 bits.
unfoldable pub reset_fatal_error : Item → Item
reset_fatal_error c = if c.last_attempt == 2 ^ 64 - 1 then record c { last_attempt = 0 } else c
