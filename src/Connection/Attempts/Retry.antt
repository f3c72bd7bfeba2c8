-- ===== src/Connection/Attempts/Retry.antt =====
-- A connection that is not answered is tried again.
use airdcpp_core.Base.{
  ℕ, ◌+◌, ◌*◌, ◌^◌, ◌≤◌, ◌<◌, max, ◌≡◌, refl, sym, ap, subst, ◌∙◌, ◌⊎◌, Bool, true, false, not,
  ◌&&◌, List, arith, if_both,
}
use airdcpp_core.Base.Int.{pos}
use airdcpp_core.Connection.Types.{
  QueueDownloadType, any_file, connecting, waiting, Item, UserConnection, next_error, at_least_one,
  is_protocol_error, is_small, is_any_file,
}
use airdcpp_core.Connection.Item.{allow_connect, is_timeout}
use airdcpp_core.Connection.Attempts.{
  StartResult, Services, connected, connect_item, choose_start, start_item, attempt_download,
  time_out, try, turn, take_turn, attempt_item, Attempt, has_other, has_small_self,
}

-- The time from which a connection is tried again.
unfoldable pub retry_time : Item → ℕ
retry_time c = c.last_attempt + 60000 * at_least_one c.errors

-- The user is there, the queue has something for him, with a slot, and the
-- hub takes the request.
pub record CanTry (s : Services) (user : ℕ) : Type 0 where
  pub user_online : s.is_online user ≡ true
  pub has_files : (t : QueueDownloadType) → (s.start_download user t).has_download ≡ true
  pub has_slot : (t : QueueDownloadType) → (s.start_download user t).slot ≡ true
  pub takes : (token : ℕ) (allow : Bool) → (hub : ℕ) × (s.connect user token allow ≡ connected hub)

-- The limit leaves room behind the items that were tried before in the round.
abbrev pub HasRoom : (tried limit : ℕ) → Type 0
HasRoom tried limit = (limit ≡ 0) ⊎ (tried < limit)

turn_try :
    (s : Services) (k limit tick : ℕ) (c : Item)
    → c.state ≡ waiting
    → is_protocol_error c.errors ≡ false
    → s.is_online c.user ≡ true
    → HasRoom k limit
    → retry_time c < tick
    → tick < 2 ^ 64
    → turn s k limit tick c ≡ try
unfolding turn allow_connect retry_time
turn_try s k limit tick c w e o h r t = ground arith

turn_time_out :
    (s : Services) (k limit tick : ℕ) (c : Item)
    → c.state ≡ connecting
    → is_protocol_error c.errors ≡ false
    → s.is_online c.user ≡ true
    → 0 < c.last_attempt
    → c.last_attempt + 50000 < tick
    → tick ≤ retry_time c
    → tick < 2 ^ 64
    → retry_time c < 2 ^ 64
    → turn s k limit tick c ≡ time_out
unfolding turn allow_connect is_timeout retry_time
turn_time_out s k limit tick c w e h z r t b l = ground arith

-- What was chosen to start with.
record IsChosen (s : Services) (c : Item) (x : Item × StartResult) : Type 0 where
  same_state : x.0.state ≡ c.state
  same_user : x.0.user ≡ c.user
  same_token : x.0.token ≡ c.token
  files : x.1.has_download ≡ true
  slot_given : x.1.slot ≡ true

choose_start-IsChosen :
    (s : Services) (c : Item) (cs : List Item)
    → CanTry s c.user
    → IsChosen s c (choose_start s c cs)
unfolding choose_start
choose_start-IsChosen s c cs h =
    let r = s.start_download c.user c.download_type in
    if_both (IsChosen s c) (not r.has_download && is_small c.download_type && not (has_other c cs))
      _ _
      (record {
        same_state = refl;
        same_user = refl;
        same_token = refl;
        files = h.has_files any_file;
        slot_given = h.has_slot any_file;
      })
      (if_both (IsChosen s c)
        (is_any_file c.download_type && is_small r.found_type && not (has_small_self c cs)) _ _
        (record {
          same_state = refl;
          same_user = refl;
          same_token = refl;
          files = h.has_files c.download_type;
          slot_given = h.has_slot c.download_type;
        })
        (record {
          same_state = refl;
          same_user = refl;
          same_token = refl;
          files = h.has_files c.download_type;
          slot_given = h.has_slot c.download_type;
        }))

unfoldable pub IsAsked : Attempt → Type 0
IsAsked a = (a.tried ≡ true) × (a.item.state ≡ connecting) × (a.to_remove ≡ false)

connect_item-IsAsked :
    (s : Services) (us : List UserConnection) (c : Item) (r : StartResult) (hub : ℕ)
    → c.state ≡ waiting
    → r.has_download ≡ true
    → r.slot ≡ true
    → s.connect c.user c.token r.allow_change ≡ connected hub
    → IsAsked (start_item s us c r)
unfolding start_item connect_item IsAsked
connect_item-IsAsked s us c r hub w f g e = ground arith

take_turn-IsAsked :
    (s : Services) (us : List UserConnection) (tick : ℕ) (c : Item) (cs : List Item)
    → c.state ≡ waiting
    → CanTry s c.user
    → IsAsked (take_turn try s us tick c cs)
unfolding take_turn attempt_download IsAsked
take_turn-IsAsked s us tick c cs w h =
    let k = choose_start-IsChosen s c cs h in
    let (x, r) = choose_start s c cs in
    let (hub, e) = h.takes c.token r.allow_change in
    connect_item-IsAsked s us x r hub (k.same_state ∙ w) k.files k.slot_given (
      ap (λ v. s.connect v x.token r.allow_change) k.same_user
      ∙ ap (λ t. s.connect c.user t r.allow_change) k.same_token
      ∙ e)

-- A download that waits for an answer, with no protocol error, goes back to waiting with one more
-- error at a round more than 50 seconds behind the attempt and within the delay of a minute for
-- each error, at least one, if its user is online, whatever was tried before it in that round; at a
-- later round, in 64 bits, behind a delay of a minute for each error, it is asked for again, if
-- fewer items than the limit were tried before it in that round or there is no limit, its user is
-- online, the queue has something for him with a slot, whichever type of download is asked for, and
-- the hub takes each request.
pub attempt_item_retried :
    (s : Services) (us vs : List UserConnection) (j k limit t1 t2 n : ℕ) (c : Item)
    (cs ds : List Item)
    → c.state ≡ connecting
    → c.errors ≡ pos n
    → CanTry s c.user
    → HasRoom k limit
    → 0 < c.last_attempt
    → c.last_attempt + 50000 < t1
    → t1 ≤ c.last_attempt + 60000 * max 1 n
    → c.last_attempt + 60000 * (n + 1) < t2
    → t2 < 2 ^ 64
    → let after = attempt_item s us j limit t1 c cs in
      (after.item.state ≡ waiting)
      × (after.item.errors ≡ pos (n + 1))
      × IsAsked (attempt_item s vs k limit t2 after.item ds)
unfolding attempt_item retry_time
attempt_item_retried s us vs j k limit t1 t2 n c cs ds w e h room z a b d l =
    let timed = record c { errors = next_error c.errors; state = waiting } in
    rw
      (turn_time_out s j limit t1 c w (ap (λ x. is_protocol_error x) e) h.user_online z a (later e)
        (omega arith) (limit64 e))
      (
        refl,
        (ap (λ x. next_error x) e),
        rw
            (turn_try s k limit t2 timed refl
              (ap (λ x. is_protocol_error (next_error x)) e ∙ never n) h.user_online room (soon e)
              l)
            (take_turn-IsAsked s vs t2 timed ds refl h),
      )
  where
    never : (n : ℕ) → is_protocol_error (pos (n + 1)) ≡ false
    never n = refl

    later : c.errors ≡ pos n → t1 ≤ retry_time c
    later e = subst (λ x. t1 ≤ c.last_attempt + 60000 * at_least_one x) (sym e) b

    limit64 : c.errors ≡ pos n → retry_time c < 2 ^ 64
    limit64 e =
        subst (λ x. c.last_attempt + 60000 * at_least_one x < 2 ^ 64) (sym e) (omega (arith, d, l))

    soon :
        c.errors ≡ pos n
        → retry_time (record c { errors = next_error c.errors; state = waiting }) < t2
    soon e =
        subst (λ x. c.last_attempt + 60000 * at_least_one (next_error x) < t2) (sym e)
          (omega (arith, d))
