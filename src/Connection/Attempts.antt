-- ===== src/Connection/Attempts.antt =====
-- ConnectionManager: the rounds of connect attempts, and how downloads fail. What the queue and the
-- hubs answer is given, as one operation each.
pub mod Retry
use airdcpp_core.Base.{
  ℕ, ◌+◌, Bool, true, false, not, ◌&&◌, ◌||◌, Option, none, some, List, ◌∷◌, ◌++◌, ◌==◌,
  if◌then◌else◌, [],
}
use airdcpp_core.Base.Int.{ℤ, pos, negsuc}
use airdcpp_core.Connection.Types.{
  ConnectionType, download, upload, pm, QueueDownloadType, any_file, small, mcn_normal, State,
  connecting, waiting, active, Item, UserConnection, UcState, idle, uint64, next_error,
  is_protocol_error, is_small, is_any_file,
}
use airdcpp_core.Connection.Item.{
  is_active, is_active_state, is_waiting_state, is_connecting_state, is_small_slot, allow_connect,
  is_timeout,
}
use airdcpp_core.Connection.Manager.{
  Manager, find_item, find_user_item, update_item, put_cqi, put_connection, has_connection,
}
use airdcpp_core.Connection.Mcn.{allow_new_mcn, remove_extra_mcn, create_new_mcn}

-- QueueManager::startDownload. `slot` is whether a slot was given.
pub record StartResult : Type 0 where
  pub has_download : Bool
  pub found_type : QueueDownloadType
  pub bundle_token : ℕ
  pub hub_hint : ℕ
  pub slot : Bool
  pub allow_change : Bool

-- ClientManager::connect: the hub that was used, or whether the failure is a protocol error.
pub data ConnectResult : Type 0 where
  connected : (hub : ℕ) → ConnectResult
  refused : (protocol_error : Bool) → ConnectResult

-- The calls of other components.
pub record Services : Type 0 where
  pub is_online : ℕ → Bool
  pub start_download : ℕ → QueueDownloadType → StartResult
  pub connect : (user token : ℕ) → (allow_change : Bool) → ConnectResult

unfoldable pub connect_item : Services → Item → (allow_change : Bool) → Bool × Item
connect_item s c allow =
    let trying = record c { state = connecting } in
    elim (s.connect c.user c.token allow) [
      | connected hub ↦ (true, record trying { hub_url = hub })
      | refused protocol_error ↦ (
        false,
        record trying {
          state = waiting;
          errors = if protocol_error then negsuc 0 else next_error c.errors;
        },
      )
    ]

-- Whether another item is there for the user.
unfoldable pub has_other : Item → List Item → Bool
has_other c [] = false
has_other c (d ∷ ds) = (not (d.token == c.token) && (d.user == c.user)) || has_other c ds

-- The second test of attemptDownloadUnsafe asks the item itself whether it is small, once for
-- every item of its user.
unfoldable pub has_small_self : Item → List Item → Bool
has_small_self c [] = false
has_small_self c (d ∷ ds) = ((d.user == c.user) && is_small_slot c) || has_small_self c ds

unfoldable pub choose_start : Services → Item → List Item → Item × StartResult
unfolding has_other has_small_self
choose_start s c ds =
    let r = s.start_download c.user c.download_type in
    if not r.has_download && is_small c.download_type && not (has_other c ds)
    then (record c { download_type = any_file }, s.start_download c.user any_file)
    else if is_any_file c.download_type && is_small r.found_type && not (has_small_self c ds)
    then (record c { download_type = small }, r)
    else (c, r)

-- The item, whether it was tried, and whether it is to be removed.
pub record Attempt : Type 0 where
  pub item : Item
  pub tried : Bool
  pub to_remove : Bool

unfoldable pub start_item : Services → List UserConnection → Item → StartResult → Attempt
unfolding connect_item has_connection
start_item s us c r =
    let ready = record c { last_bundle = r.bundle_token; hub_url = r.hub_hint } in
    let (tried, after) = connect_item s ready r.allow_change in
    if not r.has_download
    then record { item = c; tried = false; to_remove = true }
    else if is_waiting_state c.state
        || ((c.last_attempt == 0) && is_connecting_state c.state && not (has_connection c.token us))
    then (if r.slot
        then record { item = after; tried = tried; to_remove = false }
        else record { item = ready; tried = false; to_remove = false })
    else record { item = ready; tried = false; to_remove = false }

unfoldable pub attempt_download : Services → List UserConnection → Item → List Item → Attempt
unfolding choose_start start_item
attempt_download s us c ds = let (chosen, r) = choose_start s c ds in start_item s us chosen r

-- What a round of the loop of attemptDownloads does with an item.
pub data Turn : Type 0 where
  leave drop_offline time_out try : Turn

unfoldable pub turn : Services → (attempts limit tick : ℕ) → Item → Turn
unfolding allow_connect is_timeout
turn s attempts limit tick c =
    if is_active c
    then leave
    else if not (s.is_online c.user)
    then drop_offline
    else if is_protocol_error c.errors && not (c.last_attempt == 0)
    then leave
    else if allow_connect c attempts limit tick
    then try
    else if is_timeout c tick
    then time_out
    else leave

unfoldable pub take_turn :
    Turn → Services → List UserConnection → (tick : ℕ) → Item → List Item → Attempt
unfolding attempt_download
take_turn leave s us tick c others = record { item = c; tried = false; to_remove = false }
take_turn drop_offline s us tick c others = record { item = c; tried = false; to_remove = true }
take_turn time_out s us tick c others = record {
  item = record c { errors = next_error c.errors; state = waiting };
  tried = false;
  to_remove = false;
}
take_turn try s us tick c others =
    let a = attempt_download s us c others in
    record a { item = record a.item { last_attempt = tick } }

unfoldable pub attempt_item :
    Services → List UserConnection → (attempts limit tick : ℕ) → Item → List Item → Attempt
unfolding turn take_turn
attempt_item s us attempts limit tick c others =
    take_turn (turn s attempts limit tick c) s us tick c others

-- The loop: `done` are the items in front, as they were left. The tokens to remove are returned.
unfoldable pub attempt_loop :
    Services
    → List UserConnection
    → (attempts limit tick : ℕ) → (done rest : List Item) → List Item × List ℕ
unfolding attempt_item
attempt_loop s us attempts limit tick done [] = (done, [])
attempt_loop s us attempts limit tick done (c ∷ cs) =
    let a = attempt_item s us attempts limit tick c (done ++ (c ∷ cs)) in
    let (items, gone) =
      attempt_loop s us (if a.tried then attempts + 1 else attempts) limit tick
        (done ++ (a.item ∷ [])) cs in
    (items, if a.to_remove then c.token ∷ gone else gone)

unfoldable pub remove_tokens : (tick : ℕ) → List ℕ → Manager → Manager
unfolding find_item put_cqi
remove_tokens tick [] m = m
remove_tokens tick (t ∷ ts) m = elim (find_item t m.downloads) [
  | none ↦ remove_tokens tick ts m
  | some c ↦ remove_tokens tick ts (put_cqi tick c m)
]

-- The timer's second.
unfoldable pub on_second : Services → (limit tick : ℕ) → Manager → Manager
unfolding attempt_loop remove_tokens
on_second s limit tick m =
    let (items, gone) = attempt_loop s m.connections 0 limit tick [] m.downloads in
    remove_tokens tick gone (record m { downloads = items })

-- force, where DownloadManager::checkIdle finds no idle connection.
unfoldable pub force : (idle_found : Bool) → (token : ℕ) → Manager → Manager
unfolding update_item
force true t m = m
force false t m = record m {
  downloads = update_item (λ c. record c { last_attempt = 0 }) t m.downloads;
}

-- The change of the item that failDownload makes.
unfoldable pub fail_item : (fatal : Bool) → (tick : ℕ) → Item → Item
fail_item fatal tick c =
    let failed = record c {
      state = waiting;
      errors = if fatal then negsuc 0 else next_error c.errors;
      last_attempt = tick;
    } in
    record (if is_waiting_state c.state then c else failed) { running = false }

-- The user is told for whom createNewMCN is called behind the lock.
unfoldable pub fail_download_locked :
    (own_slots tick : ℕ) → (fatal : Bool) → Item → Manager → Manager × Option Item
unfolding remove_extra_mcn allow_new_mcn update_item fail_item
fail_download_locked own_slots tick fatal c m =
    let less = if c.mcn then remove_extra_mcn tick c m else m in
    let again =
      c.mcn
      && is_small_slot c
      && is_active c
      && (allow_new_mcn own_slots c.user false less.downloads).0 in
    (
      record less { downloads = update_item (fail_item fatal tick) c.token less.downloads },
      if again then some c else none,
    )

unfoldable pub fail_download :
    (has_download : Bool) (own_slots tick : ℕ) (draws : List ℕ)
    → (token : ℕ) → (fatal : Bool) → Manager
    → Option Manager
unfolding find_item fail_download_locked create_new_mcn
fail_download has_download own_slots tick draws token fatal m = elim (find_item token m.downloads) [
  | none ↦ some m
  | some c ↦
      let (failed, mcn_user) = fail_download_locked own_slots tick fatal c m in
      elim mcn_user [
        | none ↦ some failed
        | some d ↦ create_new_mcn has_download draws d.user d.hub_url failed
      ]
]

-- toConnectionType; `none` is CONNECTION_TYPE_LAST.
unfoldable pub to_connection_type : UserConnection → Option ConnectionType
to_connection_type u =
    if u.uploading
    then some upload
    else if u.downloading
    then some download
    else if u.private_chat
    then some pm
    else none

unfoldable pub find_own : UserConnection → ConnectionType → Manager → Option Item
unfolding find_item find_user_item
find_own u download m = find_item u.connect_token m.downloads
find_own u upload m = find_item u.connect_token m.uploads
find_own u pm m = elim u.uc_user [ none ↦ none | some v ↦ find_user_item v m.pms ]

-- putCQI of a connection; the item is always there (an assertion).
unfoldable pub put_own : (tick : ℕ) → UserConnection → Manager → Manager
unfolding to_connection_type find_own put_cqi
put_own tick u m = elim (to_connection_type u) [
  | none ↦ m
  | some type ↦ elim (find_own u type m) [ none ↦ m | some c ↦ put_cqi tick c m ]
]

abbrev is_idle : UcState → Bool
is_idle idle = true
is_idle _ = false

abbrev put_after : UserConnection → Option Manager → Option Manager
put_after u none = none
put_after u (some m) = some (put_connection u m)

-- failed: the connection is closed, and its item fails or goes. `more` is whether the queue has a
-- download for an idle connection, `has_download` whether it has one for a new connection.
unfoldable pub failed :
    (more has_download : Bool) (own_slots tick : ℕ) (draws : List ℕ)
    → UserConnection
    → (protocol_error : Bool) → Manager
    → Option Manager
unfolding fail_download put_own put_connection
failed more has_download own_slots tick draws u protocol_error m =
    let failing =
      fail_download has_download own_slots tick draws u.connect_token protocol_error m in
    put_after u (
      if not u.associated
      then some m
      else if not u.downloading
      then some (put_own tick u m)
      else if not (is_idle u.uc_state)
      then failing
      else if more
      then failing
      else some (put_own tick u m))
