-- ===== src/Connection/Mcn.antt =====
-- ConnectionManager: how many connections a user may have for downloading.
pub mod Waiting
use airdcpp_core.Base.{
  ℕ, ◌+◌, Bool, true, false, not, ◌&&◌, ◌||◌, Option, none, some, List, ◌∷◌, ◌==◌, if◌then◌else◌,
  [],
}
use airdcpp_core.Connection.Types.{
  ConnectionType, download, QueueDownloadType, any_file, small, mcn_normal, Item, UserConnection,
  is_mcn_normal, is_small,
}
use airdcpp_core.Connection.Item.{
  is_active, is_small_slot, allow_new_connections, reset_fatal_error,
}
use airdcpp_core.Connection.Manager.{
  Manager, find_item, find_user_item, update_item, get_new_cqi, put_cqi,
}

-- What the loop over the downloads of allowNewMCNUnsafe comes to: it stops at an item, which is
-- handed to the callback if it waits, or goes through.
pub data Scan : Type 0 where
  stopped : (waiting_item : Option ℕ) → Scan
  passed : (last_item : Option Item) → (running_normal : ℕ) → (support_mcn : Bool) → Scan

module _ (user : ℕ) (small_wanted : Bool) where
  -- One round; `next` is the rest of the loop with the number of running items so far.
  unfoldable pub scan_item : Item → (running_normal : ℕ) → (ℕ → Scan) → Scan
  scan_item c n next =
      if not c.mcn
      then stopped none
      else if is_mcn_normal c.download_type
      then (if not c.running
          then (if not small_wanted then stopped (some c.token) else next n)
          else next (n + 1))
      else if is_small c.download_type && small_wanted
      then stopped (if not c.running then some c.token else none)
      else next n

  unfoldable pub scan_downloads :
      List Item → (last_item : Option Item) → (running_normal : ℕ) → (support_mcn : Bool) → Scan
  unfolding scan_item
  scan_downloads [] last n s = passed last n s
  scan_downloads (c ∷ cs) last n s =
      let other = scan_downloads cs (some c) n s in
      let same = scan_item c n (λ k. scan_downloads cs (some c) k true) in
      if c.user == user then same else other

-- allowNewMCNUnsafe, with the item that the callback is called for.
unfoldable pub allow_new_mcn :
    (own_slots user : ℕ) → (small_wanted : Bool) → List Item → Bool × Option ℕ
unfolding scan_downloads
allow_new_mcn own_slots user small_wanted cs =
    elim (scan_downloads user small_wanted cs none 0 false) [
      | stopped w ↦ (false, w)
      | passed last n s ↦ elim last [
        | none ↦ (true, none)
        | some c ↦ (not (s && not small_wanted && not (allow_new_connections own_slots c n)), none)
      ]
    ]

unfoldable pub reset_waiting : Option ℕ → Manager → Manager
unfolding update_item reset_fatal_error
reset_waiting none m = m
reset_waiting (some t) m = record m { downloads = update_item reset_fatal_error t m.downloads }

-- An item's change right after it was made, at the end of the list.
unfoldable pub set_download_type : QueueDownloadType → (mcn : Bool) → Item → Manager → Manager
unfolding update_item
set_download_type type mcn c m = record m {
  downloads =
      update_item (λ i. record i { download_type = type; mcn = mcn || i.mcn }) c.token m.downloads;
}

-- A new item is of any type at first.
unfoldable pub with_type :
    QueueDownloadType → (mcn : Bool) → Option (Item × Manager) → Option Manager
unfolding set_download_type
with_type type mcn none = none
with_type type mcn (some r) = some (set_download_type type mcn r.0 r.1)

-- getDownloadConnection; `idle` is whether DownloadManager::checkIdle finds a connection. `none`
-- where no token could be drawn.
unfoldable pub get_download_connection :
    (idle : Bool) (own_slots : ℕ) (draws : List ℕ) (user hub_url : ℕ)
    → (small_wanted : Bool) → Manager
    → Option Manager
unfolding allow_new_mcn get_new_cqi with_type reset_waiting
get_download_connection true own_slots draws user hub_url small_wanted m = some m
get_download_connection false own_slots draws user hub_url small_wanted m =
    let (allowed, waiting_item) = allow_new_mcn own_slots user small_wanted m.downloads in
    if not allowed
    then some (reset_waiting waiting_item m)
    else with_type (if small_wanted then small else any_file) false
        (get_new_cqi draws user hub_url download m)

-- createNewMCN; `has_download` is what QueueManager::startDownload finds for the user.
unfoldable pub create_new_mcn :
    (has_download : Bool) (draws : List ℕ) (user hub_url : ℕ) → Manager → Option Manager
unfolding get_new_cqi with_type
create_new_mcn false draws user hub_url m = some m
create_new_mcn true draws user hub_url m =
    with_type mcn_normal true (get_new_cqi draws user hub_url download m)

-- findDownloadUnsafe: by the token, or by the user where tokens are not in step.
unfoldable pub find_download : UserConnection → List Item → Option Item
unfolding find_item find_user_item
find_download u cs =
    if u.supports_mcn
    then find_item u.connect_token cs
    else elim u.uc_user [ none ↦ none | some v ↦ find_user_item v cs ]

-- The waiting item that is there beside another: of the user, neither small nor active.
unfoldable pub find_extra : Item → List Item → Option Item
find_extra f [] = none
find_extra f (c ∷ cs) =
    let rest = find_extra f cs in
    if (c.user == f.user) && not (is_small_slot c) && not (is_active c) && not (c.token == f.token)
    then some c
    else rest

unfoldable pub remove_extra_mcn : (tick : ℕ) → Item → Manager → Manager
unfolding find_extra put_cqi
remove_extra_mcn tick f m =
    if not f.mcn
    then m
    else if not (is_mcn_normal f.download_type)
    then m
    else elim (find_extra f m.downloads) [ none ↦ m | some c ↦ put_cqi tick c m ]

-- onDownloadRunning for the item that was found; createNewMCN is called behind the lock.
unfoldable pub run_item :
    (has_download : Bool) (own_slots : ℕ) (draws : List ℕ)
    → UserConnection
    → Manager
    → Item
    → Option Manager
unfolding update_item allow_new_mcn create_new_mcn
run_item has_download own_slots draws u m c =
    let flagged = record m {
      downloads = update_item (λ i. record i { running = true }) c.token m.downloads;
    } in
    if c.running
    then some m
    else if not c.mcn
    then some flagged
    else if not (allow_new_mcn own_slots c.user false flagged.downloads).0
    then some flagged
    else elim u.uc_user [
      | none ↦ some flagged
      | some v ↦ create_new_mcn has_download draws v u.uc_hub_url flagged
    ]

unfoldable pub on_download_running :
    (has_download : Bool) (own_slots : ℕ) (draws : List ℕ)
    → UserConnection
    → Manager
    → Option Manager
unfolding find_download run_item
on_download_running has_download own_slots draws u m = elim (find_download u m.downloads) [
  | none ↦ some m
  | some c ↦ run_item has_download own_slots draws u m c
]

unfoldable pub on_idle : (tick : ℕ) → UserConnection → Manager → Manager
unfolding find_download update_item remove_extra_mcn
on_idle tick u m = elim (find_download u m.downloads) [
  | none ↦ m
  | some c ↦
      if not c.running
      then m
      else remove_extra_mcn tick (record c { running = false })
          (record m {
            downloads = update_item (λ i. record i { running = false }) c.token m.downloads;
          })
]
