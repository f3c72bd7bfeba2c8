-- ===== src/Connection/Join.antt =====
-- ConnectionManager: a connection is handed to the manager of downloads, of uploads or of private
-- chats. What the queue has for a download connection is given.
use airdcpp_core.Base.{ℕ, Bool, true, false, not, ◌&&◌, ◌||◌, none, some, if◌then◌else◌}
use airdcpp_core.Connection.Types.{
  upload, pm, active, mcn_normal, Item, UserConnection, UcState, supnick, inf, lock, direction, key,
  get, snd, idle, cmd, transferring,
}
use airdcpp_core.Connection.Tokens.{add_token}
use airdcpp_core.Connection.Item.{is_active, is_small_slot}
use airdcpp_core.Connection.Manager.{Manager, find_user_item, update_item, get_cqi}
use airdcpp_core.Connection.Mcn.{find_download}

-- What becomes of the connection: it is keep_on, disconnected, or put away at once.
pub data Fate : Type 0 where
  keep disconnect put : Fate

pub record Step : Type 0 where
  pub source : UserConnection
  pub manager : Manager
  pub fate : Fate

abbrev pub in_state : UcState → UcState → Bool
in_state supnick supnick = true
in_state inf inf = true
in_state lock lock = true
in_state direction direction = true
in_state key key = true
in_state _ _ = false

abbrev pub keep_on : UserConnection → Manager → Step
keep_on u m = record { source = u; manager = m; fate = keep }

abbrev pub dropped : UserConnection → Manager → Step
dropped u m = record { source = u; manager = m; fate = disconnect }

abbrev pub put_away : UserConnection → Manager → Step
put_away u m = record { source = u; manager = m; fate = put }

-- What addDownloadConnection does to an item, and to the connection.
unfoldable pub join_item : (mcn : Bool) → Item → Item
join_item mcn c =
    let joined = record c { state = active } in
    if not mcn
    then joined
    else if is_small_slot c
    then record joined { mcn = true }
    else record joined { download_type = mcn_normal; mcn = true }

unfoldable pub join_source : Item → UserConnection → UserConnection
join_source c u = record u {
  connect_token = c.token;
  uc_hub_url = c.hub_url;
  associated = true;
  small_slot = (u.supports_mcn && is_small_slot c) || u.small_slot;
}

-- What QueueManager::getDownload answers for a connection, and whether the user has an idle
-- connection of the kind (DownloadManager::checkIdle).
pub record Offer : Type 0 where
  pub has_download : Bool
  pub found : Bool
  pub has_idle : Bool

abbrev pub is_running : UcState → Bool
is_running transferring = true
is_running _ = false

-- DownloadManager::checkDownloads. A connection with nothing to download fails; one that can't
-- start yet waits, unless the user has such a connection.
unfoldable pub check_downloads : Offer → UserConnection → Manager → Step
check_downloads o u m =
    if not o.has_download && not (is_running u.uc_state)
    then dropped u m
    else if o.found
    then keep_on (record u { uc_state = snd }) m
    else if o.has_idle
    then dropped u m
    else keep_on (record u { uc_state = idle }) m

-- DownloadManager::addConnection.
unfoldable pub add_connection : Offer → UserConnection → Manager → Step
unfolding check_downloads
add_connection o u m =
    if not u.supports_tthf || not u.supports_adcget then dropped u m else check_downloads o u m

unfoldable pub add_download_connection : Offer → UserConnection → Manager → Step
unfolding find_download update_item join_item join_source add_connection
add_download_connection o u m = elim (find_download u m.downloads) [
  | none ↦ put_away u m
  | some c ↦
      if is_active c
      then put_away u m
      else add_connection o (join_source c u)
          (record m { downloads = update_item (join_item u.supports_mcn) c.token m.downloads })
]

abbrev pub activate : Item → Item
activate c = record c { state = active }

abbrev user_of : UserConnection → ℕ
user_of u = elim u.uc_user [ none ↦ 0 | some v ↦ v ]

-- UploadManager::addConnection.
abbrev pub await_get : UserConnection → UserConnection
await_get u = record u { uc_state = get }

-- An upload connection with a token that is not in use gets an item of its own.
unfoldable pub add_upload_connection : UserConnection → Manager → Step
unfolding find_user_item add_token get_cqi update_item
add_upload_connection u m =
    let (added, ts) = add_token u.connect_token upload m.tokens in
    let m' =
      (get_cqi (user_of u) u.uc_hub_url upload u.connect_token (record m { tokens = ts })).1 in
    let has_item : Bool = elim (find_user_item (user_of u) m.uploads) [
      | none ↦ false
      | some c ↦ true
    ] in
    if not u.supports_mcn && has_item
    then put_away u m
    else if not added
    then put_away u m
    else keep_on (await_get (record u { associated = true }))
        (record m' { uploads = update_item activate u.connect_token m'.uploads })

unfoldable pub add_pm_connection : UserConnection → Manager → Step
unfolding find_user_item get_cqi update_item
add_pm_connection u m = elim (find_user_item (user_of u) m.pms) [
  | some c ↦ put_away u m
  | none ↦
      let m' = (get_cqi (user_of u) u.uc_hub_url pm u.connect_token m).1 in
      keep_on (record u { associated = true; uc_state = cmd })
        (record m' { pms = update_item activate u.connect_token m'.pms })
]
