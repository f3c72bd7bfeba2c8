-- ===== src/Connection/Tests.antt =====
-- Runs of the connection manager, and its laws at concrete states.
use airdcpp_core.Base.{◌≡◌, refl, ◌⊎◌, inr, Bool, true, false, none, some, List, [], ◌∷◌, arith}
use airdcpp_core.Base.Int.{pos}
use airdcpp_core.Connection.Types.{
  download, any_file, mcn_normal, connecting, waiting, active, Item, UserConnection, supnick, key,
  get,
}
use airdcpp_core.Connection.Tokens.{is_registered, find_token}
use airdcpp_core.Connection.Item.{allow_new_connections}
use airdcpp_core.Connection.Manager.{Manager, put_cqi, find_item}
use airdcpp_core.Connection.Manager.Owned.{IsOwned, held, count_token, put_cqi-IsOwned}
use airdcpp_core.Connection.Mcn.{
  allow_new_mcn, scan_downloads, scan_item, find_download, on_download_running,
}
use airdcpp_core.Connection.Mcn.Waiting.{
  OneWaiting, Keeps, waiting_normal, on_download_running-OneWaiting,
}
use airdcpp_core.Connection.Attempts.{Services, connected, attempt_item}
use airdcpp_core.Connection.Attempts.Retry.{IsAsked, attempt_item_retried}
use airdcpp_core.Connection.Join.{put, Offer}
use airdcpp_core.Connection.Handshake.{
  NickUser, sup_message, nick_message, key_message, handle, base, tigr,
}
use airdcpp_core.Connection.Handshake.States.{◌⟶◌, handle-⟶}
use airdcpp_core.Connection.Handshake.Roles.{HasRole, IsUnnamed, handle-HasRole}

abbrev empty_manager : Manager
empty_manager = record {
  downloads = [];
  uploads = [];
  pms = [];
  tokens = [];
  removed = [];
  connections = [];
  expected = [];
  shutting_down = false;
}

abbrev source : UserConnection
source = record {
  id = 1;
  uc_state = supnick;
  nmdc = true;
  uploading = false;
  downloading = false;
  private_chat = false;
  incoming = false;
  associated = false;
  small_slot = false;
  trusted = false;
  supports_mcn = false;
  supports_minislots = false;
  supports_xml_bzlist = false;
  supports_adcget = false;
  supports_zlib_get = false;
  supports_tthl = false;
  supports_tthf = false;
  uc_user = none;
  connect_token = 7;
  uc_hub_url = 3;
  last_activity = 0;
}

abbrev first_download : Item
first_download = record {
  token = 7;
  download_type = mcn_normal;
  last_bundle = 0;
  last_attempt = 1000;
  errors = pos 0;
  state = connecting;
  max_remote_conns = 0;
  conn_type = download;
  user = 5;
  hub_url = 3;
  mcn = true;
  running = false;
}

abbrev one_download : Manager
one_download = record empty_manager {
  downloads = first_download ∷ [];
  tokens = record { key = 7; purpose = download } ∷ [];
}

empty_manager-IsOwned : IsOwned empty_manager
unfolding IsOwned held count_token
empty_manager-IsOwned t = omega arith

one_download-IsOwned : IsOwned one_download
unfolding IsOwned held count_token is_registered find_token
one_download-IsOwned t = ground arith

one_download-OneWaiting : OneWaiting one_download
unfolding OneWaiting waiting_normal
one_download-OneWaiting u = ground arith

put_cqi-IsOwned_example : IsOwned (put_cqi 2000 first_download one_download)
unfolding count_token
put_cqi-IsOwned_example =
    put_cqi-IsOwned 2000 first_download one_download one_download-IsOwned (omega arith)

abbrev running_source : UserConnection
running_source = record source {
  supports_mcn = true;
  uc_user = some 5;
  nmdc = false;
  downloading = true;
}

found_user :
    (c : Item) → find_download running_source one_download.downloads ≡ some c → some 5 ≡ some c.user
unfolding find_download find_item
found_user c e = ground arith

on_download_running-OneWaiting_example :
    Keeps OneWaiting (on_download_running true 0 (8 ∷ []) running_source one_download)
on_download_running-OneWaiting_example =
    on_download_running-OneWaiting true 0 (8 ∷ []) running_source one_download one_download-IsOwned
      one_download-OneWaiting found_user

abbrev two_limits : List Item
two_limits =
    record first_download { running = true; max_remote_conns = 1; state = active }
    ∷ record first_download { user = 6; token = 8; max_remote_conns = 0 }
    ∷ []

-- The limit of the last item is asked, though it is another user's: the user's own allows one
-- connection, and one is running.
limit_of_other : (allow_new_mcn 0 5 false two_limits).0 ≡ true
unfolding allow_new_mcn scan_downloads scan_item allow_new_connections
limit_of_other = refl

limit_of_own :
    (allow_new_mcn 0 5 false
      (record first_download { running = true; max_remote_conns = 1; state = active } ∷ [])).0
    ≡ false
unfolding allow_new_mcn scan_downloads scan_item allow_new_connections
limit_of_own = refl

abbrev all_services : Services
all_services = record {
  is_online = λ u. true;
  start_download = λ u t. record {
    has_download = true;
    found_type = any_file;
    bundle_token = 0;
    hub_hint = 3;
    slot = true;
    allow_change = true;
  };
  connect = λ u t allow. connected 3;
}

attempt_item_retried_example :
    let after = attempt_item all_services [] 2 2 52000 first_download (first_download ∷ []) in
    (after.item.state ≡ waiting)
    × (after.item.errors ≡ pos 1)
    × IsAsked (attempt_item all_services [] 1 2 62000 after.item (first_download ∷ []))
attempt_item_retried_example =
    attempt_item_retried all_services [] [] 2 1 2 52000 62000 0 first_download (first_download ∷ [])
      (first_download ∷ []) refl refl
      (record {
        user_online = refl;
        has_files = λ t. refl;
        has_slot = λ t. refl;
        takes = λ t a. (3, refl);
      })
      (inr (omega arith)) (omega arith) (omega arith) (omega arith) (omega arith) (omega arith)

handle-⟶_example :
    supnick ⟶ (handle (sup_message (base ∷ tigr ∷ [])) source empty_manager).source.uc_state
handle-⟶_example = handle-⟶ (sup_message (base ∷ tigr ∷ [])) source empty_manager

-- The nick of a user, who is known or not, and online or not.
abbrev nick_of : (known online : Bool) → NickUser
nick_of known online = record { cid = 5; is_known = known; is_online = online }

handle-HasRole_example :
    let r = handle (nick_message 4 (λ h. nick_of true true)) source empty_manager in
    HasRole r.source.uc_state r.source × ((r.fate ≡ put) ⊎ IsUnnamed r.source.uc_state r.source)
unfolding HasRole IsUnnamed
handle-HasRole_example =
    handle-HasRole (nick_message 4 (λ h. nick_of true true)) source empty_manager (refl, refl) refl

-- A known user that is offline is set on the connection that is put away.
offline_user :
    let r = handle (nick_message 4 (λ h. nick_of true false)) source empty_manager in
    (r.fate ≡ put) × (r.source.uc_user ≡ some 5) × (r.source.uc_state ≡ supnick)
unfolding handle
offline_user = (refl, refl, refl)

-- A key on a connection for uploading makes it wait for a request.
key_for_upload :
    let u = record source { uc_state = key; uploading = true; uc_user = some 5 } in
    let o : Offer = record { has_download = true; found = true; has_idle = false } in
    (handle (key_message 9 o) u empty_manager).source.uc_state ≡ get
unfolding handle
key_for_upload = refl
