-- ===== src/Connection/Handshake.antt =====
-- ConnectionManager: the handshake of a connection, over NMDC and ADC. A handler returns the
-- connection as it is left, the state of the manager, and what becomes of the connection.
pub mod States
pub mod Roles
use airdcpp_core.Base.{
  ℕ, ◌%◌, Bool, true, false, not, ◌&&◌, ◌||◌, Option, none, some, List, ◌∷◌, ltb, ◌==◌,
  if◌then◌else◌, any, [],
}
use airdcpp_core.Base.Int.{pos}
use airdcpp_core.Connection.Types.{pm, Item, UserConnection, supnick, inf, lock, direction, key}
use airdcpp_core.Connection.Tokens.{add_token, has_token}
use airdcpp_core.Connection.Item.{is_active}
use airdcpp_core.Connection.Manager.{Manager, Removed, find_item, update_item, remove_expected}
use airdcpp_core.Connection.Join.{
  Step, in_state, keep_on, dropped, put_away, Offer, add_download_connection, add_upload_connection,
  add_pm_connection,
}

-- The features of a SUP; `other` are the ones that only the list of supports keeps.
pub data Feature : Type 0 where
  base bas0 zlib_get bzip tigr mcn1 other : Feature

unfoldable pub note_feature : Feature → UserConnection → UserConnection
note_feature base u = record u {
  supports_adcget = true;
  supports_minislots = true;
  supports_tthf = true;
  supports_tthl = true;
  supports_xml_bzlist = true;
}
note_feature bas0 u = record u {
  supports_adcget = true;
  supports_minislots = true;
  supports_tthf = true;
  supports_tthl = true;
  supports_xml_bzlist = true;
}
note_feature zlib_get u = record u { supports_zlib_get = true }
note_feature bzip u = record u { supports_xml_bzlist = true }
note_feature tigr u = u
note_feature mcn1 u = record u { supports_mcn = true }
note_feature other u = u

abbrev pub is_base : Feature → Bool
is_base base = true
is_base bas0 = true
is_base _ = false

abbrev pub is_tiger : Feature → Bool
is_tiger bas0 = true
is_tiger tigr = true
is_tiger _ = false

unfoldable pub add_features : List Feature → UserConnection → UserConnection
unfolding note_feature
add_features [] u = u
add_features (f ∷ fs) u = add_features fs (note_feature f u)

-- A SUP replaces the list of supports, where MCN1 is looked for.
unfoldable pub on_sup : List Feature → UserConnection → Manager → Step
unfolding add_features
on_sup fs u m =
    let told = add_features fs (record u { supports_mcn = false }) in
    if not (in_state u.uc_state supnick)
    then keep_on u m
    else if not (any is_base fs) || not (any is_tiger fs)
    then dropped told m
    else keep_on (record told { uc_state = inf }) m

-- on(Connected). `refused` is whether encryption is forced and the connection has none.
unfoldable pub on_connected : (tls_forced secure : Bool) → UserConnection → Manager → Step
on_connected tls_forced secure u m =
    if tls_forced && not u.nmdc && not secure
    then put_away u m
    else keep_on (record u { uc_state = supnick }) m

-- The loop of onMyNick over the downloads: errors are reset up to the item that is found.
unfoldable pub reset_errors : (user : ℕ) → List Item → Option ℕ × List Item
reset_errors v [] = (none, [])
reset_errors v (c ∷ cs) =
    let c' = record c { errors = pos 0 } in
    let (found, rest) = reset_errors v cs in
    if not (is_active c) && (c.user == v) then (some c.user, c' ∷ cs) else (found, c' ∷ rest)

-- What ClientManager knows of a nick on a hub: its CID, whether findUser finds a user, and whether
-- he is online.
pub record NickUser : Type 0 where
  pub cid : ℕ
  pub is_known : Bool
  pub is_online : Bool

-- The rest of onMyNick.
unfoldable pub know_nick : NickUser → UserConnection → Manager → Step
unfolding reset_errors
know_nick n u m =
    let (found, items) = reset_errors n.cid m.downloads in
    let m' = record m { downloads = items } in
    elim found [
      | some v ↦ keep_on (record u { uc_user = some v; downloading = true; uc_state = lock }) m'
      | none ↦ elim u.uc_user [
        | some v ↦ keep_on (record u { uc_state = lock }) m'
        | none ↦
            if not n.is_known
            then put_away u m'
            else if not n.is_online
            then put_away (record u { uc_user = some n.cid }) m'
            else keep_on (record u { uc_user = some n.cid; uploading = true; uc_state = lock }) m'
      ]
    ]

-- on(MyNick). `user_of` is what is known of the nick on a hub.
unfoldable pub on_my_nick : (nick : ℕ) → (user_of : ℕ → NickUser) → UserConnection → Manager → Step
unfolding know_nick remove_expected
on_my_nick nick user_of u m =
    let ((my_nick, hub), others) = remove_expected nick m.expected in
    let m' = record m { expected = others } in
    let guessed = record u { connect_token = my_nick; uc_hub_url = hub } in
    if not (in_state u.uc_state supnick)
    then keep_on u m
    else if u.incoming
    then (if hub == 0 then put_away u m' else know_nick (user_of hub) guessed m')
    else know_nick (user_of u.uc_hub_url) u m

unfoldable pub on_lock : UserConnection → Manager → Step
on_lock u m =
    if not (in_state u.uc_state lock)
    then keep_on u m
    else keep_on (record u { uc_state = direction }) m

-- on(Direction). `wants_upload` is whether the other side says "Upload", the numbers are the ones
-- of both sides.
unfoldable pub on_direction :
    (wants_upload : Bool) → (own_number number : ℕ) → UserConnection → Manager → Step
on_direction wants_upload own_number number u m =
    let turned = record u { downloading = false; uploading = true; uc_state = key } in
    let stays = record u { uc_state = key } in
    if not (in_state u.uc_state direction)
    then keep_on u m
    else if wants_upload
    then (if u.uploading then put_away u m else keep_on stays m)
    else if not u.downloading
    then keep_on stays m
    else if ltb own_number number
    then keep_on turned m
    else if own_number == number
    then put_away u m
    else keep_on stays m

-- The parameters of an INF that are read: the token, the slots for MCN, and the flag of a private chat.
pub record InfParams : Type 0 where
  pub to : Option ℕ
  pub co : Option ℕ
  pub pm_flag : Bool

abbrev pub was_removed : ℕ → List Removed → Bool
was_removed t [] = false
was_removed t (r ∷ rs) = (r.removed_token == t) || was_removed t rs

unfoldable pub set_slots : (mcn : Bool) → Option ℕ → Item → Item
set_slots true (some n) c = record c { errors = pos 0; max_remote_conns = n % 256 }
set_slots _ _ c = record c { errors = pos 0 }

-- What is known of the other side: the user of the identifier that was saved for the token,
-- whether he supports encryption, and how the keyprint is judged.
pub record Peer : Type 0 where
  pub user_of_cid : ℕ → Option ℕ
  pub supports_tls : ℕ → Bool
  pub keyprint_ok : Bool
  pub is_trusted : Bool

-- `o` is what the queue has for a download connection.
module _ (o : Offer) where
  -- on(Key); the random token is given.
  unfoldable pub on_key : (random : ℕ) → UserConnection → Manager → Step
  unfolding add_download_connection add_upload_connection
  on_key random u m =
      if not (in_state u.uc_state key)
      then keep_on u m
      else if u.downloading
      then add_download_connection o u m
      else add_upload_connection (record u { connect_token = random }) m

  -- The end of onINF: what the connection is for.
  unfoldable pub assign : InfParams → (token : ℕ) → UserConnection → Manager → Step
  unfolding add_download_connection add_upload_connection add_pm_connection add_token
  assign params token u m =
      let (added, ts) = add_token token pm m.tokens in
      if u.downloading
      then add_download_connection o u m
      else if u.private_chat
      then add_pm_connection u m
      else if params.pm_flag
      then (if not added
          then dropped u m
          else add_pm_connection (record u { private_chat = true }) (record m { tokens = ts }))
      else add_upload_connection (record u { uploading = true }) m

  -- onINF behind the keyprint.
  unfoldable pub check_token : InfParams → (token : ℕ) → UserConnection → Manager → Step
  unfolding find_item update_item set_slots assign
  check_token params token u m = elim (find_item token m.downloads) [
    | some c ↦
        assign params token (record u { downloading = true })
          (record m {
            downloads = update_item (set_slots u.supports_mcn params.co) token m.downloads;
          })
    | none ↦ if was_removed token m.removed then dropped u m else assign params token u m
  ]

  unfoldable pub verify : Peer → InfParams → (token : ℕ) → UserConnection → Manager → Step
  unfolding check_token
  verify p params token u m =
      if not p.keyprint_ok
      then dropped u m
      else check_token params token (record u { trusted = p.is_trusted || u.trusted }) m

  -- The user is known: a private chat must be encrypted.
  unfoldable pub meet : Peer → InfParams → (token user : ℕ) → UserConnection → Manager → Step
  unfolding has_token verify
  meet p params token v u m =
      let known = record u { uc_user = some v } in
      let private = record known { private_chat = true } in
      if has_token token (some pm) m.tokens || params.pm_flag
      then (if not (p.supports_tls v) then dropped private m else verify p params token private m)
      else verify p params token known m

  unfoldable pub expect_user :
      Peer → InfParams → (token : ℕ) → Option ℕ → UserConnection → Manager → Step
  unfolding meet
  expect_user p params token none u m = dropped (record u { uc_user = none }) m
  expect_user p params token (some v) u m = meet p params token v u m

  -- The part of onINF for incoming connections, once the token was told.
  unfoldable pub expect : Peer → InfParams → (token : ℕ) → UserConnection → Manager → Step
  unfolding remove_expected expect_user
  expect p params token u m =
      let ((cid, hub), others) = remove_expected token m.expected in
      let m' = record m { expected = others } in
      let told = record u { connect_token = token; uc_hub_url = hub } in
      if hub == 0
      then dropped (record u { connect_token = token }) m'
      else expect_user p params token (p.user_of_cid cid) told m'

  unfoldable pub on_inf : Peer → InfParams → UserConnection → Manager → Step
  unfolding expect verify
  on_inf p params u m =
      if not (in_state u.uc_state inf)
      then dropped u m
      else if u.incoming
      then elim params.to [ none ↦ put_away u m | some t ↦ expect p params t u m ]
      else verify p params u.connect_token u m

-- The messages of the handshake, with what the handlers take from them and from other components.
pub data Packet : Type 0 where
  sup_message : List Feature → Packet
  nick_message : (nick : ℕ) → (user_of_nick : ℕ → NickUser) → Packet
  lock_message : Packet
  direction_message : (wants_upload : Bool) → (own_number number : ℕ) → Packet
  key_message : (random : ℕ) → Offer → Packet
  inf_message : Peer → InfParams → Offer → Packet

unfoldable pub handle : Packet → UserConnection → Manager → Step
unfolding on_sup on_my_nick on_lock on_direction on_key on_inf
handle (sup_message fs) u m = on_sup fs u m
handle (nick_message nick users) u m = on_my_nick nick users u m
handle lock_message u m = on_lock u m
handle (direction_message wants own number) u m = on_direction wants own number u m
handle (key_message random o) u m = on_key o random u m
handle (inf_message p params o) u m = on_inf o p params u m
