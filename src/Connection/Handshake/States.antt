-- ===== src/Connection/Handshake/States.antt =====
-- The states that the handshake passes through.
use airdcpp_core.Base.{
  ℕ, ◌+◌, ◌≤◌, ◌≡◌, refl, subst, ◌⊎◌, inl, inr, Bool, true, false, not, ◌||◌, Option, none, some,
  List, [], ◌∷◌, arith, ◌==◌, if◌then◌else◌, Bool-cases, Option-cases,
}
use airdcpp_core.Connection.Types.{
  pm, UserConnection, UcState, supnick, inf, lock, direction, key, get, snd, idle, cmd,
}
use airdcpp_core.Connection.Tokens.{has_token}
use airdcpp_core.Connection.Manager.{Manager, find_item, remove_expected}
use airdcpp_core.Connection.Join.{
  Step, in_state, dropped, add_download_connection, add_upload_connection, add_pm_connection,
  join_source, Offer, check_downloads, add_connection,
}
use airdcpp_core.Connection.Handshake.{
  on_sup, on_my_nick, know_nick, on_lock, on_direction, on_key, on_inf, expect, expect_user, meet,
  verify, check_token, assign, was_removed, InfParams, Peer, NickUser, Feature, Packet, sup_message,
  nick_message, lock_message, direction_message, key_message, inf_message, handle, add_features,
  note_feature, base, bas0, zlib_get, bzip, tigr, mcn1, other,
}

-- The states in which a connection is handed on, and those that the managers of transfers set.
unfoldable pub IsReady : UcState → Type 0
IsReady s = (s ≡ key) ⊎ (s ≡ inf)

unfoldable pub IsServed : UcState → Type 0
IsServed s = (s ≡ get) ⊎ ((s ≡ snd) ⊎ (s ≡ idle))

infix 40 ◌⟶◌
pub data ◌⟶◌ : UcState → UcState → Type 0 where
  stay : {s : UcState} → s ⟶ s
  supported : supnick ⟶ inf
  named : supnick ⟶ lock
  locked : lock ⟶ direction
  directed : direction ⟶ key
  joined : {s t : UcState} → IsReady s → IsServed t → s ⟶ t
  chatting : inf ⟶ cmd

ruleset edges = (stay, supported, named, locked, directed, joined, chatting)

pub add_features_state :
    (fs : List Feature) (u : UserConnection) → (add_features fs u).uc_state ≡ u.uc_state
unfolding add_features note_feature
add_features_state [] u = refl
add_features_state (base ∷ fs) u = add_features_state fs _
add_features_state (bas0 ∷ fs) u = add_features_state fs _
add_features_state (zlib_get ∷ fs) u = add_features_state fs _
add_features_state (bzip ∷ fs) u = add_features_state fs _
add_features_state (tigr ∷ fs) u = add_features_state fs _
add_features_state (mcn1 ∷ fs) u = add_features_state fs _
add_features_state (other ∷ fs) u = add_features_state fs _

pub in_state_eq : (s t : UcState) → in_state s t ≡ true → s ≡ t
in_state_eq s t h = ground arith

on_sup-⟶ :
    (fs : List Feature) (u : UserConnection) (m : Manager)
    → u.uc_state ⟶ (on_sup fs u m).source.uc_state
unfolding on_sup
on_sup-⟶ fs u m = grind (arith, edges, add_features_state fs (record u { supports_mcn = false }))

on_direction-⟶ :
    (w : Bool) (a b : ℕ) (u : UserConnection) (m : Manager)
    → u.uc_state ⟶ (on_direction w a b u m).source.uc_state
unfolding on_direction
on_direction-⟶ w a b u m = grind (arith, edges)

on_lock-⟶ : (u : UserConnection) (m : Manager) → u.uc_state ⟶ (on_lock u m).source.uc_state
unfolding on_lock
on_lock-⟶ u m = grind (arith, edges)

know_nick-⟶ :
    (n : NickUser) (u : UserConnection) (m : Manager)
    → u.uc_state ≡ supnick
    → supnick ⟶ (know_nick n u m).source.uc_state
unfolding know_nick
know_nick-⟶ n u m h = grind (arith, edges)

on_my_nick-⟶ :
    (nick : ℕ) (users : ℕ → NickUser) (u : UserConnection) (m : Manager)
    → u.uc_state ⟶ (on_my_nick nick users u m).source.uc_state
unfolding on_my_nick
on_my_nick-⟶ nick users u m = grind (arith, edges, know_nick-⟶)

-- Where a connection is added, its state stays or is one of a transfer.
add_connection_state :
    (o : Offer) (u : UserConnection) (m : Manager)
    → ((add_connection o u m).source.uc_state ≡ u.uc_state)
      ⊎ IsServed (add_connection o u m).source.uc_state
unfolding add_connection check_downloads IsServed
add_connection_state o u m = grind arith

add_download_state :
    (o : Offer) (u : UserConnection) (m : Manager)
    → ((add_download_connection o u m).source.uc_state ≡ u.uc_state)
      ⊎ IsServed (add_download_connection o u m).source.uc_state
unfolding add_download_connection join_source add_connection check_downloads IsServed
add_download_state o u m = grind arith

add_upload_state :
    (u : UserConnection) (m : Manager)
    → ((add_upload_connection u m).source.uc_state ≡ u.uc_state)
      ⊎ IsServed (add_upload_connection u m).source.uc_state
unfolding add_upload_connection IsServed
add_upload_state u m = grind arith

handed-⟶ : (s t : UcState) → IsReady s → (t ≡ s) ⊎ IsServed t → s ⟶ t
handed-⟶ s t r (inl e) = rw e stay
handed-⟶ s t r (inr v) = joined r v

add_pm-⟶ :
    (u : UserConnection) (m : Manager)
    → u.uc_state ≡ inf
    → inf ⟶ (add_pm_connection u m).source.uc_state
unfolding add_pm_connection
add_pm-⟶ u m h = grind (arith, edges)

if-⟶ :
    (s : UcState) (b : Bool) (x y : Step)
    → s ⟶ x.source.uc_state
    → s ⟶ y.source.uc_state
    → s ⟶ (if b then x else y).source.uc_state
if-⟶ s true x y h k = h
if-⟶ s false x y h k = k

handed_inf :
    (u : UserConnection) (r : Step)
    → u.uc_state ≡ inf
    → (r.source.uc_state ≡ u.uc_state) ⊎ IsServed r.source.uc_state
    → inf ⟶ r.source.uc_state
unfolding IsReady
handed_inf u r h k =
    subst (λ s. s ⟶ r.source.uc_state) h (handed-⟶ u.uc_state r.source.uc_state (inr h) k)

on_key-⟶ :
    (o : Offer) (r : ℕ) (u : UserConnection) (m : Manager)
    → u.uc_state ⟶ (on_key o r u m).source.uc_state
unfolding on_key IsReady
on_key-⟶ o r u m = elim (Bool-cases (in_state u.uc_state key)) [
  | inr e ↦ rw e stay
  | inl e ↦
      let ready : IsReady u.uc_state = inl (in_state_eq u.uc_state key e) in
      let named = record u { connect_token = r } in
      rw e (
        if-⟶ u.uc_state u.downloading (add_download_connection o u m)
          (add_upload_connection named m) (handed-⟶ u.uc_state _ ready (add_download_state o u m))
          (handed-⟶ u.uc_state _ ready (add_upload_state named m)))
]

assign-⟶ :
    (o : Offer) (p : InfParams) (t : ℕ) (u : UserConnection) (m : Manager)
    → u.uc_state ≡ inf
    → inf ⟶ (assign o p t u m).source.uc_state
unfolding assign
assign-⟶ o p t u m h = grind (
  arith,
  edges,
  add_pm-⟶,
  handed_inf u (add_download_connection o u m) h (add_download_state o u m),
  handed_inf u (add_upload_connection (record u { uploading = true }) m) h
      (add_upload_state (record u { uploading = true }) m),
)

kept_inf : (u : UserConnection) → u.uc_state ≡ inf → inf ⟶ u.uc_state
kept_inf u h = rw h stay

check_token-⟶ :
    (o : Offer) (p : InfParams) (t : ℕ) (u : UserConnection) (m : Manager)
    → u.uc_state ≡ inf
    → inf ⟶ (check_token o p t u m).source.uc_state
unfolding check_token
check_token-⟶ o p t u m h = elim (Option-cases (find_item t m.downloads)) [
  | inl e ↦
      rw (check_token, e)
        (if-⟶ inf (was_removed t m.removed) (dropped u m) _ (kept_inf u h) (assign-⟶ o p t u m h))
  | inr (c, e) ↦ rw (check_token, e) (assign-⟶ o p t (record u { downloading = true }) _ h)
]

verify-⟶ :
    (o : Offer) (e : Peer) (p : InfParams) (t : ℕ) (u : UserConnection) (m : Manager)
    → u.uc_state ≡ inf
    → inf ⟶ (verify o e p t u m).source.uc_state
unfolding verify
verify-⟶ o e p t u m h = grind (arith, edges, check_token-⟶)

meet-⟶ :
    (o : Offer) (e : Peer) (p : InfParams) (t v : ℕ) (u : UserConnection) (m : Manager)
    → u.uc_state ≡ inf
    → inf ⟶ (meet o e p t v u m).source.uc_state
unfolding meet
meet-⟶ o e p t v u m h =
    let known = record u { uc_user = some v } in
    let private = record known { private_chat = true } in
    if-⟶ inf (has_token t (some pm) m.tokens || p.pm_flag) _ _
      (if-⟶ inf (not (e.supports_tls v)) (dropped private m) (verify o e p t private m)
        (kept_inf private h) (verify-⟶ o e p t private m h))
      (verify-⟶ o e p t known m h)

expect_user-⟶ :
    (o : Offer) (e : Peer) (p : InfParams) (t : ℕ) (c : Option ℕ) (u : UserConnection) (m : Manager)
    → u.uc_state ≡ inf
    → inf ⟶ (expect_user o e p t c u m).source.uc_state
unfolding expect_user
expect_user-⟶ o e p t none u m h = kept_inf u h
expect_user-⟶ o e p t (some v) u m h = meet-⟶ o e p t v u m h

expect-⟶ :
    (o : Offer) (e : Peer) (p : InfParams) (t : ℕ) (u : UserConnection) (m : Manager)
    → u.uc_state ≡ inf
    → inf ⟶ (expect o e p t u m).source.uc_state
unfolding expect
expect-⟶ o e p t u m h =
    let ((cid, hub), others) = remove_expected t m.expected in
    let m' = record m { expected = others } in
    let told = record u { connect_token = t; uc_hub_url = hub } in
    if-⟶ inf (hub == 0) (dropped (record u { connect_token = t }) m') _ (kept_inf u h)
      (expect_user-⟶ o e p t (e.user_of_cid cid) told m' h)

pub on_inf-⟶ :
    (o : Offer) (e : Peer) (p : InfParams) (u : UserConnection) (m : Manager)
    → u.uc_state ⟶ (on_inf o e p u m).source.uc_state
unfolding on_inf
on_inf-⟶ o e p u m = grind (arith, edges, verify-⟶, expect-⟶, in_state_eq u.uc_state inf)

-- A message of the handshake leaves a connection in its state or moves it along the diagram: from
-- supnick to inf or lock, from lock to direction, from direction to key, from key and from inf to
-- get, snd or idle, which the managers of uploads and downloads set, and from inf to cmd.
pub handle-⟶ :
    (g : Packet) (u : UserConnection) (m : Manager) → u.uc_state ⟶ (handle g u m).source.uc_state
unfolding handle
handle-⟶ (sup_message fs) u m = on_sup-⟶ fs u m
handle-⟶ (nick_message n users) u m = on_my_nick-⟶ n users u m
handle-⟶ lock_message u m = on_lock-⟶ u m
handle-⟶ (direction_message w a b) u m = on_direction-⟶ w a b u m
handle-⟶ (key_message r o) u m = on_key-⟶ o r u m
handle-⟶ (inf_message e p o) u m = on_inf-⟶ o e p u m

-- How many messages may still move a connection on.
abbrev pub steps_left : UcState → ℕ
steps_left supnick = 4
steps_left lock = 3
steps_left direction = 2
steps_left inf = 1
steps_left key = 1
steps_left _ = 0

-- The number of messages that move the connection to another state.
abbrev pub moved : List Packet → UserConnection → Manager → ℕ
moved [] u m = 0
moved (g ∷ gs) u m =
    let o = handle g u m in
    (if steps_left o.source.uc_state == steps_left u.uc_state then 0 else 1)
    + moved gs o.source o.manager

step_down :
    (s t : UcState)
    → s ⟶ t
    → (if steps_left t == steps_left s then 0 else 1) + steps_left t ≤ steps_left s
unfolding IsReady IsServed
step_down s _ stay = ground arith
step_down _ _ supported = omega arith
step_down _ _ named = omega arith
step_down _ _ locked = omega arith
step_down _ _ directed = omega arith
step_down _ _ chatting = omega arith
step_down s t (joined r v) = ground (arith, r, v)

-- However many messages arrive, at most four of them move a connection to another stage of the
-- handshake, and fewer from the later states.
pub moved_le :
    (gs : List Packet) (u : UserConnection) (m : Manager) → moved gs u m ≤ steps_left u.uc_state
moved_le [] u m = omega arith
moved_le (g ∷ gs) u m =
    let o = handle g u m in
    omega (
      arith,
      step_down u.uc_state o.source.uc_state (handle-⟶ g u m),
      moved_le gs o.source o.manager,
    )
