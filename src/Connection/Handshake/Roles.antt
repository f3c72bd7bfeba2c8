-- ===== src/Connection/Handshake/Roles.antt =====
-- Over NMDC each connection is either for uploading or for downloading.
use airdcpp_core.Base.{
  ℕ, ◌≡◌, refl, subst, ◌⊎◌, inl, inr, Bool, false, not, none, List, [], ◌∷◌, arith, ◌==◌,
  Bool-cases, if_both,
}
use airdcpp_core.Connection.Types.{UserConnection, UcState, supnick, inf, lock, direction, key}
use airdcpp_core.Connection.Manager.{Manager, remove_expected}
use airdcpp_core.Connection.Join.{
  Step, put, in_state, put_away, add_download_connection, add_upload_connection, join_source, Offer,
  check_downloads, add_connection,
}
use airdcpp_core.Connection.Handshake.{
  on_sup, on_my_nick, know_nick, on_lock, on_direction, on_key, NickUser, Feature, add_features,
  note_feature, Peer, InfParams, base, bas0, zlib_get, bzip, tigr, mcn1, other, on_inf, Packet,
  sup_message, nick_message, lock_message, direction_message, key_message, inf_message, handle,
}
use airdcpp_core.Connection.Handshake.States.{
  add_features_state, in_state_eq, on_inf-⟶, ◌⟶◌, stay, supported, named, locked, directed, joined,
  chatting, IsServed,
}

-- The assertion of the source, behind the message that names the user; in front of it the connection
-- is for neither.
unfoldable pub HasRole : UcState → UserConnection → Type 0
HasRole supnick u = (u.downloading ≡ false) × (u.uploading ≡ false)
HasRole lock u = u.downloading ≡ not u.uploading
HasRole direction u = u.downloading ≡ not u.uploading
HasRole key u = u.downloading ≡ not u.uploading
HasRole _ u = Unit

-- In front of that message no user is known.
unfoldable pub IsUnnamed : UcState → UserConnection → Type 0
IsUnnamed supnick u = u.uc_user ≡ none
IsUnnamed _ u = Unit

-- What a handler leaves: the role, and no user in front of the name, unless the connection is put away.
unfoldable pub IsSettled : Step → Type 0
unfolding HasRole IsUnnamed
IsSettled r =
    HasRole r.source.uc_state r.source × ((r.fate ≡ put) ⊎ IsUnnamed r.source.uc_state r.source)

know_nick-IsSettled :
    (n : NickUser) (u : UserConnection) (m : Manager)
    → u.uc_state ≡ supnick
    → HasRole supnick u
    → IsUnnamed supnick u
    → IsSettled (know_nick n u m)
unfolding know_nick IsSettled
know_nick-IsSettled n u m s h k = grind arith

on_direction-IsSettled :
    (w : Bool) (a b : ℕ) (u : UserConnection) (m : Manager)
    → HasRole u.uc_state u
    → IsUnnamed u.uc_state u
    → IsSettled (on_direction w a b u m)
unfolding on_direction IsSettled
on_direction-IsSettled w a b u m h k = grind arith

add_features_roles :
    (fs : List Feature) (u : UserConnection)
    → ((add_features fs u).uc_user ≡ u.uc_user)
      × ((add_features fs u).downloading ≡ u.downloading)
      × ((add_features fs u).uploading ≡ u.uploading)
unfolding add_features note_feature
add_features_roles [] u = (refl, refl, refl)
add_features_roles (base ∷ fs) u = add_features_roles fs _
add_features_roles (bas0 ∷ fs) u = add_features_roles fs _
add_features_roles (zlib_get ∷ fs) u = add_features_roles fs _
add_features_roles (bzip ∷ fs) u = add_features_roles fs _
add_features_roles (tigr ∷ fs) u = add_features_roles fs _
add_features_roles (mcn1 ∷ fs) u = add_features_roles fs _
add_features_roles (other ∷ fs) u = add_features_roles fs _

on_sup-IsSettled :
    (fs : List Feature) (u : UserConnection) (m : Manager)
    → HasRole u.uc_state u
    → IsUnnamed u.uc_state u
    → IsSettled (on_sup fs u m)
unfolding on_sup IsSettled
on_sup-IsSettled fs u m h k = grind (
  arith,
  add_features_roles fs (record u { supports_mcn = false }),
  add_features_state fs (record u { supports_mcn = false }),
)

on_my_nick-IsSettled :
    (nick : ℕ) (users : ℕ → NickUser) (u : UserConnection) (m : Manager)
    → HasRole u.uc_state u
    → IsUnnamed u.uc_state u
    → IsSettled (on_my_nick nick users u m)
unfolding on_my_nick IsSettled
on_my_nick-IsSettled nick users u m h k = elim (Bool-cases (in_state u.uc_state supnick)) [
  | inr e ↦ rw e (h, inr k)
  | inl e ↦
      let s = in_state_eq u.uc_state supnick e in
      let h' = subst (λ s. HasRole s u) s h in
      let k' = subst (λ s. IsUnnamed s u) s k in
      let ((my_nick, hub), others) = remove_expected nick m.expected in
      let m' = record m { expected = others } in
      let guessed = record u { connect_token = my_nick; uc_hub_url = hub } in
      rw e (
        if_both {A = Step} IsSettled u.incoming _ _
          (if_both {A = Step} IsSettled (hub == 0) (put_away u m')
            (know_nick (users hub) guessed m') (h, inl refl)
            (know_nick-IsSettled (users hub) guessed m' s h' k'))
          (know_nick-IsSettled (users u.uc_hub_url) u m s h' k'))
]

on_lock-IsSettled :
    (u : UserConnection) (m : Manager)
    → HasRole u.uc_state u
    → IsUnnamed u.uc_state u
    → IsSettled (on_lock u m)
unfolding on_lock IsSettled
on_lock-IsSettled u m h k = grind arith

on_key-IsSettled :
    (o : Offer) (r : ℕ) (u : UserConnection) (m : Manager)
    → HasRole u.uc_state u
    → IsUnnamed u.uc_state u
    → IsSettled (on_key o r u m)
unfolding on_key IsSettled add_download_connection add_upload_connection join_source add_connection
    check_downloads
on_key-IsSettled o r u m h k = grind arith

behind_inf : (s t : UcState) (u : UserConnection) → s ≡ inf → s ⟶ t → HasRole t u × IsUnnamed t u
unfolding HasRole IsUnnamed IsServed
behind_inf s t u e stay = rw e (tt, tt)
behind_inf _ _ u e supported = (tt, tt)
behind_inf _ _ u e named = absurd (ground arith)
behind_inf _ _ u e locked = absurd (ground arith)
behind_inf _ _ u e directed = absurd (ground arith)
behind_inf _ _ u e (joined r (inl v)) = rw v (tt, tt)
behind_inf _ _ u e (joined r (inr (inl v))) = rw v (tt, tt)
behind_inf _ _ u e (joined r (inr (inr v))) = rw v (tt, tt)
behind_inf _ _ u e chatting = (tt, tt)

unmoved :
    (o : Offer) (e : Peer) (p : InfParams) (u : UserConnection) (m : Manager)
    → in_state u.uc_state inf ≡ false
    → (on_inf o e p u m).source ≡ u
unfolding on_inf
unmoved o e p u m h = rw h refl

on_inf-IsSettled :
    (o : Offer) (e : Peer) (p : InfParams) (u : UserConnection) (m : Manager)
    → HasRole u.uc_state u
    → IsUnnamed u.uc_state u
    → IsSettled (on_inf o e p u m)
unfolding IsSettled
on_inf-IsSettled o e p u m h k = elim (Bool-cases (in_state u.uc_state inf)) [
  | inr e' ↦ rw (unmoved o e p u m e') (h, inr k)
  | inl e' ↦
      let r = on_inf o e p u m in
      let (a, b) =
        behind_inf u.uc_state r.source.uc_state r.source (in_state_eq u.uc_state inf e')
          (on_inf-⟶ o e p u m) in
      (a, inr b)
]

-- Over every message of the handshake, if a connection in the states lock, direction and key is
-- either for uploading or for downloading and not both, and one in supnick is for neither and of no
-- known user, then the roles are so again afterwards, and a connection in supnick is of no known
-- user or was put away.
pub handle-HasRole :
    (g : Packet) (u : UserConnection) (m : Manager)
    → HasRole u.uc_state u
    → IsUnnamed u.uc_state u
    → HasRole (handle g u m).source.uc_state (handle g u m).source
      × (((handle g u m).fate ≡ put)
          ⊎ IsUnnamed (handle g u m).source.uc_state (handle g u m).source)
unfolding handle IsSettled
handle-HasRole (sup_message fs) u m h k = on_sup-IsSettled fs u m h k
handle-HasRole (nick_message n users) u m h k = on_my_nick-IsSettled n users u m h k
handle-HasRole lock_message u m h k = on_lock-IsSettled u m h k
handle-HasRole (direction_message w a b) u m h k = on_direction-IsSettled w a b u m h k
handle-HasRole (key_message r o) u m h k = on_key-IsSettled o r u m h k
handle-HasRole (inf_message e p o) u m h k = on_inf-IsSettled o e p u m h k
