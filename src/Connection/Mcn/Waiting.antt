-- ===== src/Connection/Mcn/Waiting.antt =====
-- A user has one waiting connection at most that was made for many connections.
use airdcpp_core.Base.{
  ℕ, ◌+◌, ◌≤◌, ◌≡◌, refl, ap, subst, ◌⊎◌, inl, inr, Bool, true, false, not, ◌&&◌, ◌||◌, Option,
  none, some, List, [], ◌∷◌, ◌++◌, arith, ◌==◌, if◌then◌else◌, ==_iff, ==_refl, Bool-cases,
  Option-cases,
}
use airdcpp_core.Connection.Types.{
  download, QueueDownloadType, any_file, small, mcn_normal, Item, UserConnection, is_mcn_normal,
}
use airdcpp_core.Connection.Tokens.{Tokens, is_registered, create_token}
use airdcpp_core.Connection.Manager.Owned.{
  IsOwned, IsFresh, held, count_token, create_token-IsFresh,
}
use airdcpp_core.Connection.Item.{reset_fatal_error, new_item}
use airdcpp_core.Connection.Manager.{
  Manager, update_item, get_new_cqi, after_token, push_item, get_cqi,
}
use airdcpp_core.Connection.Mcn.{
  Scan, stopped, passed, scan_item, scan_downloads, allow_new_mcn, reset_waiting, set_download_type,
  with_type, get_download_connection, create_new_mcn, find_download, run_item, on_download_running,
}

abbrev is_waiting_normal : ℕ → Item → Bool
is_waiting_normal u c = (c.user == u) && is_mcn_normal c.download_type && not c.running

-- How many items of a user wait.
unfoldable pub waiting_normal : ℕ → List Item → ℕ
waiting_normal u [] = 0
waiting_normal u (c ∷ cs) = (if is_waiting_normal u c then 1 else 0) + waiting_normal u cs

unfoldable pub OneWaiting : Manager → Type 0
OneWaiting m = (u : ℕ) → waiting_normal u m.downloads ≤ 1

-- Of the manager that is left, where there is one.
unfoldable pub Keeps : (Manager → Type 0) → Option Manager → Type 0
Keeps P none = Unit
Keeps P (some m) = P m

waiting_normal-append :
    (u : ℕ) (cs ds : List Item)
    → waiting_normal u (cs ++ ds) ≡ waiting_normal u cs + waiting_normal u ds
unfolding waiting_normal
waiting_normal-append u [] ds = omega arith
waiting_normal-append u (c ∷ cs) ds = omega (arith, waiting_normal-append u cs ds)

IsPassed : Scan → Type 0
IsPassed (stopped w) = ⊥
IsPassed (passed l n s) = Unit

-- Where the loop goes through, no item of the user waits.
scan_passed :
    (u : ℕ) (cs : List Item) (last : Option Item) (n : ℕ) (s : Bool)
    → IsPassed (scan_downloads u false cs last n s)
    → waiting_normal u cs ≡ 0
unfolding scan_downloads scan_item waiting_normal IsPassed
scan_passed u [] last n s h = refl
scan_passed u (c ∷ cs) last n s h = ground (
  arith,
  scan_passed u cs (some c) n s,
  scan_passed u cs (some c) n true,
  scan_passed u cs (some c) (n + 1) true,
)

Scan-cases : (s : Scan) → IsPassed s ⊎ ((w : Option ℕ) × (s ≡ stopped w))
unfolding IsPassed
Scan-cases (stopped w) = inr (w, refl)
Scan-cases (passed l n s) = inl tt

allow_new_mcn_waiting :
    (own u : ℕ) (cs : List Item) → (allow_new_mcn own u false cs).0 ≡ true → waiting_normal u cs ≡ 0
unfolding allow_new_mcn
allow_new_mcn_waiting own u cs h = elim (Scan-cases (scan_downloads u false cs none 0 false)) [
  | inl p ↦ scan_passed u cs none 0 false p
  | inr (w, e) ↦ absurd (not_allowed (rw (allow_new_mcn, e) at h))
]
  where
    not_allowed : ¬ (false ≡ true)
    not_allowed e = cc

update_running :
    (u t : ℕ) (cs : List Item)
    → waiting_normal u (update_item (λ i. record i { running = true }) t cs) ≤ waiting_normal u cs
unfolding update_item waiting_normal
update_running u t [] = omega arith
update_running u t (c ∷ cs) = ground (arith, update_running u t cs)

-- The change of the item that was just made.
update_new :
    (f : Item → Item) (t : ℕ) (cs : List Item) (c : Item)
    → c.token ≡ t
    → count_token t cs ≤ 0
    → update_item f t (cs ++ (c ∷ [])) ≡ cs ++ (f c ∷ [])
unfolding update_item count_token
update_new f t [] c e h = rw (e, ==_refl t) refl
update_new f t (d ∷ cs) c e h = elim (Bool-cases (d.token == t)) [
  | inl k ↦ absurd (omega (arith, rw k at h))
  | inr k ↦ rw k (ap (λ ds. d ∷ ds) (update_new f t cs c e (omega (arith, rw k at h))))
]

none_held :
    (t : ℕ) (m : Manager)
    → IsOwned m
    → is_registered t m.tokens ≡ false
    → count_token t m.downloads ≤ 0
unfolding IsOwned held
none_held t m h f = omega (arith, rw f at (h t))

-- A new item waits for its user only, and only if it is made for many connections.
with_type-OneWaiting :
    (type : QueueDownloadType) (mcn : Bool) (o : Option (ℕ × Tokens)) (user hub_url : ℕ)
    (m : Manager)
    → IsOwned m
    → IsFresh m.tokens download o
    → OneWaiting m
    → (is_mcn_normal type ≡ true → waiting_normal user m.downloads ≡ 0)
    → Keeps OneWaiting (with_type type mcn (after_token o user hub_url download m))
unfolding with_type after_token set_download_type get_cqi push_item new_item Keeps OneWaiting
    IsFresh waiting_normal
with_type-OneWaiting type mcn none user hub_url m w f h k = tt
with_type-OneWaiting type mcn (some r) user hub_url m w f h k = λ v.
    rw
      (
        update_new (λ i. record i { download_type = type; mcn = mcn || i.mcn }) r.0 m.downloads
            (new_item user hub_url download r.0) refl (none_held r.0 m w f.0),
        waiting_normal-append v m.downloads (
            record (new_item user hub_url download r.0) { download_type = type; mcn = mcn || false }
            ∷ []),
      )
      (bound (user == v) (is_mcn_normal type) (waiting_normal v m.downloads) (h v)
        (λ e g. subst (λ x. waiting_normal x m.downloads ≡ 0) ((==_iff user v).0 e) (k g)))
  where
    bound :
        (same normal : Bool) (n : ℕ)
        → n ≤ 1
        → (same ≡ true → normal ≡ true → n ≡ 0)
        → n + ((if same && normal && true then 1 else 0) + 0) ≤ 1
    bound true true n l z = omega (arith, z refl refl)
    bound true false n l z = omega arith
    bound false b n l z = omega arith

update_reset :
    (u t : ℕ) (cs : List Item)
    → waiting_normal u (update_item reset_fatal_error t cs) ≤ waiting_normal u cs
unfolding update_item waiting_normal reset_fatal_error
update_reset u t [] = omega arith
update_reset u t (c ∷ cs) = ground (arith, update_reset u t cs)

either :
    (b : Bool) (x y : Option Manager)
    → Keeps OneWaiting x
    → Keeps OneWaiting y
    → Keeps OneWaiting (if b then x else y)
either true x y h k = h
either false x y h k = k

pub create_new_mcn-OneWaiting :
    (more : Bool) (draws : List ℕ) (user hub_url : ℕ) (m : Manager)
    → IsOwned m
    → OneWaiting m
    → waiting_normal user m.downloads ≡ 0
    → Keeps OneWaiting (create_new_mcn more draws user hub_url m)
unfolding create_new_mcn Keeps get_new_cqi
create_new_mcn-OneWaiting false draws user hub_url m w h z = h
create_new_mcn-OneWaiting true draws user hub_url m w h z =
    with_type-OneWaiting mcn_normal true (create_token draws download m.tokens) user hub_url m w
      (create_token-IsFresh draws download m.tokens) h (λ e. z)

reset_waiting-OneWaiting :
    (o : Option ℕ) (m : Manager) → OneWaiting m → OneWaiting (reset_waiting o m)
unfolding reset_waiting OneWaiting
reset_waiting-OneWaiting none m h = h
reset_waiting-OneWaiting (some t) m h = λ u. omega (arith, h u, update_reset u t m.downloads)

pub get_download_connection-OneWaiting :
    (found_idle : Bool) (own : ℕ) (draws : List ℕ) (user hub_url : ℕ) (small_wanted : Bool)
    (m : Manager)
    → IsOwned m
    → OneWaiting m
    → Keeps OneWaiting (get_download_connection found_idle own draws user hub_url small_wanted m)
unfolding get_download_connection Keeps get_new_cqi
get_download_connection-OneWaiting true own draws user hub_url small_wanted m w h = h
get_download_connection-OneWaiting false own draws user hub_url small_wanted m w h =
    either (not (allow_new_mcn own user small_wanted m.downloads).0) _ _
      (reset_waiting-OneWaiting (allow_new_mcn own user small_wanted m.downloads).1 m h)
      (with_type-OneWaiting (if small_wanted then small else any_file) false
        (create_token draws download m.tokens) user hub_url m w
        (create_token-IsFresh draws download m.tokens) h (not_normal small_wanted))
  where
    not_normal :
        (b : Bool)
        → is_mcn_normal (if b then small else any_file) ≡ true
        → waiting_normal user m.downloads ≡ 0
    not_normal b e = ground arith

count_token-running :
    (t v : ℕ) (cs : List Item)
    → count_token t (update_item (λ i. record i { running = true }) v cs) ≡ count_token t cs
unfolding count_token update_item
count_token-running t v [] = refl
count_token-running t v (c ∷ cs) = ground (arith, count_token-running t v cs)

flagged-IsOwned :
    (v : ℕ) (m : Manager)
    → IsOwned m
    → IsOwned
        (record m { downloads = update_item (λ i. record i { running = true }) v m.downloads })
unfolding IsOwned held
flagged-IsOwned v m h t = rw (count_token-running t v m.downloads) (h t)

run_item-OneWaiting :
    (more : Bool) (own : ℕ) (draws : List ℕ) (u : UserConnection) (m : Manager) (c : Item)
    → IsOwned m
    → OneWaiting m
    → u.uc_user ≡ some c.user
    → Keeps OneWaiting (run_item more own draws u m c)
unfolding run_item OneWaiting Keeps
run_item-OneWaiting more own draws u m c w h e =
    let flagged = record m {
      downloads = update_item (λ i. record i { running = true }) c.token m.downloads;
    } in
    either c.running (some m) _ h (
      either (not c.mcn) (some flagged) _ flagged_one
        (elim (Bool-cases (allow_new_mcn own c.user false flagged.downloads).0) [
          | inr k ↦ rw k flagged_one
          | inl k ↦
              rw (k, e)
                (create_new_mcn-OneWaiting more draws c.user u.uc_hub_url flagged
                  (flagged-IsOwned c.token m w) flagged_one
                  (allow_new_mcn_waiting own c.user flagged.downloads k))
        ]))
  where
    flagged_one : OneWaiting (record m {
      downloads = update_item (λ i. record i { running = true }) c.token m.downloads;
    })
    flagged_one = λ v. omega (arith, h v, update_running v c.token m.downloads)

-- When a download starts to run, each user keeps one waiting connection at most that was made for
-- many connections, if the tokens of the items are registered and differ and the item that is found
-- is of the user of the connection.
pub on_download_running-OneWaiting :
    (more : Bool) (own : ℕ) (draws : List ℕ) (u : UserConnection) (m : Manager)
    → IsOwned m
    → OneWaiting m
    → ((c : Item) → find_download u m.downloads ≡ some c → u.uc_user ≡ some c.user)
    → Keeps OneWaiting (on_download_running more own draws u m)
unfolding on_download_running OneWaiting Keeps
on_download_running-OneWaiting more own draws u m w h e =
    elim (found_cases (find_download u m.downloads)) [
      | inl k ↦ rw (on_download_running, k) h
      | inr (c, k) ↦
          rw (on_download_running, k) (run_item-OneWaiting more own draws u m c w h (e c k))
    ]
  where
    found_cases : (o : Option Item) → (o ≡ none) ⊎ ((c : Item) × (o ≡ some c))
    found_cases o = Option-cases o
