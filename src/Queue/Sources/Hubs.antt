-- ===== src/Queue/Sources/Hubs.antt =====
-- `validateHub` and `updateDownloadHubUrl` together: the hub that a download uses.
use Prim.Native.String.{String}
use text.Mathlib.Text.{◌==◌ as str_eq}
use airdcpp_core.Base.{
  ◌≡◌, refl, Bool, true, false, not, List, [], ◌∷◌, none, some, any, all, Bool-cases, inl, inr,
  arith,
}
use airdcpp_core.Queue.Sources.{Source, is_empty, validate_hub, find_hub, update_download_hub_url}

find_hub_total :
    (f : String → Bool) (hs : List String)
    → all (λ h. not (f h)) hs ≡ false
    → (h : String) × (find_hub f hs ≡ some h) × (f h ≡ true)
find_hub_total f [] e = cc
find_hub_total f (h ∷ hs) e = elim (Bool-cases (f h)) [
  | inl y ↦ (h, rw y refl, y)
  | inr n ↦ let (h', found, y) = find_hub_total f hs (ground arith) in (h', rw n found, y)
]

all_weaken :
    (f g : String → Bool) (hs : List String) → ((h : String) → f h ≡ g h) → all f hs ≡ all g hs
all_weaken f g [] e = refl
all_weaken f g (h ∷ hs) e = ground (arith, e h, all_weaken f g hs e)

not-is_empty : (hs : List String) (f : String → Bool) → any f hs ≡ true → is_empty hs ≡ false
not-is_empty [] f e = cc
not-is_empty (h ∷ hs) f e = refl

not-not : (b : Bool) → not (not b) ≡ b
not-not true = refl
not-not false = refl

not-all :
    (online : List String) (s : Source) (url : String)
    → any (str_eq url) s.blocked_hubs ≡ true
    → validate_hub online true s ≡ none
    → all (λ h. not (not (any (str_eq h) s.blocked_hubs))) online ≡ false
unfolding validate_hub
not-all online s url blocked e =
    rw
      (all_weaken (λ h. not (not (any (str_eq h) s.blocked_hubs)))
        (λ h. any (str_eq h) s.blocked_hubs) online (λ h. not-not (any (str_eq h) s.blocked_hubs)))
      (ground (arith, e, not-is_empty s.blocked_hubs (str_eq url) blocked))

-- For a source that validateHub accepts, updateDownloadHubUrl returns, where the hub may change, a
-- hub that is not blocked.
pub update_download_hub_url_open :
    (online : List String) (url : String) (s : Source)
    → validate_hub online true s ≡ none
    → (changed : Bool) × (h : String) × (update_download_hub_url online url true s
        ≡ some (changed, h))
      × (any (str_eq h) s.blocked_hubs ≡ false)
unfolding validate_hub update_download_hub_url
update_download_hub_url_open online url s e = elim (Bool-cases (any (str_eq url) s.blocked_hubs)) [
  | inr free ↦ (false, url, ground (arith, free), free)
  | inl blocked ↦
      let some_left = not-all online s url blocked e in
      let (h, found, open_hub) =
        find_hub_total (λ h. not (any (str_eq h) s.blocked_hubs)) online some_left in
      (true, h, ground (arith, blocked, found), ground (arith, open_hub))
]
