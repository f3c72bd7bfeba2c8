-- ===== src/Bundle/Users/Counts.antt =====
-- The sources of a bundle are what the lists of its files by user say: refinement of a plain count
-- of the files of each user.
use airdcpp_core.Base.{
  ℕ, ◌+◌, ◌-◌, ◌<◌, ◌≡◌, refl, sym, ◌∙◌, inl, inr, Bool, true, false, none, some, List, [], ◌∷◌,
  ◌++◌, arith, ◌==◌, if◌then◌else◌, ==_iff, Bool-cases, length, if_both, if_cases,
}
use airdcpp_core.Bundle.Types.{BundleSource, Bundle}
use airdcpp_core.Bundle.Users.{find_source, change_source, more_files, fewer_files, get_items}

-- The abstract view: how many files each user has, and whether one is his first or last.
abbrev pub Wanted : Type 0
Wanted = ℕ → ℕ

unfoldable pub want : ℕ → Wanted → Wanted × Bool
want u s = (λ v. if v == u then s v + 1 else s v, s u == 0)

unfoldable pub unwant : ℕ → Wanted → Wanted × Bool
unwant u s = (λ v. if v == u then s v - 1 else s v, s u == 1)

-- Each user is there once, with files.
unfoldable pub IsSources : List BundleSource → Type 0
IsSources [] = Unit
IsSources (s ∷ ss) = (0 < s.files) × (find_source s.source_user ss ≡ none) × IsSources ss

unfoldable pub files_of : ℕ → List BundleSource → ℕ
files_of u [] = 0
files_of u (s ∷ ss) = let rest = files_of u ss in if s.source_user == u then s.files else rest

pub record Represents (b : Bundle) (s : Wanted) : Type 0 where
  pub sources_fine : IsSources b.bundle_sources
  pub by_source : (u : ℕ) → files_of u b.bundle_sources ≡ s u
  pub by_queue : (u : ℕ) → length (get_items u b) ≡ s u

pub find_none : (u : ℕ) (ss : List BundleSource) → find_source u ss ≡ none → files_of u ss ≡ 0
unfolding find_source files_of
find_none u [] h = refl
find_none u (s ∷ ss) h = ground (arith, find_none u ss)

pub find_some :
    (u : ℕ) (ss : List BundleSource) (t : BundleSource)
    → IsSources ss
    → find_source u ss ≡ some t
    → (files_of u ss ≡ t.files) × (0 < t.files)
unfolding find_source files_of IsSources
find_some u [] t k h = ground arith
find_some u (s ∷ ss) t k h = ground (arith, find_some u ss t, k)

-- One more file of a source.
pub files_of-more :
    (n u v : ℕ) (ss : List BundleSource) (t : BundleSource)
    → find_source u ss ≡ some t
    → files_of v (change_source (more_files n) u ss)
      ≡ (if v == u then files_of v ss + 1 else files_of v ss)
unfolding find_source files_of change_source
files_of-more n u v [] t h = ground arith
files_of-more n u v (s ∷ ss) t h = ground (arith, files_of-more n u v ss t)

pub files_of-append :
    (v : ℕ) (ss : List BundleSource) (t : BundleSource)
    → find_source t.source_user ss ≡ none
    → files_of v (ss ++ (t ∷ [])) ≡ (if v == t.source_user then t.files else files_of v ss)
unfolding find_source files_of
files_of-append v [] t h = ground arith
files_of-append v (s ∷ ss) t h = ground (arith, files_of-append v ss t)

-- One file less of the source in front.
fewer_front :
    (n v : ℕ) (s : BundleSource) (ss : List BundleSource)
    → files_of s.source_user ss ≡ 0
    → files_of v (if (fewer_files n s).files == 0 then ss else fewer_files n s ∷ ss)
      ≡ (if v == s.source_user then s.files - 1 else files_of v ss)
unfolding files_of
fewer_front n v s ss z =
    if_cases (λ l. files_of v l ≡ (if v == s.source_user then s.files - 1 else files_of v ss))
      (s.files - 1 == 0) _ _
      (λ e. elim (Bool-cases (v == s.source_user)) [
        | inl g ↦
            rw g (rw (← (==_iff v s.source_user).0 g) at z ∙ sym ((==_iff (s.files - 1) 0).0 e))
        | inr g ↦ rw g refl
      ])
      (λ e. elim (Bool-cases (v == s.source_user)) [
        | inl g ↦ rw (g, same_sym v s.source_user g) refl
        | inr g ↦ rw (g, other_sym v s.source_user g) refl
      ])
  where
    same_sym : (a b : ℕ) → (a == b) ≡ true → (b == a) ≡ true
    same_sym a b h = ground arith

    other_sym : (a b : ℕ) → (a == b) ≡ false → (b == a) ≡ false
    other_sym a b h = ground arith

pub files_of-fewer :
    (n u v : ℕ) (ss : List BundleSource)
    → IsSources ss
    → files_of v (change_source (fewer_files n) u ss)
      ≡ (if v == u then files_of v ss - 1 else files_of v ss)
unfolding files_of change_source IsSources
files_of-fewer n u v [] k = ground arith
files_of-fewer n u v (s ∷ ss) k = elim (Bool-cases (s.source_user == u)) [
  | inl e ↦ rw e (
      fewer_front n v s ss (find_none s.source_user ss k.1)
      ∙ at_front s.source_user s.files (files_of v ss) e)
  | inr e ↦ rw e (
      behind s.source_user s.files (files_of v ss) (files_of v (change_source (fewer_files n) u ss))
        e (files_of-fewer n u v ss k.2))
]
  where
    at_front :
        (w x y : ℕ)
        → (w == u) ≡ true
        → (if v == w then x - 1 else y)
          ≡ (if v == u then (if w == v then x else y) - 1 else (if w == v then x else y))
    at_front w x y e = ground arith

    behind :
        (w x y z : ℕ)
        → (w == u) ≡ false
        → z ≡ (if v == u then y - 1 else y)
        → (if w == v then x else z)
          ≡ (if v == u then (if w == v then x else y) - 1 else (if w == v then x else y))
    behind w x y z e h = ground arith

find_change :
    (f : BundleSource → BundleSource) (u w : ℕ) (ss : List BundleSource)
    → ((s : BundleSource) → (f s).source_user ≡ s.source_user)
    → find_source w ss ≡ none
    → find_source w (change_source f u ss) ≡ none
unfolding find_source change_source
find_change f u w [] k h = refl
find_change f u w (s ∷ ss) k h = ground (arith, find_change f u w ss k, k s)

-- A change of a source keeps the list in order.
pub change_source-IsSources :
    (f : BundleSource → BundleSource) (u : ℕ) (ss : List BundleSource)
    → ((s : BundleSource) → (f s).source_user ≡ s.source_user)
    → IsSources ss
    → IsSources (change_source f u ss)
unfolding change_source IsSources
change_source-IsSources f u [] k h = tt
change_source-IsSources f u (s ∷ ss) k h =
    if_both IsSources (s.source_user == u) _ (s ∷ change_source f u ss)
      (if_cases IsSources ((f s).files == 0) ss (f s ∷ ss) (λ e. h.2)
        (λ e. (ground arith, rw (k s) h.1, h.2)))
      (h.0, find_change f u s.source_user ss k h.1, change_source-IsSources f u ss k h.2)

find_append :
    (u : ℕ) (ss : List BundleSource) (t : BundleSource)
    → find_source u ss ≡ none
    → (t.source_user == u) ≡ false
    → find_source u (ss ++ (t ∷ [])) ≡ none
unfolding find_source
find_append u [] t h e = ground arith
find_append u (s ∷ ss) t h e = ground (arith, find_append u ss t)

pub append-IsSources :
    (ss : List BundleSource) (t : BundleSource)
    → IsSources ss
    → find_source t.source_user ss ≡ none
    → 0 < t.files
    → IsSources (ss ++ (t ∷ []))
unfolding IsSources find_source
append-IsSources [] t k h l = (l, refl, tt)
append-IsSources (s ∷ ss) t k h l = elim (Bool-cases (s.source_user == t.source_user)) [
  | inl e ↦ absurd (not_none (rw e at h))
  | inr e ↦ (
    k.0,
    find_append s.source_user ss t k.1 (ground arith),
    append-IsSources ss t k.2 (rw e at h) l,
  )
]
  where
    not_none : ¬ (some s ≡ none)
    not_none e = cc
