-- ===== src/Search/Query/Above.antt =====
-- What a query knows of the directories above.
use airdcpp_core.Base.{
  ℕ, ◌≡◌, Bool, false, not, ◌&&◌, ◌||◌, Option, none, some, List, [], ◌∷◌, arith, if_cases, All,
  Bytes,
}
use airdcpp_core.Text.StringSearch.{Pattern, match_lower, is_some}
use airdcpp_core.Text.StringSearch.Class.{occurring}
use airdcpp_core.Search.Query.Types.{Points, Recursion, is_npos}
use airdcpp_core.Search.Query.Recursion.{
  to_points, merge_rest, merge_lists, is_missing, merge, nested, increase,
}
use airdcpp_core.Search.Query.Matching.{upper}
use airdcpp_core.Search.Query.Places.{ShowsPlaces}

-- The points have a place exactly for the patterns that the test holds for.
unfoldable pub Shows : (Pattern → Bool) → List Pattern → List Points → Type 0
unfolding is_npos
Shows f [] [] = Unit
Shows f [] (t ∷ ts) = ⊥
Shows f (p ∷ ps) [] = ⊥
Shows f (p ∷ ps) (t ∷ ts) = (not (is_npos t.0) ≡ f p) × Shows f ps ts

abbrev pub stands_in : Bytes → Pattern → Bool
stands_in text p = is_some (match_lower p text 0)

pub Shows-to_points :
    (name text : Bytes) (ps : List Pattern) (os : List (Option ℕ))
    → ShowsPlaces text ps os
    → Shows (stands_in text) ps (to_points name ps os)
unfolding Shows ShowsPlaces to_points is_some is_npos
Shows-to_points name text [] [] h = tt
Shows-to_points name text [] (o ∷ os) h = absurd h
Shows-to_points name text (p ∷ ps) [] h = absurd h
Shows-to_points name text (p ∷ ps) (none ∷ os) h = (h.0, Shows-to_points name text ps os h.1)
Shows-to_points name text (p ∷ ps) (some i ∷ os) h = (h.0, Shows-to_points name text ps os h.1)

abbrev pub either : (Pattern → Bool) → (Pattern → Bool) → Pattern → Bool
either f g p = f p || g p

Shows-merge_rest :
    (f g : Pattern → Bool) (d : ℕ) (ps : List Pattern) (new old : List Points)
    → Shows f ps new
    → Shows g ps old
    → Shows (either f g) ps (merge_rest d new old)
unfolding Shows merge_rest is_npos
Shows-merge_rest f g d [] [] [] h k = tt
Shows-merge_rest f g d [] [] (o ∷ old) h k = absurd k
Shows-merge_rest f g d [] (n ∷ new) old h k = absurd h
Shows-merge_rest f g d (p ∷ ps) [] old h k = absurd h
Shows-merge_rest f g d (p ∷ ps) (n ∷ new) [] h k = absurd k
Shows-merge_rest f g d (p ∷ ps) ((none, n) ∷ new) (o ∷ old) h k =
    (ground (arith, h.0, k.0), Shows-merge_rest f g d ps new old h.1 k.1)
Shows-merge_rest f g d (p ∷ ps) ((some i, n) ∷ new) (o ∷ old) h k =
    (ground (arith, h.0), Shows-merge_rest f g d ps new old h.1 k.1)

Shows-merge_lists :
    (f g : Pattern → Bool) (d : ℕ) (ps : List Pattern) (new old : List Points)
    → Shows f ps new
    → Shows g ps old
    → Shows (either f g) ps (merge_lists d new old).0
unfolding merge_lists Shows is_npos
Shows-merge_lists f g d [] [] old h k = tt
Shows-merge_lists f g d [] (n ∷ new) old h k = absurd h
Shows-merge_lists f g d (p ∷ ps) [] old h k = absurd h
Shows-merge_lists f g d (p ∷ ps) (n ∷ new) [] h k = absurd k
Shows-merge_lists f g d (p ∷ ps) (n ∷ new) (o ∷ old) h k =
    if_cases {A = List Points × Bool} (λ x. Shows (either f g) (p ∷ ps) x.0) (is_missing n o) _ _
      (λ e. Shows-merge_rest f g d (p ∷ ps) (n ∷ new) (o ∷ old) h k)
      (λ e. (
        present (is_npos n.0) (is_npos o.0) (f p) (g p) e h.0 k.0,
        Shows-merge_lists f g d ps new old h.1 k.1,
      ))
  where
    present : (a b c d : Bool) → (a && not b) ≡ false → not a ≡ c → not b ≡ d → not a ≡ (c || d)
    present a b c d e h k = ground arith

-- What the recursion of a query knows: nothing, or a place for the patterns that the test holds for.
unfoldable pub AboveShows : (Pattern → Bool) → List Pattern → Option Recursion → Type 0
AboveShows g ps none = All (λ p. g p ≡ false) ps
AboveShows g ps (some r) = Shows g ps r.points

Shows-either :
    (f g : Pattern → Bool) (ps : List Pattern) (ts : List Points)
    → All (λ p. g p ≡ false) ps
    → Shows f ps ts
    → Shows (either f g) ps ts
unfolding Shows
Shows-either f g [] [] h k = tt
Shows-either f g [] (t ∷ ts) h k = absurd k
Shows-either f g (p ∷ ps) [] h k = absurd k
Shows-either f g (p ∷ ps) (t ∷ ts) h k = (ground (arith, h.0, k.0), Shows-either f g ps ts h.1 k.1)

Shows-either_left :
    (f g : Pattern → Bool) (ps : List Pattern) (ts : List Points)
    → All (λ p. f p ≡ false) ps
    → Shows g ps ts
    → Shows (either f g) ps ts
unfolding Shows
Shows-either_left f g [] [] h k = tt
Shows-either_left f g [] (t ∷ ts) h k = absurd k
Shows-either_left f g (p ∷ ps) [] h k = absurd k
Shows-either_left f g (p ∷ ps) (t ∷ ts) h k =
    (ground (arith, h.0, k.0), Shows-either_left f g ps ts h.1 k.1)

All-neither :
    (f g : Pattern → Bool) (ps : List Pattern)
    → All (λ p. f p ≡ false) ps
    → All (λ p. g p ≡ false) ps
    → All (λ p. either f g p ≡ false) ps
All-neither f g [] h k = tt
All-neither f g (p ∷ ps) h k = (ground (arith, h.0, k.0), All-neither f g ps h.1 k.1)

pub AboveShows-nested :
    (f g : Pattern → Bool) (ps : List Pattern) (own : List Points) (o : Option Recursion)
    → Shows f ps own
    → AboveShows g ps o
    → Shows (either f g) ps (nested own o).points
unfolding nested merge AboveShows
AboveShows-nested f g ps own none h k = Shows-either f g ps own k h
AboveShows-nested f g ps own (some r) h k = Shows-merge_lists f g r.depth_len ps own r.points h k

pub AboveShows-same :
    (f g : Pattern → Bool) (ps : List Pattern) (o : Option Recursion)
    → All (λ p. f p ≡ false) ps
    → AboveShows g ps o
    → AboveShows (either f g) ps o
unfolding AboveShows
AboveShows-same f g ps none h k = All-neither f g ps h k
AboveShows-same f g ps (some r) h k = Shows-either_left f g ps r.points h k

pub AboveShows-upper :
    (n : ℕ) (g : Pattern → Bool) (ps : List Pattern) (o : Option Recursion)
    → AboveShows g ps o
    → AboveShows g ps (upper n o)
unfolding AboveShows upper increase
AboveShows-upper n g ps none h = h
AboveShows-upper n g ps (some r) h = h

pub none_stands :
    (text : Bytes) (ps : List Pattern)
    → occurring ps text ≡ 0
    → All (λ p. stands_in text p ≡ false) ps
unfolding is_some
none_stands text [] h = tt
none_stands text (p ∷ ps) h = (ground arith, none_stands text ps (ground arith))
