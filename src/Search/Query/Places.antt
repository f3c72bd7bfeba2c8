-- ===== src/Search/Query/Places.antt =====
-- The places that the matching of a query fills.
use airdcpp_core.Base.{
  ℕ, zero, suc, ◌+◌, ◌≤◌, ◌≡◌, refl, sym, ap, ap₂, subst, ◌∙◌, inl, inr, Bool, true, false, Option,
  none, some, List, [], ◌∷◌, ◌++◌, append_assoc, arith, ltb, ◌==◌, if◌then◌else◌, Bool-cases,
  Option-cases, length, drop, replicate, length-append, length-replicate, if_cases, Bytes,
}
use airdcpp_core.Text.StringSearch.{
  Pattern, match_lower, is_some, match_all_lower, place, place_all, Placement, match_lower_all,
}
use airdcpp_core.Text.StringSearch.Class.{
  occurring, match_lower_all-match_all_lower, not_found, found,
}
use airdcpp_core.Search.Query.Types.{SearchQuery}
use airdcpp_core.Search.Query.Matching.{reset_positions, locate}

unfoldable pub count_some : List (Option ℕ) → ℕ
unfolding is_some
count_some [] = 0
count_some (o ∷ os) = let rest = count_some os in if is_some o then suc rest else rest

-- There is a place for each pattern, and the number of matches is the number of places filled.
pub record IsCounted (q : SearchQuery) : Type 0 where
  pub one_each : length q.last_positions ≡ length q.include
  pub counted : count_some q.last_positions ≡ q.last_matches

-- Where the patterns stand.
unfoldable pub ShowsPlaces : Bytes → List Pattern → List (Option ℕ) → Type 0
ShowsPlaces text [] [] = Unit
ShowsPlaces text [] (o ∷ os) = ⊥
ShowsPlaces text (p ∷ ps) [] = ⊥
ShowsPlaces text (p ∷ ps) (o ∷ os) =
    (is_some o ≡ is_some (match_lower p text 0)) × ShowsPlaces text ps os

zero_count : (os : List (Option ℕ)) → count_some os ≡ 0 → os ≡ replicate (length os) none
unfolding count_some is_some
zero_count [] h = refl
zero_count (none ∷ os) h = ap (λ l. none ∷ l) (zero_count os h)
zero_count (some i ∷ os) h = absurd (ground arith)

-- A query without places filled.
abbrev pub cleared : SearchQuery → SearchQuery
cleared q = record q { last_positions = replicate (length q.include) none; last_matches = 0 }

reset_positions-cleared : (q : SearchQuery) → IsCounted q → reset_positions q ≡ cleared q
unfolding reset_positions
reset_positions-cleared q h =
    if_cases {A = SearchQuery} (λ r. r ≡ cleared q) (ltb 0 q.last_matches) _ q
      (λ e. ap (λ n. record q { last_positions = replicate n none; last_matches = 0 }) h.one_each)
      (λ e.
        ap₂ (λ o n. record q { last_positions = o; last_matches = n })
          (zero_count q.last_positions (h.counted ∙ none_left q.last_matches e)
            ∙ ap (λ n. replicate n none) h.one_each)
          (none_left q.last_matches e))
  where
    none_left : (n : ℕ) → ltb 0 n ≡ false → n ≡ 0
    none_left n e = ground arith

replicate_plus : (m n : ℕ) (o : Option ℕ) → replicate m o ++ replicate n o ≡ replicate (m + n) o
replicate_plus zero n o = ap (λ k. replicate k o) (same n)
  where
    same : (n : ℕ) → n ≡ zero + n
    same n = omega arith
replicate_plus (suc m) n o =
    ap (λ l. o ∷ l) (replicate_plus m n o) ∙ ap (λ k. replicate k o) (next m n)
  where
    next : (m n : ℕ) → suc (m + n) ≡ suc m + n
    next m n = omega arith

-- The places that a search leaves, behind those that are done.
record IsPlaced (text : Bytes) (ps : List Pattern) (done : List (Option ℕ)) (m : Placement)
    : Type 0 where
  places_of : List (Option ℕ)
  behind : m.places ≡ done ++ places_of
  shows : ShowsPlaces text ps places_of
  number : count_some places_of ≡ occurring ps text

place_all-IsPlaced :
    (text : Bytes) (ps : List Pattern) (before : Option ℕ) (n : ℕ) (done : List (Option ℕ))
    → IsPlaced text ps done (place_all true text ps before n done (replicate (length ps) none))
unfolding place_all ShowsPlaces count_some is_some
place_all-IsPlaced text [] before n done = record {
  places_of = [];
  behind = refl;
  shows = tt;
  number = refl;
}
place_all-IsPlaced text (p ∷ ps) before n done = elim (Option-cases (place p text before)) [
  | inl e ↦
      rw (place_all, e)
        (let r = place_all-IsPlaced text ps none n (done ++ (none ∷ [])) in
          record {
            places_of = none ∷ r.places_of;
            behind = r.behind ∙ append_assoc done (none ∷ []) r.places_of;
            shows = (sym (not_found p text before e), r.shows);
            number = rw (not_found p text before e) r.number;
          })
  | inr (at, e) ↦
      rw (place_all, e)
        (let r = place_all-IsPlaced text ps (some at) (n + 1) (done ++ (some at ∷ [])) in
          record {
            places_of = some at ∷ r.places_of;
            behind = r.behind ∙ append_assoc done (some at ∷ []) r.places_of;
            shows = (sym (found p text before at e), r.shows);
            number = rw (found p text before at e) (omega (arith, r.number));
          })
]

-- A search that stops leaves no place.
place_all_stop_none :
    (text : Bytes) (ps : List Pattern) (before : Option ℕ) (n : ℕ) (done : List (Option ℕ))
    → match_all_lower ps text ≡ false
    → (place_all false text ps before n done (replicate (length ps) none)).places
      ≡ replicate (length done + length ps) none
unfolding place_all match_all_lower
place_all_stop_none text [] before n done h = ground arith
place_all_stop_none text (p ∷ ps) before n done h = elim (Option-cases (place p text before)) [
  | inl e ↦ rw (place_all, e) (replicate_plus (length done) (suc (length ps)) none)
  | inr (at, e) ↦
      rw (place_all, e)
        (place_all_stop_none text ps (some at) (n + 1) (done ++ (some at ∷ []))
            (rw (found p text before at e) at h)
          ∙ ap (λ k. replicate k none) (rw (length-append done (some at ∷ [])) (omega arith)))
]

pub record IsLocated (q : SearchQuery) (text : Bytes) (r : SearchQuery) : Type 0 where
  pub places_counted : IsCounted r
  pub number_found : r.last_matches ≡ occurring q.include text
  pub places_shown : ShowsPlaces text q.include r.last_positions

ShowsPlaces-length :
    (text : Bytes) (ps : List Pattern) (os : List (Option ℕ))
    → ShowsPlaces text ps os
    → length os ≡ length ps
unfolding ShowsPlaces
ShowsPlaces-length text [] [] h = refl
ShowsPlaces-length text [] (o ∷ os) h = absurd h
ShowsPlaces-length text (p ∷ ps) [] h = absurd h
ShowsPlaces-length text (p ∷ ps) (o ∷ os) h = ap (λ n. suc n) (ShowsPlaces-length text ps os h.1)

pub locate-cleared :
    (b : Bool) (text : Bytes) (q : SearchQuery)
    → IsCounted q
    → locate b text q ≡ record (cleared q) {
      last_positions =
          (match_lower_all b q.include text (replicate (length q.include) none)).places;
      last_matches = (match_lower_all b q.include text (replicate (length q.include) none)).matches;
    }
unfolding locate
locate-cleared b text q h = rw (locate, reset_positions-cleared q h) refl

pub locate-IsLocated :
    (text : Bytes) (q : SearchQuery) → IsCounted q → IsLocated q text (locate true text q)
unfolding locate match_lower_all
locate-IsLocated text q h =
    let r = place_all-IsPlaced text q.include none 0 [] in
    let shown = subst (λ os. ShowsPlaces text q.include os) (sym r.behind) r.shows in
    let n =
      (match_lower_all-match_all_lower q.include text (replicate (length q.include) none)).0 in
    rw (locate, reset_positions-cleared q h)
      (record {
        places_counted = record {
          one_each = ShowsPlaces-length text q.include _ shown;
          counted = ap (λ os. count_some os) r.behind ∙ r.number ∙ sym n;
        };
        number_found = n;
        places_shown = shown;
      })

-- A search that stops decides as match_all does.
pub record IsDecided (q : SearchQuery) (text : Bytes) (r : SearchQuery) : Type 0 where
  pub stays_counted : IsCounted r
  pub all_found : (r.last_matches == length q.include) ≡ match_all_lower q.include text

place_all_same :
    (text : Bytes) (ps : List Pattern) (before : Option ℕ) (n : ℕ) (done old : List (Option ℕ))
    → match_all_lower ps text ≡ true
    → place_all false text ps before n done old ≡ place_all true text ps before n done old
unfolding place_all match_all_lower
place_all_same text [] before n done old h = refl
place_all_same text (p ∷ ps) before n done old h = elim (Option-cases (place p text before)) [
  | inl e ↦ absurd (off (rw (not_found p text before e) at h))
  | inr (at, e) ↦
      rw (place_all, e)
        (place_all_same text ps (some at) (n + 1) (done ++ (some at ∷ [])) (drop 1 old)
          (rw (found p text before at e) at h))
]
  where
    off : ¬ (false ≡ true)
    off e = cc

pub occurring-match_all_lower :
    (text : Bytes) (ps : List Pattern) → (occurring ps text == length ps) ≡ match_all_lower ps text
unfolding match_all_lower
occurring-match_all_lower text [] = refl
occurring-match_all_lower text (p ∷ ps) =
    one_more (is_some (match_lower p text 0)) _ _ _ (occurring_le ps)
      (occurring-match_all_lower text ps)
  where
    occurring_le : (ps : List Pattern) → occurring ps text ≤ length ps
    occurring_le [] = omega arith
    occurring_le (p ∷ ps) = ground (arith, occurring_le ps)

    one_more :
        (b : Bool) (m n : ℕ) (c : Bool)
        → m ≤ n
        → (m == n) ≡ c
        → ((if b then suc m else m) == suc n) ≡ (if b then c else false)
    one_more b m n c l h = ground arith

pub count_some-replicate : (n : ℕ) → count_some (replicate n none) ≡ 0
unfolding count_some is_some
count_some-replicate zero = refl
count_some-replicate (suc n) = count_some-replicate n

some_pattern :
    (text : Bytes) (ps : List Pattern)
    → match_all_lower ps text ≡ false
    → (0 == length ps) ≡ match_all_lower ps text
unfolding match_all_lower
some_pattern text [] e = absurd (ground arith)
some_pattern text (p ∷ ps) e = no_pattern (length ps) ∙ sym e
  where
    no_pattern : (n : ℕ) → (0 == suc n) ≡ false
    no_pattern n = ground arith

pub locate-IsDecided :
    (text : Bytes) (q : SearchQuery) → IsCounted q → IsDecided q text (locate false text q)
unfolding locate match_lower_all
locate-IsDecided text q h = elim (Bool-cases (match_all_lower q.include text)) [
  | inl e ↦
      let r = locate-IsLocated text q h in
      let same =
        ap (λ m. record (cleared q) { last_positions = m.places; last_matches = m.matches })
          (place_all_same text q.include none 0 [] (replicate (length q.include) none) e) in
      subst (λ x. IsDecided q text x)
        (sym (locate-cleared false text q h ∙ same ∙ sym (locate-cleared true text q h)))
        (record {
          stays_counted = r.places_counted;
          all_found =
              ap (λ n. n == length q.include) r.number_found
              ∙ occurring-match_all_lower text q.include;
        })
  | inr e ↦
      let none_placed =
        place_all_stop_none text q.include none 0 [] e
        ∙ ap (λ n. replicate n none) (from_zero (length q.include)) in
      let none_found =
        (match_lower_all-match_all_lower q.include text (replicate (length q.include) none)).1
        ∙ ap (λ b. if b then length q.include else 0) e in
      subst (λ x. IsDecided q text x)
        (sym (
          locate-cleared false text q h
          ∙ ap₂ (λ o n. record (cleared q) { last_positions = o; last_matches = n }) none_placed
              none_found))
        (record {
          stays_counted = record {
            one_each = length-replicate (length q.include) none;
            counted = count_some-replicate (length q.include);
          };
          all_found = some_pattern text q.include e;
        })
]
  where
    from_zero : (n : ℕ) → 0 + n ≡ n
    from_zero n = omega arith
