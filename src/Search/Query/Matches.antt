-- ===== src/Search/Query/Matches.antt =====
-- What the matching of a query decides.
use airdcpp_core.Base.{
  ℕ, ◌<◌, ◌≡◌, refl, sym, ap, ap₂, subst, ◌∙◌, ◌⊎◌, inl, inr, Bool, true, false, not, ◌&&◌, ◌||◌,
  Option, some, List, [], ◌∷◌, arith, ltb, ◌==◌, if◌then◌else◌, Bool-cases, length, any, if_both,
  Bytes,
}
use airdcpp_core.Text.StringSearch.{Pattern, match_any_lower}
use airdcpp_core.Text.StringSearch.Class.{occurring}
use airdcpp_core.Search.Query.Types.{
  SearchQuery, matches_size, matches_date, name_exact, path_partial, type_file,
}
use airdcpp_core.Search.Query.Extensions.{has_ext, same_bytes, ends_with}
use airdcpp_core.Search.Query.Ruled.{Ascending, is_in, any-set_difference}
use airdcpp_core.Search.Query.Matching.{
  positions_complete, locate, has_recursion, first_pattern, other_name, matches_words,
  matches_any_directory_lower, is_excluded_lower, matches_file_lower,
}
use airdcpp_core.Search.Query.Covered.{covered, all_covered, IsAbove, locate-IsMatched}
use airdcpp_core.Search.Query.Places.{IsCounted, locate-IsLocated, locate-cleared}

-- The name ends with an extension that is asked for and not ruled out.
unfoldable pub type_allowed : Bytes → (ext no_ext : List Bytes) → Bool
type_allowed name ext no_ext =
    (length ext == 0) || any (λ e. ends_with name e && not (is_in e no_ext)) ext

-- An exact name is the first pattern.
abbrev pub is_exact_name : Bytes → List Pattern → Bool
is_exact_name name [] = false
is_exact_name name (p ∷ ps) = same_bytes p.pattern name

-- What matchesFileLower is to decide: the limits, the exact name, that each pattern stands in the name
-- or has a place in the directories above, the extension and the excluded words.
unfoldable pub is_file_match : (name : Bytes) → (size date : ℕ) → SearchQuery → Bool
unfolding covered type_allowed
is_file_match name size date q =
    matches_date date q
    && (matches_size size q
        && ((not (q.match_type == name_exact) || is_exact_name name q.include)
            && (all_covered q.recursion q.include name
                && (type_allowed name q.ext q.no_ext && not (match_any_lower q.exclude name)))))

-- The extensions can be taken from each other: none is ruled out, or both lists are in order.
unfoldable pub InOrder : SearchQuery → Type 0
InOrder q = (q.no_ext ≡ []) ⊎ (Ascending q.ext × Ascending q.no_ext)

any_none :
    (name : Bytes) (xs : List Bytes)
    → any (λ e. ends_with name e) xs ≡ any (λ e. ends_with name e && true) xs
any_none name [] = refl
any_none name (x ∷ xs) = ground (arith, any_none name xs)

has_ext-type_allowed :
    (name : Bytes) (q : SearchQuery)
    → InOrder q
    → (has_ext name q).0 ≡ type_allowed name q.ext q.no_ext
unfolding has_ext type_allowed InOrder
has_ext-type_allowed name q o = elim (Bool-cases (length q.ext == 0)) [
  | inl e ↦ rw (has_ext, type_allowed, e) refl
  | inr e ↦ elim (Bool-cases (length q.no_ext == 0)) [
    | inl g ↦
        rw (has_ext, type_allowed, e, g)
          (any_none name q.ext
            ∙ ap (λ l. any (λ x. ends_with name x && not (is_in x l)) q.ext)
                (sym (no_length q.no_ext g)))
    | inr g ↦
        rw (has_ext, type_allowed, e, g)
          (elim o [
            | inl n ↦ absurd (filled q.no_ext n g)
            | inr (a, b) ↦ any-set_difference (λ x. ends_with name x) q.ext q.no_ext a b
          ])
  ]
]
  where
    no_length : (l : List Bytes) → (length l == 0) ≡ true → l ≡ []
    no_length [] h = refl
    no_length (x ∷ xs) h = absurd (ground arith)

    filled : (l : List Bytes) → l ≡ [] → ¬ ((length l == 0) ≡ false)
    filled [] e h = ground arith
    filled (x ∷ xs) e h = cc

record Keeps (q r : SearchQuery) : Type 0 where
  keeps_count : IsCounted q → IsCounted r
  keeps_exclude : r.exclude ≡ q.exclude

has_ext-Keeps : (name : Bytes) (q : SearchQuery) → Keeps q (has_ext name q).1
unfolding has_ext
has_ext-Keeps name q =
    if_both {A = Bool × SearchQuery} (λ x. Keeps q x.1) (length q.ext == 0) (true, q) _
      (record { keeps_count = λ h. h; keeps_exclude = refl })
      (if_both {A = SearchQuery} (Keeps q) (length q.no_ext == 0) q _
        (record { keeps_count = λ h. h; keeps_exclude = refl })
        (record {
          keeps_count = λ h. record { one_each = h.one_each; counted = h.counted };
          keeps_exclude = refl;
        }))

-- The tests behind the one of an exact name.
matches_words-decided :
    (name : Bytes) (q : SearchQuery)
    → IsCounted q
    → IsAbove q
    → InOrder q
    → ((matches_words name q).0 ≡ (
        all_covered q.recursion q.include name
        && (type_allowed name q.ext q.no_ext && not (match_any_lower q.exclude name))))
      × IsCounted (matches_words name q).1
unfolding matches_words is_excluded_lower InOrder
matches_words-decided name q h a o =
    let m = locate-IsMatched name q h a in
    let f = locate (has_recursion q.recursion) name q in
    let c = locate-cleared (has_recursion q.recursion) name q h in
    let k = has_ext-Keeps name f in
    let typed =
      has_ext-type_allowed name f (subst InOrder (sym c) o)
      ∙ ap (λ r. type_allowed name r.ext r.no_ext) c in
    let words = ap (λ l. match_any_lower l name) (k.keeps_exclude ∙ ap (λ r. r.exclude) c) in
    chosen (positions_complete f) (has_ext name f).0
      (match_any_lower (has_ext name f).1.exclude name) _ _ _ f (has_ext name f).1 m.complete typed
      words m.still_counted (k.keeps_count m.still_counted)
  where
    chosen :
        (p t v p' t' v' : Bool) (f k : SearchQuery)
        → p ≡ p'
        → t ≡ t'
        → v ≡ v'
        → IsCounted f
        → IsCounted k
        → ((if◌then◌else◌ {A = Bool × SearchQuery}
              (not p)
              (false, f)
              (if not t then (false, k) else if v then (false, k) else (true, k))).0
            ≡ (p' && (t' && not v')))
          × IsCounted
              (if◌then◌else◌ {A = Bool × SearchQuery}
                (not p)
                (false, f)
                (if not t then (false, k) else if v then (false, k) else (true, k))).1
    chosen false t v p' t' v' f k a b c x y = (ap (λ z. z && (t' && not v')) a, x)
    chosen true false v p' t' v' f k a b c x y = (ap₂ (λ z w. z && (w && not v')) a b, y)
    chosen true true false p' t' v' f k a b c x y = (ground arith, y)
    chosen true true true p' t' v' f k a b c x y = (ground arith, y)

-- A query for an exact name has a pattern.
unfoldable pub HasName : SearchQuery → Type 0
HasName q = (q.match_type == name_exact) ≡ true → 0 < length q.include

first : (l : List Pattern) → 0 < length l → (p : Pattern) × (ps : List Pattern) × (l ≡ p ∷ ps)
first [] h = absurd (omega arith)
first (p ∷ ps) h = (p, ps, refl)

other_name-is_exact_name :
    (name : Bytes) (q : SearchQuery)
    → HasName q
    → other_name name q
      ≡ some (not (not (q.match_type == name_exact) || is_exact_name name q.include))
unfolding other_name first_pattern HasName
other_name-is_exact_name name q h = elim (Bool-cases (q.match_type == name_exact)) [
  | inr e ↦ rw (other_name, e) refl
  | inl e ↦ let (p, ps, f) = first q.include (h e) in rw (other_name, e, f) refl
]

-- For a query whose places are counted, whose directories above have one place for each pattern,
-- that has a pattern if it is for an exact name, and that rules no extension out or has its
-- extensions and the ruled out ones in ascending order, matchesFileLower has a result and accepts a
-- name exactly if the date and the size are within the limits, an exact name is the first pattern,
-- each pattern is found in the name or has a place above, the name ends with an extension that is
-- asked for and not ruled out, or none is asked for, and no excluded word is found; the places stay
-- counted.
pub matches_file_lower-is_file_match :
    (name : Bytes) (size date : ℕ) (q : SearchQuery)
    → IsCounted q
    → IsAbove q
    → HasName q
    → InOrder q
    → (r : Bool × SearchQuery) × (matches_file_lower name size date q ≡ some r)
      × (r.0 ≡ is_file_match name size date q)
      × IsCounted r.1
unfolding matches_file_lower is_file_match
matches_file_lower-is_file_match name size date q h a n o =
    let (decided, counted) = matches_words-decided name q h a o in
    rw (other_name-is_exact_name name q n) (
      chosen (matches_date date q) (matches_size size q) _ _ (matches_words name q) decided h
        counted)
  where
    chosen :
        (d z x w : Bool) (r : Bool × SearchQuery)
        → r.0 ≡ w
        → IsCounted q
        → IsCounted r.1
        → (o : Bool × SearchQuery) × ((if◌then◌else◌ {A = Option (Bool × SearchQuery)}
              (not d || not z)
              (some (false, q))
              (some (if not x then (false, q) else r)))
            ≡ some o)
          × (o.0 ≡ (d && (z && (x && w))))
          × IsCounted o.1
    chosen false z x w r e h k = ((false, q), refl, refl, h)
    chosen true false x w r e h k = ((false, q), refl, refl, h)
    chosen true true false w r e h k = ((false, q), refl, refl, h)
    chosen true true true w r e h k = (r, refl, e, k)

-- For a query whose places are counted, matchesAnyDirectoryLower accepts a name exactly if a
-- pattern is found in it and the query does not ask for files by their names only; the places stay
-- counted.
pub matches_any_directory_lower-occurring :
    (name : Bytes) (q : SearchQuery)
    → IsCounted q
    → ((matches_any_directory_lower name q).0 ≡ (
        not (not (q.match_type == path_partial) && (q.item_type == type_file))
        && ltb 0 (occurring q.include name)))
      × IsCounted (matches_any_directory_lower name q).1
unfolding matches_any_directory_lower
matches_any_directory_lower-occurring name q h =
    let l = locate-IsLocated name q h in
    chosen (not (q.match_type == path_partial) && (q.item_type == type_file)) _ _ q
      (locate true name q) (ap (λ n. ltb 0 n) l.number_found) h l.places_counted
  where
    chosen :
        (x m n : Bool) (q r : SearchQuery)
        → m ≡ n
        → IsCounted q
        → IsCounted r
        → ((if◌then◌else◌ {A = Bool × SearchQuery} x (false, q) (m, r)).0 ≡ (not x && n))
          × IsCounted (if◌then◌else◌ {A = Bool × SearchQuery} x (false, q) (m, r)).1
    chosen true m n q r e h k = (refl, h)
    chosen false m n q r e h k = (e, k)
