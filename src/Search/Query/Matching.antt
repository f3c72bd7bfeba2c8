-- ===== src/Search/Query/Matching.antt =====
-- The matching of search/SearchQuery.cpp.
use airdcpp_core.Base.{
  ℕ, Bool, true, false, not, ◌&&◌, ◌||◌, Option, none, some, List, [], ◌∷◌, ltb, ◌==◌,
  if◌then◌else◌, length, replicate, Bytes,
}
use airdcpp_core.Text.Utf8.{to_lower}
use airdcpp_core.Text.StringSearch.{Pattern, match_all, match_any_lower, match_lower_all}
use airdcpp_core.Search.Query.Types.{
  Recursion, SearchQuery, type_file, type_directory, path_partial, name_exact, matches_size,
  matches_date,
}
use airdcpp_core.Search.Query.Recursion.{new_recursion, increase, completes}
use airdcpp_core.Search.Query.Extensions.{same_bytes, has_ext}

unfoldable pub positions_complete : SearchQuery → Bool
unfolding completes
positions_complete q =
    if q.last_matches == length q.include
    then true
    else elim q.recursion [ none ↦ false | some r ↦ completes r.points q.last_positions ]

unfoldable pub reset_positions : SearchQuery → SearchQuery
reset_positions q =
    if ltb 0 q.last_matches
    then record q { last_positions = replicate (length q.last_positions) none; last_matches = 0 }
    else q

-- A search for the patterns that keeps its positions.
unfoldable pub locate : (resume : Bool) → Bytes → SearchQuery → SearchQuery
unfolding reset_positions
locate resume name q =
    let r = reset_positions q in
    let m = match_lower_all resume r.include name r.last_positions in
    record r { last_positions = m.places; last_matches = m.matches }

-- The front of the patterns; none where there is no pattern, where the source's front() is undefined.
unfoldable pub first_pattern : List Pattern → Option Bytes
first_pattern [] = none
first_pattern (p ∷ ps) = some p.pattern

-- Whether an exact name is asked for and is another one.
unfoldable pub other_name : Bytes → SearchQuery → Option Bool
unfolding first_pattern same_bytes
other_name name q =
    if q.match_type == name_exact
    then elim (first_pattern q.include) [ none ↦ none | some p ↦ some (not (same_bytes p name)) ]
    else some false

abbrev pub has_recursion : Option Recursion → Bool
has_recursion none = false
has_recursion (some r) = true

unfoldable pub is_excluded_lower : Bytes → SearchQuery → Bool
is_excluded_lower name q = match_any_lower q.exclude name

-- matchesFileLower behind the test of an exact name.
unfoldable pub matches_words : (name : Bytes) → SearchQuery → Bool × SearchQuery
unfolding has_ext locate positions_complete is_excluded_lower
matches_words name q =
    let found = locate (has_recursion q.recursion) name q in
    let (typed, kept) = has_ext name found in
    if not (positions_complete found)
    then (false, found)
    else if not typed
    then (false, kept)
    else if is_excluded_lower name kept
    then (false, kept)
    else (true, kept)

-- None where the source's result is undefined.
unfoldable pub matches_file_lower :
    (name : Bytes) → (size date : ℕ) → SearchQuery → Option (Bool × SearchQuery)
unfolding other_name matches_words matches_size matches_date
matches_file_lower name size date q =
    if not (matches_date date q) || not (matches_size size q)
    then some (false, q)
    else elim (other_name name q) [
      | none ↦ none
      | some x ↦ some (if x then (false, q) else matches_words name q)
    ]

unfoldable pub matches_any_directory_lower : (name : Bytes) → SearchQuery → Bool × SearchQuery
unfolding locate
matches_any_directory_lower name q =
    let found = locate true name q in
    if not (q.match_type == path_partial) && (q.item_type == type_file)
    then (false, q)
    else (ltb 0 found.last_matches, found)

unfoldable pub upper : ℕ → Option Recursion → Option Recursion
unfolding increase
upper n none = none
upper n (some r) = some (increase n r)

module _ (towlower : ℕ → ℕ) where
  unfoldable pub matches_str : Bytes → SearchQuery → Option (Bool × SearchQuery)
  unfolding matches_file_lower
  matches_str s q = matches_file_lower (to_lower towlower s) 0 0 q

  unfoldable pub matches_file :
      (name : Bytes) → (size date tth : ℕ) → SearchQuery → Option (Bool × SearchQuery)
  unfolding matches_file_lower
  matches_file name size date tth q =
      let by_name = matches_file_lower (to_lower towlower name) size date q in
      if q.item_type == type_directory
      then some (false, q)
      else elim q.tth_root [ some r ↦ some (tth == r, q) | none ↦ by_name ]

  unfoldable pub matches_directory : Bytes → SearchQuery → Bool
  matches_directory name q =
      if q.item_type == type_file then false else match_all towlower q.include name

  -- A part of a path that is not the last: what matches is kept for the parts below it.
  unfoldable pub path_level : Bytes → SearchQuery → SearchQuery
  unfolding locate new_recursion upper
  path_level s q =
      let found = locate true (to_lower towlower s) q in
      let above =
        if ltb 0 found.last_matches then some (new_recursion found s) else found.recursion in
      record found { recursion = upper (length s) above }

  unfoldable pub path_loop : Bytes → List Bytes → SearchQuery → SearchQuery
  unfolding path_level locate
  path_loop s [] q = locate true (to_lower towlower s) q
  path_loop s (t ∷ sl) q = path_loop t sl (path_level s q)

  -- matchesAdcPath, over the parts of the path.
  unfoldable pub matches_adc_path : List Bytes → SearchQuery → Bool × SearchQuery
  unfolding path_loop positions_complete
  matches_adc_path [] q = (false, q)
  matches_adc_path (s ∷ sl) q = let r = path_loop s sl q in (positions_complete r, r)
