-- ===== src/Search/Query/Tests.antt =====
-- A query from an ADC search at small inputs.
use airdcpp_core.Base.{
  ◌≡◌, refl, sym, ◌∙◌, inl, Bool, true, false, not, ◌&&◌, Option, none, some, List, [], ◌∷◌, arith,
  ltb, ◌==◌, length, all, Bytes, codes,
}
use airdcpp_core.Text.Utf8.{to_lower, utf8_to_wc, wc_to_utf8}
use airdcpp_core.Text.StringSearch.{add_string, match_lower_all, match_any_lower}
use airdcpp_core.Search.Query.Types.{SearchQuery, Recursion, path_partial, type_file}
use airdcpp_core.Search.Query.Recursion.{merge}
use airdcpp_core.Search.Query.Matching.{
  matches_file_lower, matches_adc_path, matches_any_directory_lower,
}
use airdcpp_core.Text.StringSearch.Class.{occurring}
use airdcpp_core.Search.Query.Places.{IsCounted}
use airdcpp_core.Search.Query.Covered.{IsAbove}
use airdcpp_core.Search.Query.Matches.{
  is_file_match, HasName, InOrder, matches_file_lower-is_file_match,
  matches_any_directory_lower-occurring,
}
use airdcpp_core.Search.Query.Path.{stands_in_parts, matches_adc_path-stands_in_parts}
use airdcpp_core.Search.Query.Params.{Reader, of_adc, IsReady, of_adc-IsReady}

abbrev reader : Reader
reader = record {
  read_int = λ b. 0;
  read_int64 = λ b. length b;
  read_time = λ b. 0;
  tth_value = λ b. 0;
  towlower = λ c. c;
  search_exts = [];
}

-- The words "ab" and "c" and the extension ".d".
abbrev params : List Bytes
params = codes "ANab" ∷ codes "ANc" ∷ codes "EX.d" ∷ codes "X" ∷ []

of_adc-IsReady_example : IsReady (of_adc reader params 10)
unfolding of_adc
of_adc-IsReady_example = of_adc-IsReady reader params 10 refl

params-IsReady : IsReady (of_adc reader params 10)
unfolding of_adc
params-IsReady = of_adc-IsReady reader params 10 refl

params-IsAbove : IsAbove (of_adc reader params 10)
params-IsAbove r e = absurd (none_some r (sym params-IsReady.at_top ∙ e))
  where
    none_some : (r : Recursion) → ¬ (none ≡ some r)
    none_some r e = cc

matches_file_lower-is_file_match_example :
    (r : Bool × SearchQuery) × (matches_file_lower (codes "cab.d") 4 0 (of_adc reader params 10)
      ≡ some r)
    × (r.0 ≡ is_file_match (codes "cab.d") 4 0 (of_adc reader params 10))
    × IsCounted r.1
unfolding of_adc HasName InOrder add_string
matches_file_lower-is_file_match_example =
    matches_file_lower-is_file_match (codes "cab.d") 4 0 (of_adc reader params 10)
      params-IsReady.places_free params-IsAbove (λ e. omega arith) (inl refl)

-- Whether a file of the name is accepted, where that is defined.
abbrev accepts : Bytes → List Bytes → Option Bool
accepts name ps = elim (matches_file_lower name 4 0 (of_adc reader ps 10)) [
  | none ↦ none
  | some r ↦ some r.0
]

file_matches : accepts (codes "cab.d") params ≡ some true
unfolding matches_file_lower of_adc match_lower_all add_string to_lower utf8_to_wc wc_to_utf8
    match_any_lower
file_matches = refl

other_extension : accepts (codes "cab.e") params ≡ some false
unfolding matches_file_lower of_adc match_lower_all add_string to_lower utf8_to_wc wc_to_utf8
    match_any_lower
other_extension = refl

-- An exact name without a word to compare has no result.
no_name :
    matches_file_lower
      (codes "a")
      4
      0
      (of_adc (record reader { read_int = λ b. 2 }) (codes "MT2" ∷ []) 10)
    ≡ none
unfolding matches_file_lower of_adc
no_name = refl

matches_adc_path-stands_in_parts_example :
    (matches_adc_path
      (λ c. c)
      (codes "xab" ∷ codes "y" ∷ codes "c.d" ∷ [])
      (of_adc reader params 10)).0
    ≡ all
        (stands_in_parts (λ c. c) (codes "xab" ∷ codes "y" ∷ codes "c.d" ∷ []))
        (of_adc reader params 10).include
matches_adc_path-stands_in_parts_example =
    matches_adc_path-stands_in_parts (λ c. c) (codes "xab") (codes "y" ∷ codes "c.d" ∷ [])
      (of_adc reader params 10) params-IsReady.places_free params-IsReady.at_top

path_matches :
    (matches_adc_path
      (λ c. c)
      (codes "xab" ∷ codes "y" ∷ codes "c.d" ∷ [])
      (of_adc reader params 10)).0
    ≡ true
unfolding matches_adc_path of_adc match_lower_all add_string to_lower utf8_to_wc wc_to_utf8
path_matches = refl

-- The position in front of the first one that is missing stays in the lower name.
front_stays :
    (merge
      (record { depth_len = 5; recursion_level = 1; points = (none, 0) ∷ (some 0, 0) ∷ [] })
      ((some 3, 0) ∷ (none, 0) ∷ [])).0
    ≡ (some 3, 0) ∷ (some 0, 0) ∷ []
unfolding merge
front_stays = refl

matches_any_directory_lower-occurring_example :
    ((matches_any_directory_lower (codes "xab") (of_adc reader params 10)).0 ≡ (
      not (
        not ((of_adc reader params 10).match_type == path_partial)
        && ((of_adc reader params 10).item_type == type_file))
      && ltb 0 (occurring (of_adc reader params 10).include (codes "xab"))))
    × IsCounted (matches_any_directory_lower (codes "xab") (of_adc reader params 10)).1
matches_any_directory_lower-occurring_example =
    matches_any_directory_lower-occurring (codes "xab") (of_adc reader params 10)
      params-IsReady.places_free
