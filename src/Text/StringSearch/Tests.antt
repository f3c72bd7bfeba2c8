-- ===== src/Text/StringSearch/Tests.antt =====
-- Runs of the search, and the laws at concrete patterns.
use airdcpp_core.Base.{ℕ, ◌≡◌, refl, true, none, some, List, [], ◌∷◌, arith, Bytes, codes}
use airdcpp_core.Text.Utf8.{
  to_lower, lower_loop, utf8_to_wc, wc_to_utf8, encode, is_invalid_code_point,
}
use airdcpp_core.Text.Utf8.Texts.{IsLowering}
use airdcpp_core.Text.Utf8.RoundTrip.{is_invalid_code_point-valid_code_point}
use airdcpp_core.Text.StringSearch.{
  Pattern, new_pattern, starts_with, match_lower, match_loop, add_string, match_lower_all,
  init_delta1, fill_delta1, place_all, place, place_loop,
}
use airdcpp_core.Text.StringSearch.Shift.{IsPattern}
use airdcpp_core.Text.StringSearch.First.{first_from, match_lower-first_from}
use airdcpp_core.Text.StringSearch.Class.{new_pattern-IsPattern}

abbrev same_case : ℕ → ℕ
same_case c = c

abbrev needle : Bytes
needle = codes "ab"

abbrev haystack : Bytes
haystack = codes "aacab"

needle_lower : to_lower same_case needle ≡ needle
unfolding to_lower lower_loop utf8_to_wc wc_to_utf8 encode is_invalid_code_point
needle_lower = refl

needle-IsPattern : IsPattern (new_pattern same_case needle)
needle-IsPattern =
    new_pattern-IsPattern same_case needle needle_lower (omega arith) (omega arith) (ground arith)

match_lower-first_from_example : match_lower (new_pattern same_case needle) haystack 0 ≡ some 3
unfolding first_from starts_with new_pattern to_lower lower_loop utf8_to_wc wc_to_utf8 encode
    is_invalid_code_point
match_lower-first_from_example =
    match_lower-first_from (new_pattern same_case needle) haystack 0 needle-IsPattern

same_case-IsLowering : IsLowering same_case
unfolding IsLowering
same_case-IsLowering c = rw (is_invalid_code_point-valid_code_point c) refl

abbrev two_patterns : List Pattern
two_patterns = add_string same_case (codes "x") (add_string same_case needle [])

-- The places that a matching leaves.
both_positions :
    (match_lower_all true two_patterns haystack (none ∷ none ∷ [])).places ≡ some 3 ∷ none ∷ []
unfolding match_lower_all place_all place place_loop match_lower match_loop starts_with new_pattern
    add_string init_delta1 fill_delta1 to_lower lower_loop utf8_to_wc wc_to_utf8 encode
    is_invalid_code_point
both_positions = refl
