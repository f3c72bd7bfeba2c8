-- ===== src/Search/Query/Types.antt =====
-- The query of search/SearchQuery.h, its limits and the points of its patterns.
use airdcpp_core.Base.{
  ℕ, ◌+◌, ◌%◌, ◌^◌, Bool, true, false, ◌&&◌, ◌||◌, Option, none, some, List, leb, ◌==◌, Bytes,
}
use airdcpp_core.Text.StringSearch.{Pattern}

-- A position and the points for what stands around it; `none` is npos.
abbrev pub Points : Type 0
Points = Option ℕ × ℕ

pub record Recursion : Type 0 where
  pub depth_len : ℕ
  pub recursion_level : ℕ
  pub points : List Points

-- Item and match types are the numbers of the enumerations. Sizes and dates are the bit patterns of
-- 64 bits, and a tree root is a number, since it is only compared.
pub record SearchQuery : Type 0 where
  pub include : List Pattern
  pub exclude : List Pattern
  pub ext : List Bytes
  pub no_ext : List Bytes
  pub recursion : Option Recursion
  pub gt : ℕ
  pub lt_size : ℕ
  pub min_date : ℕ
  pub max_date : ℕ
  pub tth_root : Option ℕ
  pub max_results : ℕ
  pub match_type : ℕ
  pub add_parents : Bool
  pub item_type : ℕ
  pub last_positions : List (Option ℕ)
  pub last_matches : ℕ

abbrev pub type_file : ℕ
type_file = 1

abbrev pub type_directory : ℕ
type_directory = 2

abbrev pub path_partial : ℕ
path_partial = 0

abbrev pub name_exact : ℕ
name_exact = 2

-- <= of int64_t.
unfoldable pub le64 : ℕ → ℕ → Bool
le64 a b = leb ((a + 2 ^ 63) % 2 ^ 64) ((b + 2 ^ 63) % 2 ^ 64)

unfoldable pub matches_size : ℕ → SearchQuery → Bool
unfolding le64
matches_size size q = le64 q.gt size && le64 size q.lt_size

unfoldable pub matches_date : ℕ → SearchQuery → Bool
unfolding le64
matches_date date q = (date == 0) || (le64 q.min_date date && le64 date q.max_date)

unfoldable pub is_npos : Option ℕ → Bool
is_npos none = true
is_npos (some i) = false
