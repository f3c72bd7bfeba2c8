-- ===== src/Search/Types.antt =====
-- `Search` of airdcpp/search/Search.h: what the queue reads of a search, and the size limits.
use airdcpp_core.Base.{ℕ, ◌≡◌, ◌==◌, if◌then◌else◌, Option, none, some, arith, ==_refl}
use airdcpp_core.Queue.Item.{Priority}

pub data SizeMode : Type 0 where
  size_dontcare size_atleast size_atmost size_exact : SizeMode

-- `token` stands for the object: pointers are compared by it. `owner` is null where it is `none`.
pub record Search : Type 0 where
  pub token : ℕ
  pub priority : Priority
  pub owner : Option ℕ
  pub min_size : Option ℕ
  pub max_size : Option ℕ

unfoldable pub set_legacy_size : ℕ → SizeMode → Search → Search
set_legacy_size size size_atleast s = record s { min_size = some size }
set_legacy_size size size_atmost s = record s { max_size = some size }
set_legacy_size size size_exact s = record s { max_size = some size; min_size = some size }
set_legacy_size size size_dontcare s = s

-- By the two limits.
abbrev pub legacy_of : Option ℕ → Option ℕ → ℕ × SizeMode
legacy_of (some low) (some high) = if low == high then (low, size_exact) else (low, size_atleast)
legacy_of (some low) none = (low, size_atleast)
legacy_of none (some high) = (high, size_atmost)
legacy_of none none = (0, size_dontcare)

unfoldable pub parse_legacy_size : Search → ℕ × SizeMode
parse_legacy_size s = legacy_of s.min_size s.max_size

abbrev pub legacy_size : ℕ → SizeMode → ℕ
legacy_size size size_dontcare = 0
legacy_size size _ = size

-- A size and a mode set on a search without limits are read back; with no mode the size is lost.
pub parse_legacy_size-set_legacy_size :
    (s : Search) (size : ℕ) (mode : SizeMode)
    → s.min_size ≡ none
    → s.max_size ≡ none
    → parse_legacy_size (set_legacy_size size mode s) ≡ (legacy_size size mode, mode)
unfolding parse_legacy_size set_legacy_size
parse_legacy_size-set_legacy_size s size size_dontcare a b = ground (arith, a, b)
parse_legacy_size-set_legacy_size s size size_atleast a b = ground (arith, a, b)
parse_legacy_size-set_legacy_size s size size_atmost a b = ground (arith, a, b)
parse_legacy_size-set_legacy_size s size size_exact a b = ground (arith, ==_refl size)
