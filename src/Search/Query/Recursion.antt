-- ===== src/Search/Query/Recursion.antt =====
-- The positions of the levels above: SearchQuery::Recursion and the points of a match.
use airdcpp_core.Base.{
  ℕ, ◌+◌, ◌-◌, Bool, true, false, not, ◌&&◌, ◌||◌, Option, none, some, List, [], ◌∷◌, leb, ◌==◌,
  if◌then◌else◌, length, drop, Bytes,
}
use airdcpp_core.Text.Utf8.{byte_at}
use airdcpp_core.Text.StringSearch.{Pattern}
use airdcpp_core.Search.Query.Types.{Points, Recursion, SearchQuery, is_npos}

-- Text::isSeparator.
unfoldable pub is_separator : ℕ → Bool
is_separator c =
    (leb 32 c && leb c 47)
    || (leb 58 c && leb c 64)
    || (leb 91 c && leb c 96)
    || (leb 123 c && leb c 127)

unfoldable pub last_byte : Bytes → ℕ
last_byte [] = 0
last_byte (c ∷ []) = c
last_byte (c ∷ d ∷ cs) = last_byte (d ∷ cs)

-- The points of one pattern.
unfoldable pub points_at : (name : Bytes) → Pattern → ℕ → ℕ
unfolding is_separator last_byte
points_at name p pos =
    let end = pos + p.plen in
    let front =
      if pos == 0
      then 20
      else if not (is_separator (byte_at p.pattern)) && is_separator (byte_at (drop (pos - 1) name))
      then 10
      else 0 in
    let back =
      if end == length name
      then 20
      else if not (is_separator (last_byte p.pattern)) && is_separator (byte_at (drop end name))
      then 10
      else 0 in
    front + back

unfoldable pub to_points : (name : Bytes) → List Pattern → List (Option ℕ) → List Points
unfolding points_at
to_points name [] os = []
to_points name (p ∷ ps) [] = []
to_points name (p ∷ ps) (none ∷ os) = (none, 0) ∷ to_points name ps os
to_points name (p ∷ ps) (some pos ∷ os) = (some pos, points_at name p pos) ∷ to_points name ps os

unfoldable pub to_point_list : (name : Bytes) → SearchQuery → List Points
unfolding to_points
to_point_list name q = to_points name q.include q.last_positions

-- Recursion::merge: from the first position that only the old ones have. An own position moves by
-- the length of the directories above.
unfoldable pub merge_rest : (depth : ℕ) → (new old : List Points) → List Points
merge_rest depth new [] = new
merge_rest depth [] (o ∷ old) = []
merge_rest depth ((none, n) ∷ new) (o ∷ old) = o ∷ merge_rest depth new old
merge_rest depth ((some pos, n) ∷ new) (o ∷ old) =
    (some (pos + depth), n) ∷ merge_rest depth new old

abbrev pub is_missing : Points → Points → Bool
is_missing new old = is_npos new.0 && not (is_npos old.0)

unfoldable pub merge_lists : (depth : ℕ) → (new old : List Points) → List Points × Bool
unfolding merge_rest is_npos
merge_lists depth [] old = ([], false)
merge_lists depth (n ∷ new) [] = (n ∷ new, false)
merge_lists depth (n ∷ new) (o ∷ old) =
    let (rest, merged) = merge_lists depth new old in
    if is_missing n o then (merge_rest depth (n ∷ new) (o ∷ old), true) else (n ∷ rest, merged)

unfoldable pub merge : (parent : Recursion) → (new : List Points) → List Points × Bool
unfolding merge_lists
merge parent new = merge_lists parent.depth_len new parent.points

-- The constructor of Recursion, inside the recursion of the query.
unfoldable pub nested : (own : List Points) → Option Recursion → Recursion
unfolding merge
nested own none = record { depth_len = 0; recursion_level = 0; points = own }
nested own (some r) =
    let (new, merged) = merge r own in
    record {
      depth_len = if merged then r.depth_len else 0;
      recursion_level = if merged then r.recursion_level else 0;
      points = new;
    }

unfoldable pub new_recursion : SearchQuery → (name : Bytes) → Recursion
unfolding to_point_list nested
new_recursion q name = nested (to_point_list name q) q.recursion

unfoldable pub increase : ℕ → Recursion → Recursion
increase n r = record r { recursion_level = r.recursion_level + 1; depth_len = r.depth_len + n }

unfoldable pub decrease : ℕ → Recursion → Recursion
decrease n r = record r { recursion_level = r.recursion_level - 1; depth_len = r.depth_len - n }

-- completes: no position is missing in both lists.
unfoldable pub completes : List Points → List (Option ℕ) → Bool
unfolding is_npos
completes [] os = true
completes (p ∷ ps) [] = not (is_npos p.0) && completes ps []
completes (p ∷ ps) (o ∷ os) = not (is_npos p.0 && is_npos o) && completes ps os
