-- ===== src/Search/Query/Extensions.antt =====
-- Which extensions a query of search/SearchQuery.cpp allows.
use airdcpp_core.Base.{
  ◌-◌, Bool, true, false, ◌&&◌, ◌||◌, List, [], ◌∷◌, ltb, leb, ◌==◌, if◌then◌else◌, length, drop,
  any, Bytes,
}
use airdcpp_core.Search.Query.Types.{SearchQuery}

unfoldable pub less_bytes : Bytes → Bytes → Bool
less_bytes a [] = false
less_bytes [] (d ∷ b) = true
less_bytes (c ∷ a) (d ∷ b) = ltb c d || ((c == d) && less_bytes a b)

unfoldable pub drop_below : Bytes → List Bytes → List Bytes
unfolding less_bytes
drop_below x [] = []
drop_below x (y ∷ ys) = let rest = drop_below x ys in if less_bytes y x then rest else y ∷ ys

-- std::set_difference, whatever the order of the lists.
unfoldable pub set_difference : List Bytes → List Bytes → List Bytes
unfolding drop_below less_bytes
set_difference [] ys = []
set_difference (x ∷ xs) ys = elim (drop_below x ys) [
  | [] ↦ x ∷ xs
  | y ∷ zs ↦
      let kept = set_difference xs (y ∷ zs) in
      let gone = set_difference xs zs in if less_bytes x y then x ∷ kept else gone
]

unfoldable pub same_bytes : Bytes → Bytes → Bool
same_bytes [] [] = true
same_bytes (c ∷ a) [] = false
same_bytes [] (d ∷ b) = false
same_bytes (c ∷ a) (d ∷ b) = (c == d) && same_bytes a b

unfoldable pub ends_with : Bytes → Bytes → Bool
unfolding same_bytes
ends_with name e = leb (length e) (length name) && same_bytes (drop (length name - length e) name) e

unfoldable pub has_ext : Bytes → SearchQuery → Bool × SearchQuery
unfolding set_difference ends_with
has_ext name q =
    if length q.ext == 0
    then (true, q)
    else (let kept =
          if length q.no_ext == 0
          then q
          else record q { ext = set_difference q.ext q.no_ext; no_ext = [] } in
        (any (λ e. ends_with name e) kept.ext, kept))
