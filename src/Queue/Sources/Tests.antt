-- ===== src/Queue/Sources/Tests.antt =====
-- The theorems of the sources of an item at inputs that meet their hypotheses.
use airdcpp_core.Base.{ℕ, ◌≡◌, refl, false, List, [], ◌∷◌, some, arith}
use Prim.Native.String.{String}
use airdcpp_core.Queue.Sources.{Source, Sources, get_source, set_flag, add_source, remove_source}
use airdcpp_core.Queue.Sources.Moves.{IsDistinct, add_source-remove_source}

abbrev source : ℕ → Source
source u = record {
  user = u;
  hint = "adc://one";
  nmdc = false;
  flags = 0;
  parts_info = [];
  blocked_hubs = "adc://one" ∷ [];
}

abbrev sources : Sources
sources = record { good = source 1 ∷ source 2 ∷ []; bad = source 3 ∷ [] }

sources-IsDistinct : IsDistinct sources
sources-IsDistinct u = ground arith

add_source-remove_source_example :
    (get_source 2 (add_source (source 2) (remove_source 2 1 sources)).good
      ≡ some (set_flag 1 (source 2)))
    × ((add_source (source 2) (remove_source 2 1 sources)).bad ≡ sources.bad)
add_source-remove_source_example =
    add_source-remove_source (source 2) (source 2) 1 sources sources-IsDistinct refl

abbrev online : List String
online = "adc://one" ∷ "adc://two" ∷ []
