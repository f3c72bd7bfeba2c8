-- ===== src/Protocol/Params.antt =====
-- Building a command and reading its parameters: `addParam`, `addParams`, `addFeature`, `getParam`,
-- `hasFlag`, `getFourCC`.
use airdcpp_core.Base.{
  ℕ, ◌+◌, ◌*◌, Bool, true, false, ◌&&◌, List, [], ◌∷◌, ◌++◌, ◌==◌, if◌then◌else◌, Bytes, drop, take,
  length, get_elem?, Option, none, some,
}
use airdcpp_core.Protocol.Command.{AdcCommand, from_sid}

unfoldable pub add_param : Bytes → AdcCommand → AdcCommand
add_param p c = record c { parameters = c.parameters ++ p ∷ [] }

-- A named parameter: the name and the value in one word.
unfoldable pub add_named : Bytes → Bytes → AdcCommand → AdcCommand
add_named name value c = record c { parameters = c.parameters ++ (name ++ value) ∷ [] }

-- The entries of the multimap, in its order.
unfoldable pub add_params : List (Bytes × Bytes) → AdcCommand → AdcCommand
unfolding add_named
add_params [] c = c
add_params ((name, value) ∷ ps) c = add_params ps (add_named name value c)

pub data FeatureType : Type 0 where
  required excluded : FeatureType

unfoldable pub add_feature : Bytes → FeatureType → AdcCommand → AdcCommand
add_feature feat required c = record c { features = c.features ++ b'+' ∷ feat }
add_feature feat excluded c = record c { features = c.features ++ b'-' ∷ feat }

-- `toCode`: the first two bytes of a C string as a uint16_t. Past a NUL nothing is relied on.
unfoldable pub to_code : Bytes → ℕ
to_code (a ∷ b ∷ rest) = a + 256 * b
to_code (a ∷ []) = a
to_code [] = 0

-- The loops of the named lookups, over the parameters from `start` on.
unfoldable pub find_param : Bytes → List Bytes → Option Bytes
find_param name [] = none
find_param name (p ∷ ps) = if to_code name == to_code p then some (drop 2 p) else find_param name ps

unfoldable pub find_params : Bytes → List Bytes → List Bytes
find_params name [] = []
find_params name (p ∷ ps) =
    let rest = find_params name ps in if to_code name == to_code p then drop 2 p ∷ rest else rest

-- The third byte of a flag parameter is the digit 1.
abbrev pub is_one : Option ℕ → Bool
is_one none = false
is_one (some c) = c == b'1'

unfoldable pub find_flag : Bytes → List Bytes → Bool
find_flag name [] = false
find_flag name (p ∷ ps) =
    if to_code name == to_code p && length p == 3 && is_one (get_elem? p 2)
    then true
    else find_flag name ps

-- `getParam(n)`: the empty text when there are not that many.
unfoldable pub get_param : AdcCommand → ℕ → Bytes
get_param c n = elim (get_elem? c.parameters n) [ none ↦ [] | some p ↦ p ]

-- `getParam(name, start, ret)` into a text, and into a list.
unfoldable pub get_named : AdcCommand → Bytes → ℕ → Option Bytes
unfolding find_param to_code
get_named c name start = find_param name (drop start c.parameters)

unfoldable pub get_all_named : AdcCommand → Bytes → ℕ → List Bytes
unfolding find_params to_code
get_all_named c name start = find_params name (drop start c.parameters)

unfoldable pub has_flag : AdcCommand → Bytes → ℕ → Bool
unfolding find_flag to_code
has_flag c name start = find_flag name (drop start c.parameters)

-- `getFourCC`: the type and the first three bytes of the command.
unfoldable pub four_cc : AdcCommand → Bytes
unfolding from_sid
four_cc c = c.kind ∷ take 3 (from_sid c.cmd_int)
