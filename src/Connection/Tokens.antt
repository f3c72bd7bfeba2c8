-- ===== src/Connection/Tokens.antt =====
-- TokenManager of connection/ConnectionManager.cpp: the tokens in use and what they are for.
use airdcpp_core.Base.{ℕ, Bool, true, false, Option, none, some, List, [], ◌∷◌, ◌==◌, if◌then◌else◌}
use airdcpp_core.Connection.Types.{ConnectionType, same_type}

pub record TokenEntry : Type 0 where
  pub key : ℕ
  pub purpose : ConnectionType

abbrev pub Tokens : Type 0
Tokens = List TokenEntry

unfoldable pub find_token : ℕ → Tokens → Option ConnectionType
find_token t [] = none
find_token t (e ∷ es) = let rest = find_token t es in if e.key == t then some e.purpose else rest

unfoldable pub is_registered : ℕ → Tokens → Bool
unfolding find_token
is_registered t ts = elim (find_token t ts) [ none ↦ false | some p ↦ true ]

-- The random numbers that are drawn are given; `none` where all of them are in use.
unfoldable pub create_token : List ℕ → ConnectionType → Tokens → Option (ℕ × Tokens)
unfolding is_registered
create_token [] p ts = none
create_token (r ∷ draws) p ts =
    let again = create_token draws p ts in
    if is_registered r ts then again else some (r, record { key = r; purpose = p } ∷ ts)

-- try_emplace: an entry that is there stays.
unfoldable pub add_token : ℕ → ConnectionType → Tokens → Bool × Tokens
unfolding is_registered
add_token t p ts =
    if is_registered t ts then (false, ts) else (true, record { key = t; purpose = p } ∷ ts)

-- Without a purpose, CONNECTION_TYPE_LAST.
unfoldable pub has_token : ℕ → Option ConnectionType → Tokens → Bool
unfolding find_token
has_token t wanted ts = elim (find_token t ts) [
  | none ↦ false
  | some p ↦ elim wanted [ none ↦ true | some w ↦ same_type p w ]
]

unfoldable pub remove_token : ℕ → Tokens → Tokens
remove_token t [] = []
remove_token t (e ∷ es) = let rest = remove_token t es in if e.key == t then es else e ∷ rest
