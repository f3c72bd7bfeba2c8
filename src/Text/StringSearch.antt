-- ===== src/Text/StringSearch.antt =====
-- util/text/StringSearch: Quick Search for one pattern, and the matching of a list of patterns.
use airdcpp_core.Base.{
  ℕ, zero, suc, ◌+◌, ◌-◌, ◌%◌, Bool, true, false, ◌&&◌, Option, none, some, List, ◌∷◌, ◌++◌, ltb,
  ◌==◌, if◌then◌else◌, length, take, drop, replicate, Bytes, [],
}
use airdcpp_core.Text.Utf8.{byte_at, to_lower}
mod Shift
mod First
pub mod Class
mod Tests

-- A pattern with its table of shifts. `plen` is the length of the text that was given, which is
-- lowered afterwards.
pub record Pattern : Type 0 where
  pub pattern : Bytes
  pub plen : ℕ
  pub delta1 : ℕ → ℕ

abbrev pub u16 : ℕ → ℕ
u16 n = n % 65536

-- delta1[p[i]] = x - i, from the index i on.
unfoldable pub fill_delta1 : (x i : ℕ) → Bytes → (ℕ → ℕ) → ℕ → ℕ
fill_delta1 x i [] delta = delta
fill_delta1 x i (c ∷ p) delta =
    fill_delta1 x (i + 1) p (λ b. if b == c then u16 (x - i) else delta b)

-- All shifts are the length and one, in 16 bits, and then those of the bytes of the pattern.
unfoldable pub init_delta1 : Bytes → ℕ → ℕ
unfolding fill_delta1
init_delta1 p =
    let x = u16 (length p + 1) in let y = u16 (x + 65535) in fill_delta1 y 0 (take y p) (λ b. x)

unfoldable pub new_pattern : (ℕ → ℕ) → Bytes → Pattern
unfolding init_delta1
new_pattern towlower given =
    let p = to_lower towlower given in
    record { pattern = p; plen = length given; delta1 = init_delta1 p }

-- px[i] && px[i] == tx[i], up to the terminator of the pattern.
unfoldable pub starts_with : Bytes → Bytes → Bool
starts_with [] tx = true
starts_with (zero ∷ px) tx = true
starts_with (suc x ∷ px) tx = (suc x == byte_at tx) && starts_with px (drop 1 tx)

module _ (p : Pattern) where
  -- The loop over the text: `tx` is the text from the position `pos` on, `end` the first position
  -- where the pattern does not fit. A round takes one of the fuel.
  unfoldable pub match_loop : (fuel end pos : ℕ) → Bytes → Option ℕ
  unfolding starts_with
  match_loop zero end pos tx = none
  match_loop (suc fuel) end pos tx =
      let shift = p.delta1 (byte_at (drop p.plen tx)) in
      let rest = match_loop fuel end (pos + shift) (drop shift tx) in
      if ltb pos end then (if starts_with p.pattern tx then some pos else rest) else none

  -- `none` is npos. A start is never behind the end of the text.
  unfoldable pub match_lower : Bytes → ℕ → Option ℕ
  unfolding match_loop
  match_lower text start =
      let tlen = length text - start in
      let end = length text - p.plen + 1 in
      if ltb tlen p.plen then none else match_loop end end start (drop start text)

unfoldable pub is_some : Option ℕ → Bool
is_some none = false
is_some (some i) = true

-- The class: a list of patterns.
unfoldable pub add_string : (ℕ → ℕ) → Bytes → List Pattern → List Pattern
unfolding new_pattern
add_string towlower [] ps = ps
add_string towlower (c ∷ given) ps =
    ps ++ (new_pattern towlower (to_lower towlower (c ∷ given)) ∷ [])

unfoldable pub match_all_lower : List Pattern → Bytes → Bool
unfolding match_lower is_some
match_all_lower [] text = true
match_all_lower (p ∷ ps) text =
    let rest = match_all_lower ps text in if is_some (match_lower p text 0) then rest else false

unfoldable pub match_all : (ℕ → ℕ) → List Pattern → Bytes → Bool
unfolding match_all_lower
match_all towlower ps text = match_all_lower ps (to_lower towlower text)

unfoldable pub match_any_lower : List Pattern → Bytes → Bool
unfolding match_lower is_some
match_any_lower [] text = false
match_any_lower (p ∷ ps) text =
    let rest = match_any_lower ps text in if is_some (match_lower p text 0) then true else rest

unfoldable pub match_any : (ℕ → ℕ) → List Pattern → Bytes → Bool
unfolding match_any_lower
match_any towlower ps text = match_any_lower ps (to_lower towlower text)

abbrev next_start : Option ℕ → ℕ
next_start none = 0
next_start (some i) = i + 1

-- results[listPos - 1] != npos && results[listPos - 1] > curPos
abbrev is_behind : Option ℕ → ℕ → Bool
is_behind none cur = false
is_behind (some before) cur = ltb cur before

-- The endless loop of matchLower for one pattern: `before` is the position of the pattern in byte_at
-- of it, `add` the position found so far. A round takes one of the fuel.
unfoldable pub place_loop : (fuel : ℕ) → Pattern → Bytes → (before add : Option ℕ) → Option ℕ
unfolding match_lower
place_loop zero p text before add = add
place_loop (suc fuel) p text before add = elim (match_lower p text (next_start add)) [
  | none ↦ add
  | some cur ↦
      let again = place_loop fuel p text before (some cur) in
      if is_behind before cur then again else some cur
]

unfoldable pub place : Pattern → Bytes → Option ℕ → Option ℕ
unfolding place_loop
place p text before = place_loop (length text + 1) p text before none

pub record Placement : Type 0 where
  pub matches : ℕ
  pub places : List (Option ℕ)

abbrev pub old_front : List (Option ℕ) → Option ℕ
old_front [] = none
old_front (o ∷ old) = o

-- The loop of matchLower over the patterns: `done` are the results in byte_at of this pattern, `old`
-- those that stand there from before. A result is not written where its pattern does not match.
unfoldable pub place_all :
    (resume : Bool)
    → Bytes
    → List Pattern
    → (before : Option ℕ) → (matches : ℕ) → (done old : List (Option ℕ)) → Placement
unfolding place
place_all resume text [] before matches done old = record {
  matches = matches;
  places = done ++ old;
}
place_all resume text (p ∷ ps) before matches done old = elim (place p text before) [
  | some at ↦ place_all resume text ps (some at) (matches + 1) (done ++ (some at ∷ [])) (drop 1 old)
  | none ↦
      let rest =
        place_all resume text ps (old_front old) matches (done ++ take 1 old) (drop 1 old) in
      if resume then rest else record { matches = 0; places = replicate (length done) none ++ old }
]

-- matchLower of the class, with a list for the results.
unfoldable pub match_lower_all :
    (resume : Bool) → List Pattern → Bytes → List (Option ℕ) → Placement
unfolding place_all
match_lower_all resume ps text results = place_all resume text ps none 0 [] results
