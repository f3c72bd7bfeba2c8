-- ===== src/Protocol/Escape.antt =====
-- `AdcCommand::escape`: the loop over the text, and the plain description that it meets.
use airdcpp_core.Base.{
  ℕ, zero, suc, ◌+◌, ◌<◌, ◌≡◌, refl, ◌∙◌, ap, Bool, true, false, ◌||◌, [], ◌∷◌, ◌++◌, arith, ◌==◌,
  if◌then◌else◌, Bytes, length, Option, none, some, Bool-cases, Option-cases, inl, inr,
}

-- The set " \n\\".
abbrev pub is_special : ℕ → Bool
is_special c = c == b' ' || c == 10 || c == b'\\'

-- `tmp.find_first_of(" \n\\", i)`: the first position from `i` on.
unfoldable pub find_special : Bytes → ℕ → Option ℕ
find_special [] i = none
find_special (c ∷ s) zero =
    if is_special c then some 0 else elim (find_special s 0) [ none ↦ none | some j ↦ some (suc j) ]
find_special (c ∷ s) (suc i) = elim (find_special s i) [ none ↦ none | some j ↦ some (suc j) ]

-- What stands for a special byte: the old escaping puts a backslash before it.
unfoldable pub hide : Bool → ℕ → Bytes
hide true c = b'\\' ∷ c ∷ []
hide false c =
    if c == b' '
    then b'\\' ∷ b's' ∷ []
    else if c == 10
    then b'\\' ∷ b'n' ∷ []
    else if c == b'\\'
    then b'\\' ∷ b'\\' ∷ []
    else c ∷ []

-- `tmp.insert(i, "\\")` and `tmp.replace(i, 1, ..)`: the byte at `i` gives way to its hidden form.
unfoldable pub replace_at : Bool → Bytes → ℕ → Bytes
replace_at old [] i = []
replace_at old (c ∷ s) zero = hide old c ++ s
replace_at old (c ∷ s) (suc i) = c ∷ replace_at old s i

-- The loop, with the rounds that it may make.
unfoldable pub escape_loop : ℕ → Bool → Bytes → ℕ → Bytes
escape_loop zero old tmp i = tmp
escape_loop (suc fuel) old tmp i = elim (find_special tmp i) [
  | none ↦ tmp
  | some j ↦ escape_loop fuel old (replace_at old tmp j) (j + 2)
]

-- One round for each byte, and the last that finds nothing.
unfoldable pub escape : Bytes → Bool → Bytes
unfolding escape_loop find_special replace_at hide
escape s old = escape_loop (suc (length s)) old s 0

-- The text with every special byte hidden.
abbrev pub hide_byte : Bool → ℕ → Bytes
hide_byte old c = if is_special c then hide old c else c ∷ []

unfoldable pub escape_text : Bool → Bytes → Bytes
escape_text old [] = []
escape_text old (c ∷ s) = hide_byte old c ++ escape_text old s

-- After its first byte the loop works on the rest alone.
escape_loop_skip :
    (fuel : ℕ) (old : Bool) (c : ℕ) (s : Bytes) (i : ℕ)
    → escape_loop fuel old (c ∷ s) (suc i) ≡ c ∷ escape_loop fuel old s i
unfolding escape_loop find_special replace_at
escape_loop_skip zero old c s i = refl
escape_loop_skip (suc fuel) old c s i = elim (Option-cases (find_special s i)) [
  | inl e ↦ ground (arith, e)
  | inr (j, e) ↦ ground (arith, e, escape_loop_skip fuel old c (replace_at old s j) (j + 2))
]

escape_loop_skip_two :
    (fuel : ℕ) (old : Bool) (a b : ℕ) (s : Bytes)
    → escape_loop fuel old (a ∷ b ∷ s) 2 ≡ a ∷ b ∷ escape_loop fuel old s 0
escape_loop_skip_two fuel old a b s =
    escape_loop_skip fuel old a (b ∷ s) 1 ∙ ap (◌∷◌ a) (escape_loop_skip fuel old b s 0)

-- A round at a special byte, and the loop past any other.
escape_loop_special :
    (fuel : ℕ) (old : Bool) (c : ℕ) (s : Bytes)
    → is_special c ≡ true
    → escape_loop (suc fuel) old (c ∷ s) 0 ≡ hide old c ++ escape_loop fuel old s 0
unfolding escape_loop find_special replace_at hide
escape_loop_special fuel true c s h = ground (arith, escape_loop_skip_two fuel true b'\\' c s)
escape_loop_special fuel false c s h = ground (
  arith,
  escape_loop_skip_two fuel false b'\\' b's' s,
  escape_loop_skip_two fuel false b'\\' b'n' s,
  escape_loop_skip_two fuel false b'\\' b'\\' s,
)

escape_loop_plain :
    (fuel : ℕ) (old : Bool) (c : ℕ) (s : Bytes)
    → is_special c ≡ false
    → escape_loop fuel old (c ∷ s) 0 ≡ c ∷ escape_loop fuel old s 0
unfolding escape_loop find_special replace_at
escape_loop_plain zero old c s h = refl
escape_loop_plain (suc fuel) old c s h = elim (Option-cases (find_special s 0)) [
  | inl e ↦ ground (arith, e)
  | inr (j, e) ↦ ground (arith, e, escape_loop_skip fuel old c (replace_at old s j) (j + 2))
]

escape_loop_lem :
    (s : Bytes) (fuel : ℕ) (old : Bool)
    → length s < fuel
    → escape_loop fuel old s 0 ≡ escape_text old s
unfolding escape_loop find_special escape_text
escape_loop_lem [] zero old h = absurd (omega arith)
escape_loop_lem [] (suc fuel) old h = refl
escape_loop_lem (c ∷ s) zero old h = absurd (omega arith)
escape_loop_lem (c ∷ s) (suc fuel) old h = elim (Bool-cases (is_special c)) [
  | inl e ↦
      escape_loop_special fuel old c s e
      ∙ ap (◌++◌ (hide old c)) (escape_loop_lem s fuel old (omega arith))
      ∙ rw e refl
  | inr e ↦
      escape_loop_plain (suc fuel) old c s e
      ∙ ap (◌∷◌ c) (escape_loop_lem s (suc fuel) old (omega arith))
      ∙ rw e refl
]

-- The index loop of escape ends within its rounds and hides each special byte of the text once,
-- under both escapings.
pub escape-escape_text : (s : Bytes) (old : Bool) → escape s old ≡ escape_text old s
unfolding escape
escape-escape_text s old = escape_loop_lem s (suc (length s)) old (omega arith)
