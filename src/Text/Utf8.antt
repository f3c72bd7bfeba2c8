-- ===== src/Text/Utf8.antt =====
-- UTF-8 in util/text/Text.cpp: decoding and encoding a character, and the loops over a text. A
-- text is the list of its bytes, with a zero behind the end. A wide character has 32 bits, as on
-- the platforms other than Windows.
use airdcpp_core.Base.{
  ℕ, zero, suc, ◌+◌, ◌-◌, ◌*◌, ◌/◌, ◌%◌, ◌^◌, ◌≤◌, ◌<◌, min, max, ◌≡◌, refl, sym, ap, ap₂, subst,
  ◌∙◌, ◌≢◌, ◌↔◌, ◌⊎◌, inl, inr, Bool, true, false, not, ◌&&◌, ◌||◌, Option, none, some, List, [],
  ◌∷◌, ◌++◌, append-nil, append_assoc, arith, dec_lt, dec_le, ltb, leb, ◌==◌, if◌then◌else◌, ltb→lt,
  lt→ltb, leb→le, ==_iff, ==_refl, Bool-cases, Option-cases, length, get_elem?, take, drop, any,
  all, replicate, length-append, All, All-append, Bytes, codes,
}
-- What utf8ToWc returns: `good n c` for n with the character c, `bad n` for -n.
pub mod RoundTrip
pub mod Texts
mod Tests

pub data Decoded : Type 0 where
  good : ℕ → ℕ → Decoded
  bad : ℕ → Decoded

pub Decoded-cases : (d : Decoded) → ((n : ℕ) × (c : ℕ) × (d ≡ good n c)) ⊎ ((n : ℕ) × (d ≡ bad n))
Decoded-cases (good n c) = inl (n, c, refl)
Decoded-cases (bad n) = inr (n, refl)

-- The byte at the byte_at; behind the end stands the terminator.
abbrev pub byte_at : Bytes → ℕ
byte_at [] = 0
byte_at (x ∷ xs) = x

abbrev pub replacement : ℕ
replacement = 0xfffd

-- c > 0x10ffff || (c >= 0xd800 && c <= 0xdfff)
unfoldable pub is_invalid_code_point : ℕ → Bool
is_invalid_code_point c = ltb 0x10ffff c || (leb 0xd800 c && leb c 0xdfff)

-- 2 + !!(c0 & 0x20) + ((c0 & 0x30) == 0x30)
unfoldable pub lead_bytes : ℕ → ℕ
lead_bytes c0 = 2 + c0 / 32 % 2 + (if c0 / 16 % 4 == 3 then 1 else 0)

-- The loop over the additional bytes, of which `left` remain, from the byte i on.
unfoldable pub decode_rest : (left i c : ℕ) → Bytes → Decoded
unfolding is_invalid_code_point
decode_rest zero i c s = if is_invalid_code_point c then bad i else good i c
decode_rest (suc left) i c s =
    let rest = decode_rest left (i + 1) (c * 64 + byte_at s % 64) (drop 1 s) in
    if byte_at s / 64 % 4 == 2 then rest else bad i

unfoldable pub decode_lead : ℕ → ℕ → Bytes → Decoded
unfolding decode_rest
decode_lead c0 bytes s =
    let check_bit = 2 ^ (7 - bytes) in
    if c0 / check_bit % 2 == 1 then bad 1 else decode_rest (bytes - 1) 1 (c0 % check_bit) s

unfoldable pub utf8_to_wc : Bytes → Decoded
unfolding decode_lead lead_bytes
utf8_to_wc s =
    let c0 = byte_at s in
    if c0 / 64 % 4 == 3
    then decode_lead c0 (lead_bytes c0) (drop 1 s)
    else if c0 / 128 % 2 == 0
    then good 1 c0
    else bad 1

-- The bytes that a valid character appends.
unfoldable pub encode : ℕ → Bytes
encode c =
    if leb 0x10000 c
    then (240 + c / 262144) ∷ (128 + c / 4096 % 64) ∷ (128 + c / 64 % 64) ∷ (128 + c % 64) ∷ []
    else if leb 0x800 c
    then (224 + c / 4096) ∷ (128 + c / 64 % 64) ∷ (128 + c % 64) ∷ []
    else if leb 0x80 c
    then (192 + c / 64) ∷ (128 + c % 64) ∷ []
    else c ∷ []

unfoldable pub wc_to_utf8 : ℕ → Bytes
unfolding encode is_invalid_code_point
wc_to_utf8 c = if is_invalid_code_point c then encode replacement else encode c

unfoldable pub is_ascii : Bytes → Bool
is_ascii [] = true
is_ascii (zero ∷ s) = true
is_ascii (suc x ∷ s) = if suc x / 128 % 2 == 1 then false else is_ascii s

-- The loops over a text step over all bytes of a character: `skip` is how many of them are left.
unfoldable pub validate_loop : ℕ → Bytes → Bool
validate_loop skip [] = true
validate_loop (suc skip) (x ∷ s) = validate_loop skip s
validate_loop zero (x ∷ s) = elim (utf8_to_wc (x ∷ s)) [
  | good n c ↦ validate_loop (n - 1) s
  | bad n ↦ false
]

unfoldable pub validate_utf8 : Bytes → Bool
unfolding validate_loop
validate_utf8 s = validate_loop 0 s

abbrev pub underscore : ℕ
underscore = 95

-- `string::insert` at i, which throws behind the end; the function is noexcept, so that the
-- program ends then: `none`.
unfoldable pub insert_at : ℕ → Bytes → Bytes → Option Bytes
insert_at i new t = if leb i (length t) then some (take i t ++ (new ++ drop i t)) else none

unfoldable pub sanitize_loop : (skip i : ℕ) → Bytes → Bytes → Option Bytes
sanitize_loop skip i t [] = some t
sanitize_loop (suc skip) i t (x ∷ s) = sanitize_loop skip i t s
sanitize_loop zero i t (x ∷ s) = elim (utf8_to_wc (x ∷ s)) [
  | good n c ↦ sanitize_loop (n - 1) (i + n) (t ++ wc_to_utf8 c) s
  | bad n ↦ elim (insert_at i (replicate n underscore) t) [
    | none ↦ none
    | some t' ↦ sanitize_loop (n - 1) (i + n) t' s
  ]
]

unfoldable pub sanitize_utf8 : Bytes → Option Bytes
unfolding sanitize_loop
sanitize_utf8 s = sanitize_loop 0 0 [] s

-- `towlower` is the C library's.
module _ (towlower : ℕ → ℕ) where
  unfoldable pub lower_loop : ℕ → Bytes → Bytes
  lower_loop skip [] = []
  lower_loop (suc skip) (x ∷ s) = lower_loop skip s
  lower_loop zero (x ∷ s) = elim (utf8_to_wc (x ∷ s)) [
    | good n c ↦ wc_to_utf8 (towlower c) ++ lower_loop (n - 1) s
    | bad n ↦ underscore ∷ lower_loop (n - 1) s
  ]

  unfoldable pub to_lower : Bytes → Bytes
  unfolding lower_loop
  to_lower s = lower_loop 0 s
