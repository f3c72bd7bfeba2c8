-- ===== src/Text/Utf8/RoundTrip.antt =====
-- Reading back what wcToUtf8 writes.
use airdcpp_core.Base.{
  ℕ, suc, ◌+◌, ◌-◌, ◌*◌, ◌/◌, ◌%◌, ◌^◌, ◌≤◌, ◌<◌, ◌≡◌, refl, inl, inr, false, [], ◌∷◌, ◌++◌, arith,
  dec_lt, if◌then◌else◌, Bool-cases, length, Bytes,
}
use airdcpp_core.Text.Utf8.{
  good, is_invalid_code_point, lead_bytes, decode_rest, decode_lead, utf8_to_wc, encode, wc_to_utf8,
  replacement,
}

lead_two : (c : ℕ) → 192 ≤ c → c < 224 → lead_bytes c ≡ 2
unfolding lead_bytes
lead_two c l h = ground arith

lead_three : (c : ℕ) → 224 ≤ c → c < 240 → lead_bytes c ≡ 3
unfolding lead_bytes
lead_three c l h = ground arith

lead_four : (c : ℕ) → 240 ≤ c → c < 248 → lead_bytes c ≡ 4
unfolding lead_bytes
lead_four c l h = ground arith

-- The steps of the decoder, given the bytes that are there.
IsTail : ℕ → Type 0
IsTail c = (128 ≤ c) × (c < 192)

decode_rest-tail :
    (left i c x : ℕ) (s : Bytes)
    → IsTail x
    → decode_rest (suc left) i c (x ∷ s) ≡ decode_rest left (i + 1) (c * 64 + x % 64) s
unfolding decode_rest IsTail
decode_rest-tail left i c x s h = ground arith

utf8_to_wc-lead :
    (c n : ℕ) (s : Bytes)
    → c / 64 % 4 ≡ 3
    → lead_bytes c ≡ n
    → c / 2 ^ (7 - n) % 2 ≡ 0
    → utf8_to_wc (c ∷ s) ≡ decode_rest (n - 1) 1 (c % 2 ^ (7 - n)) s
unfolding utf8_to_wc decode_lead
utf8_to_wc-lead c n s h e z = rw (h, e, z) refl

decode_rest-zero :
    (i c : ℕ) (s : Bytes) → is_invalid_code_point c ≡ false → decode_rest 0 i c s ≡ good i c
unfolding decode_rest
decode_rest-zero i c s h = rw h refl

decode_one : (c : ℕ) (s : Bytes) → c < 128 → utf8_to_wc (c ∷ s) ≡ good 1 c
unfolding utf8_to_wc
decode_one c s h = ground arith

encode_one : (c : ℕ) → c < 0x80 → encode c ≡ c ∷ []
unfolding encode
encode_one c h = ground arith

encode_two : (c : ℕ) → 0x80 ≤ c → c < 0x800 → encode c ≡ (192 + c / 64) ∷ (128 + c % 64) ∷ []
unfolding encode
encode_two c l h = ground arith

encode_three :
    (c : ℕ)
    → 0x800 ≤ c
    → c < 0x10000
    → encode c ≡ (224 + c / 4096) ∷ (128 + c / 64 % 64) ∷ (128 + c % 64) ∷ []
unfolding encode
encode_three c l h = ground arith

encode_four :
    (c : ℕ)
    → 0x10000 ≤ c
    → encode c
      ≡ (240 + c / 262144) ∷ (128 + c / 4096 % 64) ∷ (128 + c / 64 % 64) ∷ (128 + c % 64) ∷ []
unfolding encode
encode_four c l = ground arith

decode_two :
    (a b c : ℕ) (s : Bytes)
    → is_invalid_code_point c ≡ false
    → 192 ≤ a
    → a < 224
    → IsTail b
    → c ≡ a % 32 * 64 + b % 64
    → utf8_to_wc (a ∷ b ∷ s) ≡ good 2 c
decode_two a b c s v l h t e =
    rw
      (
        utf8_to_wc-lead a 2 (b ∷ s) (omega arith) (lead_two a l h) (omega arith),
        decode_rest-tail 0 1 (a % 32) b s t,
        ← e,
      )
      (decode_rest-zero 2 c s v)

decode_three :
    (x y z c : ℕ) (s : Bytes)
    → is_invalid_code_point c ≡ false
    → 224 ≤ x
    → x < 240
    → IsTail y
    → IsTail z
    → c ≡ (x % 16 * 64 + y % 64) * 64 + z % 64
    → utf8_to_wc (x ∷ y ∷ z ∷ s) ≡ good 3 c
decode_three x y z c s v l h t u e =
    rw
      (
        utf8_to_wc-lead x 3 (y ∷ z ∷ s) (omega arith) (lead_three x l h) (omega arith),
        decode_rest-tail 1 1 (x % 16) y (z ∷ s) t,
        decode_rest-tail 0 2 (x % 16 * 64 + y % 64) z s u,
        ← e,
      )
      (decode_rest-zero 3 c s v)

decode_four :
    (w x y z c : ℕ) (s : Bytes)
    → is_invalid_code_point c ≡ false
    → 240 ≤ w
    → w < 248
    → IsTail x
    → IsTail y
    → IsTail z
    → c ≡ ((w % 8 * 64 + x % 64) * 64 + y % 64) * 64 + z % 64
    → utf8_to_wc (w ∷ x ∷ y ∷ z ∷ s) ≡ good 4 c
decode_four w x y z c s v l h t u r e =
    rw
      (
        utf8_to_wc-lead w 4 (x ∷ y ∷ z ∷ s) (omega arith) (lead_four w l h) (omega arith),
        decode_rest-tail 2 1 (w % 8) x (y ∷ z ∷ s) t,
        decode_rest-tail 1 2 (w % 8 * 64 + x % 64) y (z ∷ s) u,
        decode_rest-tail 0 3 ((w % 8 * 64 + x % 64) * 64 + y % 64) z s r,
        ← e,
      )
      (decode_rest-zero 4 c s v)

IsTail-mod : (c : ℕ) → IsTail (128 + c % 64)
unfolding IsTail
IsTail-mod c = (omega arith, omega arith)

code_point_le : (c : ℕ) → is_invalid_code_point c ≡ false → c ≤ 0x10ffff
unfolding is_invalid_code_point
code_point_le c h = ground arith

pub decode-encode :
    (c : ℕ) (s : Bytes)
    → is_invalid_code_point c ≡ false
    → utf8_to_wc (encode c ++ s) ≡ good (length (encode c)) c
decode-encode c s h = elim (dec_lt c 0x80) [
  | yes p ↦ rw (encode_one c p) (decode_one c s p)
  | no p ↦ elim (dec_lt c 0x800) [
    | yes q ↦
        rw (encode_two c (omega arith) q)
          (decode_two _ _ c s h (omega arith) (omega arith) (IsTail-mod c) (omega arith))
    | no q ↦ elim (dec_lt c 0x10000) [
      | yes r ↦ rw (encode_three c (omega arith) r) (
          decode_three _ _ _ c s h (omega arith) (omega arith) (IsTail-mod (c / 64)) (IsTail-mod c)
            (omega arith))
      | no r ↦ rw (encode_four c (omega arith)) (
          decode_four _ _ _ _ c s h (omega arith) (omega (arith, code_point_le c h))
            (IsTail-mod (c / 4096)) (IsTail-mod (c / 64)) (IsTail-mod c)
            (omega (arith, code_point_le c h)))
    ]
  ]
]

-- The character that wcToUtf8 writes.
abbrev pub valid_code_point : ℕ → ℕ
valid_code_point c = if is_invalid_code_point c then replacement else c

pub wc_to_utf8-encode : (c : ℕ) → wc_to_utf8 c ≡ encode (valid_code_point c)
unfolding wc_to_utf8
wc_to_utf8-encode c = elim (Bool-cases (is_invalid_code_point c)) [
  | inl e ↦ rw e refl
  | inr e ↦ rw e refl
]

pub is_invalid_code_point-valid_code_point :
    (c : ℕ) → is_invalid_code_point (valid_code_point c) ≡ false
unfolding is_invalid_code_point
is_invalid_code_point-valid_code_point c = ground arith

-- A character that wcToUtf8 writes is read back by utf8ToWc, whatever stands behind it, with the
-- number of its bytes; a number that is no code point is read back as the replacement character.
pub utf8_to_wc-wc_to_utf8 :
    (c : ℕ) (s : Bytes)
    → utf8_to_wc (wc_to_utf8 c ++ s) ≡ good (length (wc_to_utf8 c)) (valid_code_point c)
utf8_to_wc-wc_to_utf8 c s =
    rw (wc_to_utf8-encode c)
      (decode-encode (valid_code_point c) s (is_invalid_code_point-valid_code_point c))

-- At least one byte is written.
pub record Cons (u : Bytes) : Type 0 where
  pub head : ℕ
  pub tail : Bytes
  pub is_cons : u ≡ head ∷ tail

Cons-cases : (u : Bytes) → 0 < length u → Cons u
Cons-cases [] h = absurd (omega arith)
Cons-cases (x ∷ t) h = record { head = x; tail = t; is_cons = refl }

length-encode : (c : ℕ) → 0 < length (encode c)
unfolding encode
length-encode c = ground arith

pub wc_to_utf8-Cons : (c : ℕ) → Cons (wc_to_utf8 c)
wc_to_utf8-Cons c = rw (wc_to_utf8-encode c) (Cons-cases _ (length-encode (valid_code_point c)))
