-- ===== src/Text/Utf8/Texts.antt =====
-- The loops of Text.cpp over whole texts.
use airdcpp_core.Base.{
  ℕ, zero, suc, ◌+◌, ◌-◌, ◌≡◌, refl, ap, subst, inl, inr, true, some, [], ◌∷◌, ◌++◌, append-nil,
  append_assoc, arith, leb, length, replicate, length-append, take-length, drop-length,
  length-replicate, suc_pred, Bytes,
}
use airdcpp_core.Text.Utf8.{
  Decoded-cases, good, bad, is_invalid_code_point, utf8_to_wc, encode, wc_to_utf8, validate_loop,
  validate_utf8, underscore, insert_at, sanitize_loop, sanitize_utf8, lower_loop, to_lower,
}
use airdcpp_core.Text.Utf8.RoundTrip.{
  valid_code_point, utf8_to_wc-wc_to_utf8, wc_to_utf8-Cons, wc_to_utf8-encode,
}

validate_loop-length : (t s : Bytes) → validate_loop (length t) (t ++ s) ≡ validate_loop 0 s
unfolding validate_loop
validate_loop-length [] s = refl
validate_loop-length (x ∷ t) s = validate_loop-length t s

validate_loop-good :
    (x : ℕ) (t s : Bytes) (c : ℕ)
    → utf8_to_wc (x ∷ (t ++ s)) ≡ good (suc (length t)) c
    → validate_loop 0 (x ∷ (t ++ s)) ≡ validate_loop 0 s
unfolding validate_loop
validate_loop-good x t s c e = rw (validate_loop, e, suc_pred (length t)) (validate_loop-length t s)

pub validate_loop-wc_to_utf8 :
    (c : ℕ) (s : Bytes) → validate_loop 0 (wc_to_utf8 c ++ s) ≡ validate_loop 0 s
validate_loop-wc_to_utf8 c s =
    let k = wc_to_utf8-Cons c in
    let d = utf8_to_wc-wc_to_utf8 c s in
    rw k.is_cons (
      validate_loop-good k.head k.tail s (valid_code_point c)
        (subst (λ u. utf8_to_wc (u ++ s) ≡ good (length u) (valid_code_point c)) k.is_cons d))

validate_loop-underscores :
    (n : ℕ) (s : Bytes) → validate_loop 0 (replicate n underscore ++ s) ≡ validate_loop 0 s
unfolding validate_loop utf8_to_wc
validate_loop-underscores zero s = refl
validate_loop-underscores (suc n) s = validate_loop-underscores n s

module _ (towlower : ℕ → ℕ) where
  lower_loop-length :
      (t s : Bytes) → lower_loop towlower (length t) (t ++ s) ≡ lower_loop towlower 0 s
  unfolding lower_loop
  lower_loop-length [] s = refl
  lower_loop-length (x ∷ t) s = lower_loop-length t s

  lower_loop-good :
      (x : ℕ) (t s : Bytes) (c : ℕ)
      → utf8_to_wc (x ∷ (t ++ s)) ≡ good (suc (length t)) c
      → lower_loop towlower 0 (x ∷ (t ++ s)) ≡ wc_to_utf8 (towlower c) ++ lower_loop towlower 0 s
  unfolding lower_loop
  lower_loop-good x t s c e = rw (lower_loop, e, suc_pred (length t), lower_loop-length t s) refl

  lower_loop-wc_to_utf8 :
      (c : ℕ) (s : Bytes)
      → lower_loop towlower 0 (wc_to_utf8 c ++ s)
        ≡ wc_to_utf8 (towlower (valid_code_point c)) ++ lower_loop towlower 0 s
  lower_loop-wc_to_utf8 c s =
      let k = wc_to_utf8-Cons c in
      let d = utf8_to_wc-wc_to_utf8 c s in
      rw k.is_cons (
        lower_loop-good k.head k.tail s (valid_code_point c)
          (subst (λ u. utf8_to_wc (u ++ s) ≡ good (length u) (valid_code_point c)) k.is_cons d))

  -- What lowering a text keeps: a character that is written is lower case already.
  unfoldable pub IsLowering : Type 0
  IsLowering =
      (c : ℕ)
      → valid_code_point (towlower (valid_code_point (towlower c))) ≡ valid_code_point (towlower c)

  lower_loop_twice :
      (c : ℕ) (s : Bytes)
      → IsLowering
      → lower_loop towlower 0 (wc_to_utf8 (towlower c) ++ s)
        ≡ wc_to_utf8 (towlower c) ++ lower_loop towlower 0 s
  unfolding IsLowering
  lower_loop_twice c s h =
      rw
        (
          lower_loop-wc_to_utf8 (towlower c) s,
          wc_to_utf8-encode (towlower (valid_code_point (towlower c))),
          h c,
          ← wc_to_utf8-encode (towlower c),
        )
        refl

  underscore_decoded : (s : Bytes) → utf8_to_wc (underscore ∷ s) ≡ good 1 underscore
  unfolding utf8_to_wc
  underscore_decoded s = refl

  lower_underscore :
      (s : Bytes)
      → towlower underscore ≡ underscore
      → lower_loop towlower 0 (underscore ∷ s) ≡ underscore ∷ lower_loop towlower 0 s
  unfolding wc_to_utf8 encode is_invalid_code_point
  lower_underscore s u =
      rw (lower_loop-good underscore [] s underscore (underscore_decoded s), u) refl

  lower_good :
      (n c x : ℕ) (s : Bytes)
      → utf8_to_wc (x ∷ s) ≡ good n c
      → lower_loop towlower 0 (x ∷ s) ≡ wc_to_utf8 (towlower c) ++ lower_loop towlower (n - 1) s
  unfolding lower_loop
  lower_good n c x s e = rw (lower_loop, e) refl

  lower_bad :
      (n x : ℕ) (s : Bytes)
      → utf8_to_wc (x ∷ s) ≡ bad n
      → lower_loop towlower 0 (x ∷ s) ≡ underscore ∷ lower_loop towlower (n - 1) s
  unfolding lower_loop
  lower_bad n x s e = rw (lower_loop, e) refl

  lower_loop_idem :
      IsLowering
      → towlower underscore ≡ underscore
      → (skip : ℕ) (s : Bytes)
      → lower_loop towlower 0 (lower_loop towlower skip s) ≡ lower_loop towlower skip s
  unfolding lower_loop
  lower_loop_idem h u skip [] = refl
  lower_loop_idem h u (suc skip) (x ∷ s) = lower_loop_idem h u skip s
  lower_loop_idem h u zero (x ∷ s) = elim (Decoded-cases (utf8_to_wc (x ∷ s))) [
    | inl (n, c, e) ↦
        rw (lower_good n c x s e, lower_loop_twice c (lower_loop towlower (n - 1) s) h)
          (ap (λ t. wc_to_utf8 (towlower c) ++ t) (lower_loop_idem h u (n - 1) s))
    | inr (n, e) ↦
        rw (lower_bad n x s e, lower_underscore (lower_loop towlower (n - 1) s) u)
          (ap (λ t. underscore ∷ t) (lower_loop_idem h u (n - 1) s))
  ]

-- Lowering a text twice is lowering it once, if towlower leaves what it writes and the underscore
-- as they are.
pub to_lower_idem :
    (towlower : ℕ → ℕ) (s : Bytes)
    → IsLowering towlower
    → towlower underscore ≡ underscore
    → to_lower towlower (to_lower towlower s) ≡ to_lower towlower s
unfolding to_lower
to_lower_idem towlower s h u = lower_loop_idem towlower h u 0 s

-- What the loop of sanitizeUtf8 is to write.
clean : ℕ → Bytes → Bytes
clean skip [] = []
clean (suc skip) (x ∷ s) = clean skip s
clean zero (x ∷ s) = elim (utf8_to_wc (x ∷ s)) [
  | good n c ↦ wc_to_utf8 c ++ clean (n - 1) s
  | bad n ↦ replicate n underscore ++ clean (n - 1) s
]

clean_good :
    (n c x : ℕ) (s : Bytes)
    → utf8_to_wc (x ∷ s) ≡ good n c
    → clean 0 (x ∷ s) ≡ wc_to_utf8 c ++ clean (n - 1) s
unfolding clean
clean_good n c x s e = rw (clean, e) refl

clean_bad :
    (n x : ℕ) (s : Bytes)
    → utf8_to_wc (x ∷ s) ≡ bad n
    → clean 0 (x ∷ s) ≡ replicate n underscore ++ clean (n - 1) s
unfolding clean
clean_bad n x s e = rw (clean, e) refl

validate-clean : (skip : ℕ) (s : Bytes) → validate_loop 0 (clean skip s) ≡ true
unfolding clean validate_loop
validate-clean skip [] = refl
validate-clean (suc skip) (x ∷ s) = validate-clean skip s
validate-clean zero (x ∷ s) = elim (Decoded-cases (utf8_to_wc (x ∷ s))) [
  | inl (n, c, e) ↦
      rw (clean_good n c x s e, validate_loop-wc_to_utf8 c (clean (n - 1) s))
        (validate-clean (n - 1) s)
  | inr (n, e) ↦
      rw (clean_bad n x s e, validate_loop-underscores n (clean (n - 1) s))
        (validate-clean (n - 1) s)
]

-- Every character that the decoder accepts from here on stands in its shortest form.
unfoldable pub IsShortest : ℕ → Bytes → Type 0
IsShortest skip [] = Unit
IsShortest (suc skip) (x ∷ s) = IsShortest skip s
IsShortest zero (x ∷ s) = elim (utf8_to_wc (x ∷ s)) [
  | good n c ↦ (n ≡ length (wc_to_utf8 c)) × IsShortest (n - 1) s
  | bad n ↦ IsShortest (n - 1) s
]

leb_refl : (n : ℕ) → leb n n ≡ true
leb_refl n = ground arith

IsShortest-good :
    (n c x : ℕ) (s : Bytes)
    → utf8_to_wc (x ∷ s) ≡ good n c
    → IsShortest 0 (x ∷ s)
    → (n ≡ length (wc_to_utf8 c)) × IsShortest (n - 1) s
unfolding IsShortest
IsShortest-good n c x s e h = rw (IsShortest, e) at h

IsShortest-bad :
    (n x : ℕ) (s : Bytes) → utf8_to_wc (x ∷ s) ≡ bad n → IsShortest 0 (x ∷ s) → IsShortest (n - 1) s
unfolding IsShortest
IsShortest-bad n x s e h = rw (IsShortest, e) at h

insert_at_end : (u t : Bytes) → insert_at (length t) u t ≡ some (t ++ u)
unfolding insert_at
insert_at_end u t = rw (leb_refl (length t), take-length t, drop-length t, append-nil) refl

sanitize_good :
    (n c i x : ℕ) (t s : Bytes)
    → utf8_to_wc (x ∷ s) ≡ good n c
    → sanitize_loop 0 i t (x ∷ s) ≡ sanitize_loop (n - 1) (i + n) (t ++ wc_to_utf8 c) s
unfolding sanitize_loop
sanitize_good n c i x t s e = rw (sanitize_loop, e) refl

sanitize_bad :
    (n x : ℕ) (t s : Bytes)
    → utf8_to_wc (x ∷ s) ≡ bad n
    → sanitize_loop 0 (length t) t (x ∷ s)
      ≡ sanitize_loop (n - 1) (length t + n) (t ++ replicate n underscore) s
unfolding sanitize_loop
sanitize_bad n x t s e = rw (sanitize_loop, e, insert_at_end (replicate n underscore) t) refl

sanitize_loop-clean :
    (skip i : ℕ) (t s : Bytes)
    → IsShortest skip s
    → i ≡ length t
    → sanitize_loop skip i t s ≡ some (t ++ clean skip s)
unfolding sanitize_loop clean IsShortest
sanitize_loop-clean skip i t [] h e = rw append-nil refl
sanitize_loop-clean (suc skip) i t (x ∷ s) h e = sanitize_loop-clean skip i t s h e
sanitize_loop-clean zero i t (x ∷ s) h e = elim (Decoded-cases (utf8_to_wc (x ∷ s))) [
  | inl (n, c, d) ↦
      let k = IsShortest-good n c x s d h in
      rw (sanitize_good n c i x t s d, clean_good n c x s d, ← append_assoc)
        (sanitize_loop-clean (n - 1) (i + n) (t ++ wc_to_utf8 c) s k.1
          (omega (arith, length-append t (wc_to_utf8 c), k.0, e)))
  | inr (n, d) ↦
      rw (e, sanitize_bad n x t s d, clean_bad n x s d, ← append_assoc)
        (sanitize_loop-clean (n - 1) (length t + n) (t ++ replicate n underscore) s
          (IsShortest-bad n x s d h)
          (omega (arith, length-append t (replicate n underscore), length-replicate n underscore)))
]

-- Where every character that the decoder accepts stands in its shortest form, sanitizeUtf8 inserts
-- at no place behind the end and returns a text that validateUtf8 accepts.
pub sanitize_utf8-validate_utf8 :
    (s : Bytes)
    → IsShortest 0 s
    → (t : Bytes) × (sanitize_utf8 s ≡ some t) × (validate_utf8 t ≡ true)
unfolding sanitize_utf8 validate_utf8
sanitize_utf8-validate_utf8 s h =
    (clean 0 s, sanitize_loop-clean 0 0 [] s h refl, validate-clean 0 s)
