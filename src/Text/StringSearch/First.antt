-- ===== src/Text/StringSearch/First.antt =====
-- The search finds the first place where the pattern stands.
use airdcpp_core.Base.{
  ℕ, zero, suc, ◌+◌, ◌-◌, ◌≤◌, ◌<◌, ◌≡◌, refl, sym, ap, subst, ◌∙◌, inl, inr, true, false, Option,
  none, some, [], ◌∷◌, arith, ltb, if◌then◌else◌, ltb→lt, Bool-cases, length, drop, All, Bytes,
}
use native.Mathlib.Nat.{zero-add, suc-add, add-zero, sub-zero, zero-sub}
use airdcpp_core.Text.Utf8.{byte_at}
use airdcpp_core.Text.StringSearch.{Pattern, starts_with, match_loop, match_lower}
use airdcpp_core.Text.StringSearch.Shift.{IsPattern, delta1_positive, delta1_le, delta1_place}

-- The plain search: every position is tried.
unfoldable pub first_from : (left pos : ℕ) → Bytes → Bytes → Option ℕ
first_from zero pos px tx = none
first_from (suc left) pos px tx =
    let rest = first_from left (pos + 1) px (drop 1 tx) in
    if starts_with px tx then some pos else rest

drop_nil : (j : ℕ) → drop {A = ℕ} j [] ≡ []
drop_nil zero = refl
drop_nil (suc j) = refl

drop-drop : (k j : ℕ) (t : Bytes) → drop j (drop k t) ≡ drop (k + j) t
drop-drop zero j t = rw zero-add refl
drop-drop (suc k) j [] = rw (drop_nil j, drop_nil (suc k + j)) refl
drop-drop (suc k) j (x ∷ t) = rw (suc-add) (drop-drop k j t)

byte_at-drop : (j : ℕ) (t : Bytes) → byte_at (drop j (drop 1 t)) ≡ byte_at (drop (suc j) t)
byte_at-drop j [] = rw (drop_nil j) refl
byte_at-drop j (x ∷ t) = refl

starts_with_front :
    (px tx : Bytes) (j : ℕ)
    → All (λ c. 0 < c) px
    → starts_with px tx ≡ true
    → j < length px
    → byte_at (drop j px) ≡ byte_at (drop j tx)
unfolding starts_with
starts_with_front [] tx j z h k = absurd (omega arith)
starts_with_front (zero ∷ px) tx j z h k = absurd (omega (arith, z.0))
starts_with_front (suc x ∷ px) tx zero z h k = ground arith
starts_with_front (suc x ∷ px) tx (suc j) z h k =
    starts_with_front px (drop 1 tx) j z.1 (ground arith) (omega arith) ∙ byte_at-drop j tx

-- A shift passes over no place where the pattern stands.
shift_passes :
    (p : Pattern) (tx : Bytes) (k : ℕ)
    → IsPattern p
    → 0 < k
    → k < p.delta1 (byte_at (drop p.plen tx))
    → starts_with p.pattern (drop k tx) ≡ false
shift_passes p tx k h pos lt = elim (Bool-cases (starts_with p.pattern (drop k tx))) [
  | inr e ↦ e
  | inl e ↦
      let le = delta1_le p (byte_at (drop p.plen tx)) h in
      let same =
        starts_with_front p.pattern (drop k tx) (p.plen - k) h.no_zero e
          (omega (arith, h.noted, h.some_byte)) in
      absurd (
        omega (
          arith,
          lt,
          delta1_place p (p.plen - k) h (omega (arith, h.noted, h.some_byte)),
          ap (λ c. p.delta1 c) (same ∙ ap (λ t. byte_at t) (drop-drop k (p.plen - k) tx)),
          ap (λ j. p.delta1 (byte_at (drop j tx))) (rejoin k p.plen (omega arith)),
        ))
]
  where
    rejoin : (k n : ℕ) → k ≤ n → k + (n - k) ≡ n
    rejoin k n h = omega arith

drop_cong : (j k : ℕ) (t : Bytes) → j ≡ k → drop j t ≡ drop k t
drop_cong j k t e = rw e refl

first_from_cong :
    (n m p q : ℕ) (px s t : Bytes)
    → n ≡ m
    → p ≡ q
    → s ≡ t
    → first_from n p px s ≡ first_from m q px t
first_from_cong n m p q px s t e f g = rw (e, f, g) refl

first_from_jump :
    (s n pos : ℕ) (px tx : Bytes)
    → ((i : ℕ) → i < s → starts_with px (drop i tx) ≡ false)
    → first_from n pos px tx ≡ first_from (n - s) (pos + s) px (drop s tx)
unfolding first_from
first_from_jump zero n pos px tx h = rw (add-zero, sub-zero) refl
first_from_jump (suc s) zero pos px tx h = rw (zero-sub) refl
first_from_jump (suc s) (suc n) pos px tx h = rw (h 0 (omega arith)) (
    first_from_jump s n (pos + 1) px (drop 1 tx) next
    ∙ first_from_cong (n - s) (suc n - suc s) (pos + 1 + s) (pos + suc s) px (drop s (drop 1 tx))
        (drop (suc s) tx) (omega arith) (omega arith)
        (drop-drop 1 s tx ∙ drop_cong (1 + s) (suc s) tx (omega arith)))
  where
    next : (i : ℕ) → i < s → starts_with px (drop i (drop 1 tx)) ≡ false
    next i k = rw (drop-drop 1 i tx) (ends i k)
      where
        ends : (i : ℕ) → i < s → starts_with px (drop (1 + i) tx) ≡ false
        ends i k = h (1 + i) (omega arith)

match_loop-first_from :
    (p : Pattern) (fuel end pos : ℕ) (tx : Bytes)
    → IsPattern p
    → end - pos ≤ fuel
    → match_loop p fuel end pos tx ≡ first_from (end - pos) pos p.pattern tx
unfolding match_loop first_from
match_loop-first_from p zero end pos tx h f = rw (the_zero (end - pos) f) refl
  where
    the_zero : (n : ℕ) → n ≤ 0 → n ≡ 0
    the_zero n h = omega arith
match_loop-first_from p (suc fuel) end pos tx h f = elim (Bool-cases (ltb pos end)) [
  | inr e ↦ rw (e, behind e) refl
  | inl e ↦ elim (Bool-cases (starts_with p.pattern tx)) [
    | inl m ↦ rw (e, m, inside e, first_from, m) refl
    | inr m ↦
        let shift = p.delta1 (byte_at (drop p.plen tx)) in
        rw (e, m)
          (match_loop-first_from p fuel end (pos + shift) (drop shift tx) h (fuel_left e)
            ∙ subst
                (λ n.
                  first_from n (pos + shift) p.pattern (drop shift tx)
                  ≡ first_from (end - pos) pos p.pattern tx)
                (omega arith) (sym (first_from_jump shift (end - pos) pos p.pattern tx (passed m))))
  ]
]
  where
    behind : ltb pos end ≡ false → end - pos ≡ 0
    behind e = ground arith

    inside : ltb pos end ≡ true → end - pos ≡ suc (end - pos - 1)
    inside e = ground arith

    fuel_left : ltb pos end ≡ true → end - (pos + p.delta1 (byte_at (drop p.plen tx))) ≤ fuel
    fuel_left e = omega (arith, ltb→lt pos end e, delta1_positive p (byte_at (drop p.plen tx)) h)

    passed :
        starts_with p.pattern tx ≡ false
        → (i : ℕ) → i < p.delta1 (byte_at (drop p.plen tx))
        → starts_with p.pattern (drop i tx) ≡ false
    passed m zero l = m
    passed m (suc i) l = shift_passes p tx (suc i) h (omega arith) l

-- For a pattern that is neither empty nor of 65,535 bytes or more, holds no zero byte and has the
-- length and the table that its constructor gives it, the search with shifts finds in every text,
-- from every start, exactly the place that trying every position in turn finds, or none where that
-- finds none.
pub match_lower-first_from :
    (p : Pattern) (text : Bytes) (start : ℕ)
    → IsPattern p
    → match_lower p text start
      ≡ first_from (length text + 1 - p.plen - start) start p.pattern (drop start text)
unfolding match_lower first_from
match_lower-first_from p text start h = elim (Bool-cases (ltb (length text - start) p.plen)) [
  | inl e ↦ rw (e, over e) refl
  | inr e ↦
      rw (e, fits e)
        (match_loop-first_from p (length text - p.plen + 1) (length text - p.plen + 1) start
          (drop start text) h (omega arith))
]
  where
    over : ltb (length text - start) p.plen ≡ true → length text + 1 - p.plen - start ≡ 0
    over e = omega (arith, ltb→lt (length text - start) p.plen e)

    fits :
        ltb (length text - start) p.plen ≡ false
        → length text + 1 - p.plen - start ≡ length text - p.plen + 1 - start
    fits e = ground (arith, h.noted, h.some_byte)
