-- ===== src/Hash/Merkle/Places.antt =====
-- Where the leaves and the pending blocks of airdcpp/hash/value/MerkleTree.h lie in the file.
use airdcpp_core.Base.{
  Bool-cases, ltb, ltb→lt, ℕ, zero, suc, ◌+◌, ◌-◌, ◌*◌, ◌≤◌, ◌<◌, ◌≡◌, refl, ap, ◌∙◌, List, [], ◌∷◌,
  ◌++◌, min, length, get_elem?, some, arith, inl, inr, ◌⊎◌,
}
use native.Mathlib.Nat.{lt_of_mul-lt-mul_right}
use airdcpp_core.Hash.Merkle.Levels.{mul_mono, one_times, raised_size-mul}
use airdcpp_core.Hash.Merkle.Binary.{
  raised_size, raised, halves, double, parity, half-double, half-suc-double,
}
use airdcpp_core.Hash.Merkle.Reference.{blocks_below}
use airdcpp_core.Hash.Merkle.Joined.{below_suc, next_of}

pub none_left : {i : ℕ} → ¬ (i < 0)
none_left h = omega (arith, h)

pub none_there : ¬ (0 < 0 + 0)
none_there h = omega (arith, h)

pub plus_one : {a b : ℕ} → a ≡ b → a + 1 ≡ suc b
plus_one e = omega (arith, e)

pub last_or : (q n : ℕ) → q < suc n → (q < n) ⊎ (q ≡ n)
last_or q n h = elim (Bool-cases (ltb q n)) [
  | inl e ↦ inl (ltb→lt q n e)
  | inr e ↦ inr (ground (arith, e, h))
]

pub get_elem?-append {ℓ} :
    {V : Type ℓ} (xs : List V) (y : V) (zs : List V) → get_elem? (xs ++ y ∷ zs) (length xs) ≡ some y
get_elem?-append [] y zs = refl
get_elem?-append (x ∷ xs) y zs = get_elem?-append xs y zs

pub halves_low : (j k n : ℕ) → halves j n * blocks_below (raised j k) ≤ n * blocks_below k
halves_low zero k n = omega arith
halves_low (suc j) k n = elim (parity n) [
  | inl (p, e) ↦ rw (e, half-double p) omega (arith, halves_low j (suc k) p, below_suc k p)
  | inr (p, e) ↦
      rw (e, half-suc-double p) omega
        (arith, halves_low j (suc k) p, below_suc k p, next_of (double p) (blocks_below k))
]

pub halves_high :
    (j k n : ℕ) → suc n * blocks_below k ≤ suc (halves j n) * blocks_below (raised j k)
halves_high zero k n = omega arith
halves_high (suc j) k n = elim (parity n) [
  | inl (p, e) ↦
      rw (e, half-double p) omega
        (
          arith,
          halves_high j (suc k) p,
          below_suc k (suc p),
          next_of (suc (double p)) (blocks_below k),
        )
  | inr (p, e) ↦
      rw (e, half-suc-double p) omega (arith, halves_high j (suc k) p, below_suc k (suc p))
]

pub below_of : (q m size : ℕ) → q * size < m * size → q < m
below_of q m size h = lt_of_mul-lt-mul_right size h

pub full_inside : (q m size n : ℕ) → q < m → m * size ≤ n * 1 → size ≡ min size (n - q * size)
full_inside q m size n y le = omega (arith, mul_mono (suc q) m size y, next_of q size, le)

pub last_count :
    (q m size n : ℕ) → q ≡ m → suc n * 1 ≤ suc m * size → n * 1 - m * size ≡ min size (n - q * size)
last_count q m size n w le = omega (arith, ap (λ i. i * size) w, next_of m size, le)

pub positive_of : (m size : ℕ) → 0 < m * size → 0 < m
positive_of zero size h = omega (arith, h)
positive_of (suc m) size h = omega arith

pub zero_times : (n : ℕ) → 0 ≡ 0 * n
zero_times n = omega arith

pub raised_sum : (j k : ℕ) → raised j k ≡ j + k
raised_sum zero k = omega arith
raised_sum (suc j) k = omega (arith, raised_sum j (suc k))

pub raised_zero : (j : ℕ) → j ≡ raised j 0
raised_zero j = omega (arith, raised_sum j 0)

pub leaf_bytes : (j base : ℕ) → raised_size j base ≡ blocks_below (raised j 0) * base
leaf_bytes j base =
    ap (raised_size j) (one_times base)
    ∙ raised_size-mul j 1 base
    ∙ ap (λ k. blocks_below k * base) (raised_zero j)
