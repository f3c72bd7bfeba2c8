-- ===== src/Hash/Merkle/Binary.antt =====
-- Halving, parity and block sizes: the numbers behind the blocks of airdcpp/hash/value/MerkleTree.h.
use airdcpp_core.Base.{
  ◌⊎◌, ℕ, zero, suc, ◌*◌, ◌<◌, ◌≡◌, refl, ap, Bool, true, false, List, [], ◌∷◌, ltb, ◌==◌, arith,
  inl, inr,
}

abbrev pub half : ℕ → ℕ
half zero = zero
half (suc zero) = zero
half (suc (suc n)) = suc (half n)

abbrev pub odd : ℕ → Bool
odd zero = false
odd (suc zero) = true
odd (suc (suc n)) = odd n

-- Half, as many times.
abbrev pub halves : ℕ → ℕ → ℕ
halves zero n = n
halves (suc j) n = halves j (half n)

-- The size of a block of a level.
abbrev pub level_size : ℕ → ℕ → ℕ
level_size base zero = base
level_size base (suc k) = level_size base k * 2

abbrev pub double : ℕ → ℕ
double zero = zero
double (suc n) = suc (suc (double n))

pub half-double : (p : ℕ) → half (double p) ≡ p
half-double zero = refl
half-double (suc p) = ap suc (half-double p)

pub half-suc-double : (p : ℕ) → half (suc (double p)) ≡ p
half-suc-double zero = refl
half-suc-double (suc p) = ap suc (half-suc-double p)

pub odd-double : (p : ℕ) → odd (double p) ≡ false
odd-double zero = refl
odd-double (suc p) = odd-double p

pub odd-suc-double : (p : ℕ) → odd (suc (double p)) ≡ true
odd-suc-double zero = refl
odd-suc-double (suc p) = odd-suc-double p

-- A count is even or odd.
pub parity : (n : ℕ) → ((p : ℕ) × (n ≡ double p)) ⊎ ((p : ℕ) × (n ≡ suc (double p)))
parity zero = inl (zero, refl)
parity (suc zero) = inr (zero, refl)
parity (suc (suc n)) = go (parity n)
  where
    go :
        ((p : ℕ) × (n ≡ double p)) ⊎ ((p : ℕ) × (n ≡ suc (double p)))
        → ((p : ℕ) × (suc (suc n) ≡ double p)) ⊎ ((p : ℕ) × (suc (suc n) ≡ suc (double p)))
    go (inl (p, e)) = inl (suc p, ap (λ k. suc (suc k)) e)
    go (inr (p, e)) = inr (suc p, ap (λ k. suc (suc k)) e)

pub level_size_positive : (base k : ℕ) → 0 < base → 0 < level_size base k
level_size_positive base zero h = h
level_size_positive base (suc k) h = omega (arith, level_size_positive base k h)

-- The size of a block `j` levels up, and that level.
abbrev pub raised_size : ℕ → ℕ → ℕ
raised_size zero size = size
raised_size (suc j) size = raised_size j (size * 2)

abbrev pub raised : ℕ → ℕ → ℕ
raised zero k = k
raised (suc j) k = raised j (suc k)

pub raised_size_grows : (j size : ℕ) → 0 < size → size < raised_size (suc j) size
raised_size_grows zero size h = omega (arith, h)
raised_size_grows (suc j) size h =
    omega (arith, h, raised_size_grows j (size * 2) (omega (arith, h)))

-- The block that is next to be merged with is larger.
abbrev pub Larger {ℓ} : {V : Type ℓ} → ℕ → List (V × ℕ) → Type 0
Larger size [] = Unit
Larger size (b ∷ bs) = size < b.1

pub gt_differs : (a b : ℕ) → a < b → (b == a) ≡ false
gt_differs a b h = ground (arith, h)

pub lt_irrefl : (a : ℕ) → ltb a a ≡ false
lt_irrefl a = ground arith

pub lt_differs : (a b : ℕ) → a < b → (a == b) ≡ false
lt_differs a b h = ground (arith, h)

pub not_below : {n : ℕ} → ¬ (n < 0)
not_below h = omega (arith, h)

pub below_suc : (n : ℕ) → n < suc n
below_suc n = omega arith
