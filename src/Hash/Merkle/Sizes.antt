-- ===== src/Hash/Merkle/Sizes.antt =====
-- The block size that `MerkleTree::calcBlockSize` of airdcpp/hash/value/MerkleTree.h chooses.
use airdcpp_core.Base.{
  ℕ, zero, suc, ◌+◌, ◌-◌, ◌*◌, ◌^◌, ◌≤◌, ◌<◌, ◌≡◌, ◌⊎◌, inl, inr, refl, true, false, ltb,
  if◌then◌else◌, arith, Bool-cases, ltb→lt,
}
use airdcpp_core.Hash.Merkle.{calc_block_size_loop, calc_block_size}

-- At most so many blocks of the size cover the file, and half the size would not do.
abbrev pub Fits : ℕ → ℕ → ℕ → ℕ → Type 0
Fits max_hashes file_size size r =
    (file_size ≤ max_hashes * r)
    × ((r ≡ size) ⊎ ((half : ℕ) × ((r ≡ half * 2) × (max_hashes * half < file_size))))

positive_product : (a b : ℕ) → 0 < a → 0 < b → 0 < a * b
positive_product a b h k = grind (arith, h, k)

pow_positive : (n : ℕ) → 0 < 2 ^ n
pow_positive zero = omega arith
pow_positive (suc n) = grind (arith, pow_positive n)

calc_block_size_loop-Fits :
    (n max_hashes file_size size : ℕ)
    → 0 < max_hashes
    → 0 < size
    → file_size ≤ n + max_hashes * size
    → Fits max_hashes file_size size (calc_block_size_loop n max_hashes file_size size)
unfolding calc_block_size_loop
calc_block_size_loop-Fits zero mh fs size h k le = (omega (arith, le), inl refl)
calc_block_size_loop-Fits (suc n) mh fs size h k le =
    go (Bool-cases (ltb (mh * size) fs))
      (calc_block_size_loop-Fits n mh fs (size * 2) h (omega (arith, k)) (enough h k le))
  where
    enough : 0 < mh → 0 < size → fs ≤ suc n + mh * size → fs ≤ n + mh * (size * 2)
    enough h k le = grind (arith, positive_product mh size h k)

    more : ℕ
    more = calc_block_size_loop n mh fs (size * 2)

    doubled : mh * size < fs → Fits mh fs (size * 2) more → Fits mh fs size more
    doubled l (x, inl e) = (x, inr (size, (e, l)))
    doubled l (x, inr y) = (x, inr y)

    go :
        (ltb (mh * size) fs ≡ true) ⊎ (ltb (mh * size) fs ≡ false)
        → Fits mh fs (size * 2) more
        → Fits mh fs size (if ltb (mh * size) fs then more else size)
    go (inl e) f = rw (e) (doubled (ltb→lt (mh * size) fs e) f)
    go (inr e) f = rw (e) (ground (arith, e), inl refl)

-- The block size that calcBlockSize chooses is such that the leaves the levels allow cover the
-- file; it is the least block size, or half of it would not do.
pub calc_block_size-Fits :
    (base file_size max_levels : ℕ)
    → 0 < base
    → Fits (2 ^ (max_levels - 1)) file_size base (calc_block_size base file_size max_levels)
unfolding calc_block_size
calc_block_size-Fits base file_size max_levels h =
    calc_block_size_loop-Fits file_size (2 ^ (max_levels - 1)) file_size base
      (pow_positive (max_levels - 1)) h (omega arith)
