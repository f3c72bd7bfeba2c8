-- ===== src/Hash/Merkle/Reference.antt =====
-- The root over the base blocks alone, and what the subtrees of `MerkleTree` of
-- airdcpp/hash/value/MerkleTree.h are of it.
use airdcpp_core.Base.{
  ℕ, zero, suc, ◌+◌, ◌-◌, ◌*◌, ◌≤◌, ◌<◌, ◌≡◌, refl, ap, ap₂, ◌∙◌, true, false, ltb, leb,
  if◌then◌else◌, arith, Bool-cases, inl, inr, ◌⊎◌, lt→ltb,
}
use airdcpp_core.Hash.Merkle.{split_at}
use airdcpp_core.Hash.Merkle.Binary.{raised_size}
use airdcpp_core.Hash.Merkle.Root.{split_at-leaves}

pub raised_size-double : (k l : ℕ) → raised_size k (l * 2) ≡ raised_size k l * 2
raised_size-double zero l = refl
raised_size-double (suc k) l = raised_size-double k (l * 2)

pub raised_size_least : (k l : ℕ) → l ≤ raised_size k l
raised_size_least zero l = omega arith
raised_size_least (suc k) l = omega (arith, raised_size_least k (l * 2))

-- How many base blocks a subtree of a level has.
abbrev pub blocks_below : ℕ → ℕ
blocks_below k = raised_size k 1

level_below : (k : ℕ) → k < blocks_below k
level_below zero = omega arith
level_below (suc k) = omega (arith, level_below k, raised_size-double k 1)

not_ltb : (a b : ℕ) → b ≤ a → ltb a b ≡ false
not_ltb a b h = ground (arith, h)

leb_one : (c : ℕ) → c ≤ 1 → leb c 1 ≡ true
leb_one c h = ground (arith, h)

leb_two : (c : ℕ) → 1 < c → leb c 1 ≡ false
leb_two c h = ground (arith, h)

leb-false : (a b : ℕ) → leb a b ≡ false → b < a
leb-false a b h = ground (arith, h)

module _ {ℓ} {V : Type ℓ} (combine : V → V → V) (h : ℕ → V) where
  pub split_at-raised_size :
      (n d l len : ℕ)
      → 0 < l
      → d ≤ n
      → raised_size d l < len
      → len ≤ raised_size d l * 2
      → split_at combine n l len ≡ raised_size d l
  unfolding split_at
  split_at-raised_size zero zero l len p dn lo hi = refl
  split_at-raised_size (suc n) zero l len p dn lo hi = rw (not_ltb (l * 2) len hi) refl
  split_at-raised_size zero (suc d) l len p dn lo hi = omega (arith, dn)
  split_at-raised_size (suc n) (suc d) l len p dn lo hi =
      rw (lt→ltb (l * 2) len (omega (arith, raised_size_least d (l * 2), lo)))
        (split_at-raised_size n d (l * 2) len (omega (arith, p)) (omega (arith, dn)) lo hi)

  -- The root over `c` base blocks from the place `i` on: the largest power of two below `c` goes to the
  -- left. The count is fuel enough.
  abbrev pub root_loop : ℕ → ℕ → ℕ → V
  root_loop zero i c = h i
  root_loop (suc n) i c =
      let l = split_at combine c 1 c in
      let left = root_loop n i l in
      let right = root_loop n (i + l) (c - l) in if leb c 1 then h i else combine left right

  abbrev pub root_over : ℕ → ℕ → V
  root_over i c = root_loop c i c

  split_at_inside : (c : ℕ) → 1 < c → (0 < split_at combine c 1 c) × (split_at combine c 1 c < c)
  split_at_inside c more =
      let (b, (at, (pos, less))) =
        split_at-leaves combine c 1 1 c (omega arith) (omega (arith, more)) in
      (omega (arith, at, pos), omega (arith, at, less))

  pub root_loop_fuel : (n m i c : ℕ) → c ≤ suc n → c ≤ suc m → root_loop n i c ≡ root_loop m i c
  root_loop_fuel zero zero i c x y = refl
  root_loop_fuel zero (suc m) i c x y = rw (leb_one c x) refl
  root_loop_fuel (suc n) zero i c x y = rw (leb_one c y) refl
  root_loop_fuel (suc n) (suc m) i c x y =
      go (Bool-cases (leb c 1)) (root_loop_fuel n m i l) (root_loop_fuel n m (i + l) (c - l))
    where
      l : ℕ
      l = split_at combine c 1 c

      go :
          (leb c 1 ≡ true) ⊎ (leb c 1 ≡ false)
          → (l ≤ suc n → l ≤ suc m → root_loop n i l ≡ root_loop m i l)
          → (c - l ≤ suc n
              → c - l ≤ suc m
              → root_loop n (i + l) (c - l) ≡ root_loop m (i + l) (c - l))
          → (if leb c 1 then h i else combine (root_loop n i l) (root_loop n (i + l) (c - l)))
            ≡ (if leb c 1 then h i else combine (root_loop m i l) (root_loop m (i + l) (c - l)))
      go (inl e) left right = rw (e) refl
      go (inr e) left right =
          let (pos, less) = split_at_inside c (leb-false c 1 e) in
          rw (e) (
            ap₂ combine (left (omega (arith, less, x)) (omega (arith, less, y)))
              (right (omega (arith, pos, x)) (omega (arith, pos, y))))

  root_step :
      (n i c l : ℕ)
      → leb c 1 ≡ false
      → split_at combine c 1 c ≡ l
      → root_loop (suc n) i c ≡ combine (root_loop n i l) (root_loop n (i + l) (c - l))
  root_step n i c l e at =
      rw (root_loop, e) (ap (λ k. combine (root_loop n i k) (root_loop n (i + k) (c - k))) at)

  -- A full subtree and what follows it, if that is not more.
  pub root_over-add :
      (k i c : ℕ)
      → 0 < c
      → c ≤ blocks_below k
      → root_over i (blocks_below k + c)
        ≡ combine (root_over i (blocks_below k)) (root_over (i + blocks_below k) c)
  root_over-add k i c p h =
      let b = blocks_below k in
      let one : 1 ≤ b = raised_size_least k 1 in
      let at : split_at combine (b + c) 1 (b + c) ≡ b =
        split_at-raised_size (b + c) k 1 (b + c) (omega arith) (omega (arith, level_below k))
          (omega (arith, p)) (omega (arith, h)) in
      root_loop_fuel (b + c) (suc (b + c)) i (b + c) (omega arith) (omega arith)
      ∙ root_step (b + c) i (b + c) b (leb_two (b + c) (omega (arith, p, one))) at
      ∙ ap₂ combine (root_loop_fuel (b + c) b i b (omega arith) (omega arith)) (
          ap (root_loop (b + c) (i + b)) (omega arith)
          ∙ root_loop_fuel (b + c) c (i + b) c (omega arith) (omega arith))
