-- ===== src/Hash/Merkle/Counter.antt =====
-- The blocks that `MerkleTree` of airdcpp/hash/value/MerkleTree.h holds while data is added: they
-- count the base blocks in binary.
use airdcpp_core.Base.{
  ◌⊎◌, sym, lt→ltb, subst, ==_refl, ℕ, zero, suc, ◌*◌, ◌<◌, ◌≡◌, refl, ap, ◌∙◌, List, [], ◌∷◌, ◌++◌,
  if◌then◌else◌, length, none, arith, inl, inr,
}
use airdcpp_core.Hash.Merkle.Binary.{
  half, odd, halves, level_size, double, half-double, half-suc-double, odd-double, odd-suc-double,
  parity, level_size_positive, raised_size, raised, raised_size_grows, Larger, gt_differs,
  lt_irrefl, lt_differs, not_below, below_suc,
}
use airdcpp_core.Hash.Merkle.{MerkleTree, reduce_blocks, add_hash}

module _ {ℓ} {V : Type ℓ} (combine : V → V → V) (h : ℕ → V) where
  -- The value of the full tree of a level over the base blocks, by its place among those of its level.
  abbrev pub full : ℕ → ℕ → V
  full zero i = h i
  full (suc k) i = combine (full k (double i)) (full k (suc (double i)))

  abbrev pub leaves_of : ℕ → ℕ → List V
  leaves_of k zero = []
  leaves_of k (suc n) = leaves_of k n ++ full k n ∷ []

  -- A block for each binary digit of the count that is set, from level `k` on, of `j` levels.
  abbrev pub blocks_of : ℕ → ℕ → ℕ → ℕ → List (V × ℕ)
  blocks_of base zero k m = []
  blocks_of base (suc j) k m =
      let more = blocks_of base j (suc k) (half m) in
      if odd m then (full k (double (half m)), level_size base k) ∷ more else more

  pub blocks_of-double :
      (base j k p : ℕ) → blocks_of base (suc j) k (double p) ≡ blocks_of base j (suc k) p
  blocks_of-double base j k p = rw (odd-double p, half-double p) refl

  pub blocks_of-suc-double :
      (base j k p : ℕ)
      → blocks_of base (suc j) k (suc (double p))
        ≡ (full k (double p), level_size base k) ∷ blocks_of base j (suc k) p
  blocks_of-suc-double base j k p = rw (odd-suc-double p, half-suc-double p) refl

  blocks_of-Larger :
      (base j k m size : ℕ)
      → 0 < base
      → size < level_size base k
      → Larger size (blocks_of base j k m)
  blocks_of-Larger base zero k m size pos h = tt
  blocks_of-Larger base (suc j) k m size pos h = elim (parity m) [
    | inl (p, e) ↦
        rw (e, blocks_of-double base j k p)
          (blocks_of-Larger base j (suc k) p size pos (omega (arith, h)))
    | inr (p, e) ↦ rw (e, blocks_of-suc-double base j k p) h
  ]

  reduce_blocks-Larger :
      (n size : ℕ) (ls : List V) (b : V × ℕ) (bs : List (V × ℕ))
      → Larger b.1 bs
      → reduce_blocks combine n size ls (b ∷ bs) ≡ (ls, b ∷ bs)
  unfolding reduce_blocks
  reduce_blocks-Larger zero size ls b bs h = refl
  reduce_blocks-Larger (suc n) size ls b [] h = refl
  reduce_blocks-Larger (suc n) size ls b (a ∷ bs) h = rw (gt_differs b.1 a.1 h) refl

  reduce_blocks-nil : (n size : ℕ) (ls : List V) → reduce_blocks combine n size ls [] ≡ (ls, [])
  unfolding reduce_blocks
  reduce_blocks-nil zero size ls = refl
  reduce_blocks-nil (suc n) size ls = refl

  -- Two blocks of one size become a leaf, or a block.
  reduce_blocks_leaf :
      (n s : ℕ) (ls : List V) (a b : V) (bs : List (V × ℕ))
      → reduce_blocks combine (suc n) (s * 2) ls ((b, s) ∷ (a, s) ∷ bs)
        ≡ reduce_blocks combine n (s * 2) (ls ++ combine a b ∷ []) bs
  unfolding reduce_blocks
  reduce_blocks_leaf n s ls a b bs = rw (==_refl s, ==_refl (s * 2)) refl

  reduce_blocks_merge :
      (n s size : ℕ) (ls : List V) (a b : V) (bs : List (V × ℕ))
      → s * 2 < size
      → reduce_blocks combine (suc n) size ls ((b, s) ∷ (a, s) ∷ bs)
        ≡ reduce_blocks combine n size ls ((combine a b, s * 2) ∷ bs)
  unfolding reduce_blocks
  reduce_blocks_merge n s size ls a b bs h = rw (==_refl s, lt_differs (s * 2) size h) refl

  -- What carrying one more block of level `k` through the blocks from that level on comes to.
  abbrev pub Carries : ℕ → ℕ → ℕ → ℕ → ℕ → Type ℓ
  Carries base n j k m =
      reduce_blocks combine n (raised_size j (level_size base k))
        (leaves_of (raised j k) (halves j m)) ((full k m, level_size base k) ∷ blocks_of base j k m)
      ≡ (leaves_of (raised j k) (halves j (suc m)), blocks_of base j k (suc m))

  carry_even : (base n j k p : ℕ) → 0 < base → Carries base n (suc j) k (double p)
  carry_even base n j k p pos =
      rw (odd-double p, half-double p, odd-suc-double p, half-suc-double p)
        (reduce_blocks-Larger n _ _ _ (blocks_of base j (suc k) p) (
          blocks_of-Larger base j (suc k) p (level_size base k) pos
            (omega (arith, level_size_positive base k pos))))

  carry_last : (base n k p : ℕ) → Carries base (suc n) 1 k (suc (double p))
  carry_last base n k p =
      rw (odd-double p, half-double p, odd-suc-double p, half-suc-double p)
        (reduce_blocks_leaf n (level_size base k) (leaves_of (suc k) p) (full k (double p))
            (full k (suc (double p))) []
          ∙ reduce_blocks-nil n _ _)

  carry_on :
      (base n j k p : ℕ)
      → 0 < base
      → Carries base n (suc j) (suc k) p
      → Carries base (suc n) (suc (suc j)) k (suc (double p))
  carry_on base n j k p pos ih =
      rw (odd-double p, half-double p, odd-suc-double p, half-suc-double p)
        (reduce_blocks_merge n (level_size base k) (raised_size (suc j) (level_size base (suc k)))
            (leaves_of (raised (suc j) (suc k)) (halves (suc j) p)) (full k (double p))
            (full k (suc (double p))) (blocks_of base (suc j) (suc k) p)
            (raised_size_grows j (level_size base (suc k)) (level_size_positive base (suc k) pos))
          ∙ ih)

  -- A block of the next place of a level is carried through the blocks that are there.
  reduce_blocks-blocks_of :
      (base n j k m : ℕ)
      → 0 < base
      → length (blocks_of base (suc j) k m) < n
      → Carries base n (suc j) k m
  reduce_blocks-blocks_of base zero j k m pos h = elim (not_below h) [ ]
  reduce_blocks-blocks_of base (suc n) zero k m pos h = elim (parity m) [
    | inl (p, e) ↦ rw (e) (carry_even base (suc n) zero k p pos)
    | inr (p, e) ↦ rw (e) (carry_last base n k p)
  ]
  reduce_blocks-blocks_of base (suc n) (suc j) k m pos h =
      go (parity m) (λ p. reduce_blocks-blocks_of base n j (suc k) p pos)
    where
      go :
          ((p : ℕ) × (m ≡ double p)) ⊎ ((p : ℕ) × (m ≡ suc (double p)))
          → ((p : ℕ)
              → length (blocks_of base (suc j) (suc k) p) < n
              → Carries base n (suc j) (suc k) p)
          → Carries base (suc n) (suc (suc j)) k m
      go (inl (p, e)) ih = rw (e) (carry_even base (suc n) (suc j) k p pos)
      go (inr (p, e)) ih = rw (e) (carry_on base n j k p pos (ih p (shorter p e)))
        where
          shorter : (p : ℕ) → m ≡ suc (double p) → length (blocks_of base (suc j) (suc k) p) < n
          shorter p e = omega (
            arith,
            subst (λ bs. length bs < suc n) (blocks_of-suc-double base (suc j) k p)
                (subst (λ x. length (blocks_of base (suc (suc j)) k x) < suc n) e h),
          )

  -- The tree after `n` base blocks whose leaves are `j` levels above them.
  abbrev pub counted : ℕ → ℕ → ℕ → MerkleTree V
  counted base j n = record {
    blocks = blocks_of base j 0 n;
    leaves = leaves_of (raised j 0) (halves j n);
    root = none;
    file_size = 0;
    block_size = raised_size j base;
  }

  -- The tree that the base blocks are added to one by one.
  abbrev pub added : ℕ → ℕ → ℕ → MerkleTree V
  added base size zero = record {
    blocks = [];
    leaves = [];
    root = none;
    file_size = 0;
    block_size = size;
  }
  added base size (suc n) = add_hash combine base (h n) (added base size n)

  add_hash-counted :
      (base j n : ℕ)
      → 0 < base
      → add_hash combine base (h n) (counted base j n) ≡ counted base j (suc n)
  unfolding add_hash
  add_hash-counted base zero n pos = rw (lt_irrefl base) refl
  add_hash-counted base (suc j) n pos =
      rw (lt→ltb base (raised_size (suc j) base) (raised_size_grows j base pos)) (
        ap
          (λ (r : List V × List (V × ℕ)). record (counted base (suc j) n) {
            leaves = r.0;
            blocks = r.1;
          })
          (reduce_blocks-blocks_of base (suc (length (blocks_of base (suc j) 0 n))) j 0 n pos
            (below_suc _)))

  halves-zero : (j : ℕ) → halves j 0 ≡ 0
  halves-zero zero = refl
  halves-zero (suc j) = halves-zero j

  blocks_of-zero : (base j k : ℕ) → blocks_of base j k 0 ≡ []
  blocks_of-zero base zero k = refl
  blocks_of-zero base (suc j) k = blocks_of-zero base j (suc k)

  -- A tree to which base blocks are added one by one is the tree that their number says: a leaf for
  -- each full subtree of the leaves' level, with the root of that subtree over the base blocks, and
  -- a pending block for each binary digit of the rest.
  pub added-counted :
      (base j n : ℕ) → 0 < base → added base (raised_size j base) n ≡ counted base j n
  added-counted base j zero pos = rw (blocks_of-zero base j 0) (
      ap (λ m. record (counted base j 0) { blocks = []; leaves = leaves_of (raised j 0) m })
        (sym (halves-zero j)))
  added-counted base j (suc n) pos =
      ap (add_hash combine base (h n)) (added-counted base j n pos) ∙ add_hash-counted base j n pos
