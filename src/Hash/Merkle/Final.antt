-- ===== src/Hash/Merkle/Final.antt =====
-- The root that `MerkleTree::finalize` of airdcpp/hash/value/MerkleTree.h leaves, from the base blocks.
use airdcpp_core.Base.{
  append_assoc, append-nil, length-append, ℕ, zero, suc, ◌+◌, ◌-◌, ◌*◌, ◌≤◌, ◌<◌, ◌≡◌, refl, ap,
  ap₂, sym, ◌∙◌, List, [], ◌∷◌, ◌++◌, min, length, get_elem?, Option, none, some, arith, inl, inr,
  ◌⊎◌, Bytes,
}
use airdcpp_core.Hash.Merkle.{get_hash, finalize, calc_root}
use airdcpp_core.Hash.Merkle.Binary.{raised_size, raised, halves}
use airdcpp_core.Hash.Merkle.Counter.{full, leaves_of, blocks_of, counted, added, added-counted}
use airdcpp_core.Hash.Merkle.Reference.{blocks_below, root_over}
use airdcpp_core.Hash.Merkle.Joined.{joined, joined-root_over, full-root_over}
use airdcpp_core.Hash.Merkle.Whole.{AreLeaves, get_hash-root_over}
use airdcpp_core.Hash.Merkle.Places.{
  none_left, none_there, plus_one, last_or, get_elem?-append, halves_low, halves_high, below_of,
  full_inside, last_count, positive_of, zero_times, leaf_bytes,
}

module _ {ℓ} {V : Type ℓ} (combine : V → V → V) (h : ℕ → V) where
  length-leaves_of : (k n : ℕ) → length (leaves_of combine h k n) ≡ n
  length-leaves_of k zero = refl
  length-leaves_of k (suc n) =
      length-append (leaves_of combine h k n) (full combine h k n ∷ [])
      ∙ plus_one (length-leaves_of k n)

  -- The leaves after finalizing: one more where blocks are pending.
  abbrev closed : List V → Option V → List V
  closed ls none = ls
  closed ls (some v) = ls ++ v ∷ []

  finalize_root :
      (base f size : ℕ) (hash : Bytes → V) (ls : List V) (bs : List (V × ℕ))
      → 0 < length ls + length bs
      → (finalize combine base hash
          (record { blocks = bs; leaves = ls; root = none; file_size = f; block_size = size })).root
        ≡ get_hash combine (suc f) size (closed ls (joined combine h bs)) 0 f
  unfolding finalize calc_root
  finalize_root base f size hash [] [] p = elim (none_there p) [ ]
  finalize_root base f size hash (l ∷ ls) [] p = refl
  finalize_root base f size hash [] (b ∷ bs) p = refl
  finalize_root base f size hash (l ∷ ls) (b ∷ bs) p = refl

  -- In each of the leaves before `q`, and at `q`.
  get_elem?-leaves_of :
      (k n q : ℕ) (rest : List V)
      → q < n
      → get_elem? (leaves_of combine h k n ++ rest) q ≡ some (full combine h k q)
  get_elem?-leaves_of k zero q rest x = elim (none_left x) [ ]
  get_elem?-leaves_of k (suc n) q rest x =
      ap (λ ls. get_elem? ls q)
        (append_assoc (leaves_of combine h k n) (full combine h k n ∷ []) rest)
      ∙ (elim (last_or q n x) [
        | inl y ↦ get_elem?-leaves_of k n q (full combine h k n ∷ rest) y
        | inr e ↦
            ap (get_elem? (leaves_of combine h k n ++ full combine h k n ∷ rest))
              (e ∙ sym (length-leaves_of k n))
            ∙ get_elem?-append (leaves_of combine h k n) (full combine h k n) rest
            ∙ ap (λ i. some (full combine h k i)) (sym e)
      ])

  -- The leaves that are there after finalizing are the roots of their base blocks.
  closed-AreLeaves :
      (base j n : ℕ)
      → AreLeaves combine h base (raised j 0) n (
          closed
            (leaves_of combine h (raised j 0) (halves j n))
            (joined combine h (blocks_of combine h base j 0 n)))
  closed-AreLeaves base j n q x = go (joined-root_over combine h base j 0 n)
    where
      size : ℕ
      size = blocks_below (raised j 0)

      m : ℕ
      m = halves j n

      ls : List V
      ls = leaves_of combine h (raised j 0) m

      inside :
          (rest : List V)
          → q < m
          → get_elem? (ls ++ rest) q
            ≡ some (root_over combine h (q * size) (min size (n - q * size)))
      inside rest y =
          get_elem?-leaves_of (raised j 0) m q rest y
          ∙ ap some (
              full-root_over combine h (raised j 0) q
              ∙ ap (root_over combine h (q * size)) (full_inside q m size n y (halves_low j 0 n)))

      go :
          ((joined combine h (blocks_of combine h base j 0 n) ≡ none) × (n * 1 ≡ m * size))
            ⊎ (joined combine h (blocks_of combine h base j 0 n)
                ≡ some (root_over combine h (m * size) (n * 1 - m * size)))
          → get_elem? (closed ls (joined combine h (blocks_of combine h base j 0 n))) q
            ≡ some (root_over combine h (q * size) (min size (n - q * size)))
      go (inl (e, w)) =
          ap (λ o. get_elem? (closed ls o) q) e
          ∙ ap (λ r. get_elem? r q) (sym (append-nil ls))
          ∙ inside [] (below_of q m size (omega (arith, x, w)))
      go (inr e) =
          ap (λ o. get_elem? (closed ls o) q) e
          ∙ (elim (last_or q m (below_of q (suc m) size (omega (arith, x, halves_high j 0 n)))) [
            | inl y ↦ inside (root_over combine h (m * size) (n * 1 - m * size) ∷ []) y
            | inr w ↦
                ap (get_elem? (ls ++ root_over combine h (m * size) (n * 1 - m * size) ∷ []))
                  (w ∙ sym (length-leaves_of (raised j 0) m))
                ∙ get_elem?-append ls (root_over combine h (m * size) (n * 1 - m * size)) []
                ∙ ap some (
                    ap₂ (root_over combine h) (ap (λ i. i * size) (sym w))
                      (last_count q m size n w (halves_high j 0 n)))
          ])

  joined_there : (bs : List (V × ℕ)) (v : V) → joined combine h bs ≡ some v → 0 < length bs
  joined_there [] v e = ground (arith, e)
  joined_there (b ∷ bs) v e = omega arith

  counted_there :
      (base j n : ℕ)
      → 0 < n
      → 0
        < length (leaves_of combine h (raised j 0) (halves j n))
          + length (blocks_of combine h base j 0 n)
  counted_there base j n p = elim (joined-root_over combine h base j 0 n) [
    | inl (e, w) ↦ omega (
      arith,
      length-leaves_of (raised j 0) (halves j n),
      positive_of (halves j n) (blocks_below (raised j 0)) (omega (arith, w, p)),
    )
    | inr e ↦ omega (arith, joined_there (blocks_of combine h base j 0 n) _ e)
  ]

  -- The root that finalizing leaves is the root over the base blocks, whatever the size of the leaves.
  finalize-root_over :
      (base j n f : ℕ) (hash : Bytes → V)
      → 0 < base
      → 0 < n
      → f ≤ n * base
      → n * base < f + base
      → (finalize combine base hash (record (counted combine h base j n) { file_size = f })).root
        ≡ some (root_over combine h 0 n)
  finalize-root_over base j n f hash b p lo hi =
      let ls = leaves_of combine h (raised j 0) (halves j n) in
      let bs = blocks_of combine h base j 0 n in
      finalize_root base f (raised_size j base) hash ls bs (counted_there base j n p)
      ∙ ap₂ (λ size start. get_hash combine (suc f) size (closed ls (joined combine h bs)) start f)
          (leaf_bytes j base) (zero_times (blocks_below (raised j 0) * base))
      ∙ get_hash-root_over combine h base (raised j 0) n (suc f) 0 n f
          (closed ls (joined combine h bs)) b p (omega arith) lo hi (inl (omega arith))
          (closed-AreLeaves base j n)
      ∙ ap (λ i. some (root_over combine h i n)) (sym (zero_times (blocks_below (raised j 0))))

  -- The root that finalize leaves, after base blocks were added one by one to a tree of any leaf
  -- size that is the base size doubled some times, is the root over the base blocks alone: the leaf
  -- size does not change it. The size of the file is one that the base blocks cover, the last one
  -- not empty.
  pub finalize-added :
      (base j n f : ℕ) (hash : Bytes → V)
      → 0 < base
      → 0 < n
      → f ≤ n * base
      → n * base < f + base
      → (finalize combine base hash
          (record (added combine h base (raised_size j base) n) { file_size = f })).root
        ≡ some (root_over combine h 0 n)
  finalize-added base j n f hash b p lo hi =
      ap (λ t. (finalize combine base hash (record t { file_size = f })).root)
        (added-counted combine h base j n b)
      ∙ finalize-root_over base j n f hash b p lo hi
