-- ===== src/Hash/Merkle/Whole.antt =====
-- The root of `MerkleTree` of airdcpp/hash/value/MerkleTree.h over leaves of any size.
use airdcpp_core.Base.{
  ℕ, zero, suc, ◌+◌, ◌-◌, ◌*◌, ◌≤◌, ◌<◌, ◌≡◌, ap, ap₂, sym, ◌∙◌, true, false, List, leb, min,
  get_elem?, some, arith, Bool-cases, inl, inr, ◌⊎◌, leb→le,
}
use native.Mathlib.Nat.{div-eq_of_lt-le}
use airdcpp_core.Hash.Merkle.{get_hash, split_at}
use airdcpp_core.Hash.Merkle.Binary.{raised_size}
use airdcpp_core.Hash.Merkle.Reference.{
  raised_size_least, blocks_below, root_over, root_over-add, split_at-raised_size,
}
use airdcpp_core.Hash.Merkle.Root.{get_hash_split, next_place, add_mul, mul_positive}
use airdcpp_core.Hash.Merkle.Levels.{
  raised_size-mul, levels, raised_size-levels, never_below, level_grows, find_level, one_leaf,
  le→leb, leb_no, one_times, mul_mono, times_base, below_mul, sums, twice, sub_mul, long_part,
}

module _ {ℓ} {V : Type ℓ} (combine : V → V → V) (h : ℕ → V) (base k total : ℕ) where
  abbrev pub leaf : ℕ
  leaf = blocks_below k

  -- Each leaf is the root over its base blocks, the last one over those that are left.
  abbrev pub AreLeaves : List V → Type ℓ
  AreLeaves ls =
      (q : ℕ)
      → q * blocks_below k < total
      → get_elem? ls q
        ≡ some (
            root_over combine h (q * blocks_below k)
              (min (blocks_below k) (total - q * blocks_below k)))

  -- A part that ends with the file, or at a leaf.
  abbrev pub Ends : ℕ → ℕ → Type 0
  Ends q c = (q * leaf + c ≡ total) ⊎ ((a : ℕ) × ((c ≡ a * leaf) × (q * leaf + c ≤ total)))

  leaf_size :
      (q c : ℕ)
      → 0 < c
      → c ≤ leaf
      → Ends q c
      → (q * leaf < total) × (min leaf (total - q * leaf) ≡ c)
  leaf_size q c p le (inl e) = (omega (arith, p, e), omega (arith, le, e))
  leaf_size q c p le (inr (a, (e, b))) =
      (omega (arith, p, b), omega (arith, one_leaf a c leaf p le e, b))

  get_hash-leaf :
      (n q len : ℕ) (ls : List V) (v : V)
      → 0 < base
      → len ≤ leaf * base
      → get_elem? ls q ≡ some v
      → get_hash combine (suc n) (leaf * base) ls (q * (leaf * base)) len ≡ some v
  unfolding get_hash
  get_hash-leaf n q len ls v b le e =
      rw (get_hash, le→leb len (leaf * base) le)
        (ap (get_elem? ls) (
            div-eq_of_lt-le (leaf * base) (omega arith)
              (next_place q (leaf * base) (mul_positive leaf base (raised_size_least k 1) b)))
          ∙ e)

  Ends-within : (q c : ℕ) → Ends q c → q * leaf + c ≤ total
  Ends-within q c (inl e) = omega (arith, e)
  Ends-within q c (inr (a, (e, b))) = b

  Ends-rest : (q a c half : ℕ) → half ≡ a * leaf → half < c → Ends q c → Ends (q + a) (c - half)
  Ends-rest q a c half w l (inl e) = inl (omega (arith, e, w, l, add_mul q a leaf))
  Ends-rest q a c half w l (inr (d, (e, b))) =
      inr (d - a, (omega (arith, e, w, sub_mul d a leaf), omega (arith, b, w, l, add_mul q a leaf)))

  start_of :
      (q a half base : ℕ)
      → half ≡ a * leaf
      → q * (leaf * base) + half * base ≡ (q + a) * (leaf * base)
  start_of q a half base w =
      ap (λ i. q * (leaf * base) + i) (ap (λ i. i * base) w ∙ sym (times_base a leaf base))
      ∙ sym (add_mul q a (leaf * base))

  split_bytes :
      (t len : ℕ)
      → 0 < base
      → raised_size t leaf * base < len
      → len ≤ raised_size t leaf * base * 2
      → split_at combine len (leaf * base) len ≡ raised_size t leaf * base
  split_bytes t len b lo hi =
      let size = raised_size-mul t leaf base in
      let pos = mul_positive leaf base (raised_size_least k 1) b in
      split_at-raised_size combine h len t (leaf * base) len pos
        (omega (arith, level_grows t (leaf * base) pos, size, lo)) (omega (arith, size, lo))
        (omega (arith, size, hi))
      ∙ size

  split_root :
      (t i r b c : ℕ)
      → b ≡ blocks_below (levels k t)
      → 0 < r
      → r ≤ b
      → c ≡ b + r
      → combine (root_over combine h i b) (root_over combine h (i + b) r) ≡ root_over combine h i c
  split_root t i r b c e p le s =
      ap₂ combine (ap (root_over combine h i) e) (ap (λ x. root_over combine h (i + x) r) e)
      ∙ sym (root_over-add combine h (levels k t) i r p (omega (arith, le, e)))
      ∙ ap (root_over combine h i) (sums b c r (blocks_below (levels k t)) s e)

  -- Over leaves that are the roots of their base blocks, getHash of a part in bytes, with fuel
  -- above its length, is the root over the base blocks of the part, whatever the size of the
  -- leaves, if the part ends with the file or is a number of whole leaves.
  pub get_hash-root_over :
      (n q c len : ℕ) (ls : List V)
      → 0 < base
      → 0 < c
      → len < n
      → len ≤ c * base
      → c * base < len + base
      → Ends q c
      → AreLeaves ls
      → get_hash combine n (leaf * base) ls (q * (leaf * base)) len
        ≡ some (root_over combine h (q * leaf) c)
  get_hash-root_over zero q c len ls b p x lo hi e are =
      elim (never_below len (omega (arith, x))) [ ]
  get_hash-root_over (suc n) q c len ls b p x lo hi e are =
      go (Bool-cases (leb c leaf)) (λ q c len. get_hash-root_over n q c len ls b)
    where
      go :
          (leb c leaf ≡ true) ⊎ (leb c leaf ≡ false)
          → ((q c len : ℕ)
              → 0 < c
              → len < n
              → len ≤ c * base
              → c * base < len + base
              → Ends q c
              → AreLeaves ls
              → get_hash combine n (leaf * base) ls (q * (leaf * base)) len
                ≡ some (root_over combine h (q * leaf) c))
          → get_hash combine (suc n) (leaf * base) ls (q * (leaf * base)) len
            ≡ some (root_over combine h (q * leaf) c)
      go (inl w) ih =
          let le : c ≤ leaf = leb→le c leaf w in
          let (inside, size) = leaf_size q c p le e in
          get_hash-leaf n q len ls (root_over combine h (q * leaf) c) b
            (omega (arith, lo, mul_mono c leaf base le))
            (are q inside ∙ ap (λ i. some (root_over combine h (q * leaf) i)) size)
      go (inr w) ih =
          let (t, (below, above)) =
            find_level c leaf c (raised_size_least k 1) (leb_no c leaf w) (omega arith) in
          let half = raised_size t leaf in
          let a = blocks_below t in
          let whole : half ≡ a * leaf =
            ap (raised_size t) (one_times leaf) ∙ raised_size-mul t 1 leaf in
          let bytes : half * base < len = below_mul half c base len below hi in
          let r = c - half in
          let parts : c ≡ half + r = omega (arith, below) in
          let weight = add_mul half r base in
          let weight_of : c * base ≡ (half + r) * base = ap (λ i. i * base) parts in
          let pos_half : 0 < half = omega (arith, level_grows t leaf (raised_size_least k 1)) in
          get_hash_split combine n (leaf * base) (q * (leaf * base)) len (half * base) ls
            (root_over combine h (q * leaf) half) (root_over combine h ((q + a) * leaf) r)
            (long_part leaf half base len (raised_size_least t leaf) bytes)
            (split_bytes t len b bytes
              (omega (arith, lo, mul_mono c (half * 2) base above, twice half base)))
            (ih q half (half * base) pos_half (omega (arith, bytes, x)) (omega arith)
              (omega (arith, b)) (inr (a, (whole, omega (arith, Ends-within q c e, below)))) are)
            (ap (λ i. get_hash combine n (leaf * base) ls i (len - half * base))
                (start_of q a half base whole)
              ∙ ih (q + a) r (len - half * base) (omega (arith, below))
                  (omega (arith, x, bytes, mul_positive half base pos_half b))
                  (omega (arith, lo, weight, weight_of))
                  (omega (arith, hi, weight, weight_of, bytes)) (Ends-rest q a c half whole below e)
                  are)
          ∙ ap some (
              ap (λ i. combine (root_over combine h (q * leaf) half) (root_over combine h i r))
                (add_mul q a leaf ∙ ap (λ i. q * leaf + i) (sym whole))
              ∙ split_root t (q * leaf) r half c (raised_size-levels k t 1) (omega (arith, below))
                  (omega (arith, above)) parts)
