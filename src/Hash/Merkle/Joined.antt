-- ===== src/Hash/Merkle/Joined.antt =====
-- What the leaves of `MerkleTree` of airdcpp/hash/value/MerkleTree.h are, the last one that `finalize`
-- joins from the pending blocks included.
use airdcpp_core.Base.{
  ℕ, zero, suc, ◌+◌, ◌-◌, ◌*◌, ◌≤◌, ◌<◌, ◌≡◌, refl, ap, ap₂, sym, subst, ◌∙◌, List, [], ◌∷◌, Option,
  none, some, arith, inl, inr, ◌⊎◌,
}
use airdcpp_core.Hash.Merkle.{join_blocks}
use airdcpp_core.Hash.Merkle.Binary.{
  raised, double, halves, parity, level_size, half-double, half-suc-double,
}
use airdcpp_core.Hash.Merkle.Counter.{full, blocks_of, blocks_of-double, blocks_of-suc-double}
use airdcpp_core.Hash.Merkle.Reference.{
  raised_size-double, raised_size_least, blocks_below, root_over, root_over-add,
}

double_two : (p : ℕ) → double p ≡ p * 2
double_two zero = refl
double_two (suc p) = omega (arith, double_two p)

two_right : (p b : ℕ) → p * (b * 2) ≡ p * 2 * b
two_right p b = grind arith

double_mul : (p b : ℕ) → p * (b * 2) ≡ double p * b
double_mul p b = two_right p b ∙ ap (λ k. k * b) (sym (double_two p))

cancel_add : (a c : ℕ) → c ≡ a + c - a
cancel_add a c = omega arith

-- The place of a subtree among those of the next level.
pub below_suc : (k p : ℕ) → p * blocks_below (suc k) ≡ double p * blocks_below k
below_suc k p = ap (λ b. p * b) (raised_size-double k 1) ∙ double_mul p (blocks_below k)

pub next_of : (n b : ℕ) → suc n * b ≡ n * b + b
next_of n b = grind arith

ends :
    (k p c : ℕ)
    → p * blocks_below (suc k) + (blocks_below k + c) ≡ suc (double p) * blocks_below k + c
ends k p c = omega (arith, below_suc k p, next_of (double p) (blocks_below k))

ends_full : (k p : ℕ) → p * blocks_below (suc k) + blocks_below k ≡ suc (double p) * blocks_below k
ends_full k p = omega (arith, below_suc k p, next_of (double p) (blocks_below k))

module _ {ℓ} {V : Type ℓ} (combine : V → V → V) (h : ℕ → V) where
  -- A leaf, and every block, is the root over its base blocks.
  pub full-root_over :
      (k q : ℕ) → full combine h k q ≡ root_over combine h (q * blocks_below k) (blocks_below k)
  full-root_over zero q = ap h (omega arith)
  full-root_over (suc k) q =
      let b = blocks_below k in
      let pos : 0 < b = raised_size_least k 1 in
      let two : blocks_below (suc k) ≡ b + b = omega (arith, raised_size-double k 1) in
      ap₂ combine (full-root_over k (double q)) (
        full-root_over k (suc (double q))
        ∙ ap (λ i. root_over combine h i b) (next_of (double q) b))
      ∙ sym (root_over-add combine h k (double q * b) b pos (omega arith))
      ∙ ap₂ (root_over combine h) (sym (below_suc k q)) (sym two)

  -- What joining the blocks from level `k` on to the root over `c` base blocks comes to.
  abbrev Joins : ℕ → ℕ → ℕ → ℕ → ℕ → V → ℕ → Type ℓ
  Joins base j k m c v s =
      v ≡ root_over combine h (m * blocks_below k) c
      → (join_blocks combine (v, s) (blocks_of combine h base j k m)).0
        ≡ root_over combine h (halves j m * blocks_below (raised j k))
            (m * blocks_below k + c - halves j m * blocks_below (raised j k))

  join_even :
      (base j k p c : ℕ) (v : V) (s : ℕ)
      → Joins base j (suc k) p c v s
      → Joins base (suc j) k (double p) c v s
  join_even base j k p c v s ih e =
      rw (blocks_of-double combine h base j k p, half-double p)
        (ih (e ∙ ap (λ i. root_over combine h i c) (sym (below_suc k p)))
          ∙ ap
              (λ i.
                root_over combine h (halves j p * blocks_below (raised j (suc k)))
                  (i + c - halves j p * blocks_below (raised j (suc k))))
              (below_suc k p))

  join_odd :
      (base j k p c : ℕ) (v : V) (s : ℕ)
      → 0 < c
      → c ≤ blocks_below k
      → ((w : V) → Joins base j (suc k) p (blocks_below k + c) w (level_size base k))
      → Joins base (suc j) k (suc (double p)) c v s
  unfolding join_blocks
  join_odd base j k p c v s pos le ih e =
      let b = blocks_below k in
      let place = halves j p * blocks_below (raised j (suc k)) in
      rw (blocks_of-suc-double combine h base j k p, half-suc-double p)
        (ih (combine (full combine h k (double p)) v) (
            ap₂ combine (full-root_over k (double p))
              (e ∙ ap (λ i. root_over combine h i c) (next_of (double p) b))
            ∙ sym (root_over-add combine h k (double p * b) c pos le)
            ∙ ap (λ i. root_over combine h i (b + c)) (sym (below_suc k p)))
          ∙ ap (λ i. root_over combine h place (i - place)) (ends k p c))

  join_blocks-root_over :
      (base j k m c : ℕ) (v : V) (s : ℕ) → 0 < c → c ≤ blocks_below k → Joins base j k m c v s
  unfolding join_blocks
  join_blocks-root_over base zero k m c v s pos le =
      λ e. e ∙ ap (root_over combine h (m * blocks_below k)) (cancel_add (m * blocks_below k) c)
  join_blocks-root_over base (suc j) k m c v s pos le =
      go (parity m) (λ p c v s. join_blocks-root_over base j (suc k) p c v s)
    where
      go :
          ((p : ℕ) × (m ≡ double p)) ⊎ ((p : ℕ) × (m ≡ suc (double p)))
          → ((p c : ℕ) (v : V) (s : ℕ)
              → 0 < c
              → c ≤ blocks_below (suc k)
              → Joins base j (suc k) p c v s)
          → Joins base (suc j) k m c v s
      go (inl (p, e)) ih =
          rw (e) (
            join_even base j k p c v s (ih p c v s pos (omega (arith, le, raised_size-double k 1))))
      go (inr (p, e)) ih = rw (e) (
          join_odd base j k p c v s pos le (λ w.
            ih p (blocks_below k + c) w (level_size base k) (omega (arith, pos))
              (omega (arith, le, raised_size-double k 1))))

  -- The root of the pending blocks, where there are any.
  abbrev pub joined : List (V × ℕ) → Option V
  joined [] = none
  joined (b ∷ bs) = some (join_blocks combine b bs).0

  -- After any number of base blocks either there is none pending and the leaves hold all, or
  -- finalize joins the pending blocks to the root over the base blocks behind the last leaf.
  pub joined-root_over :
      (base j k m : ℕ)
      → let place = halves j m * blocks_below (raised j k) in
        ((joined (blocks_of combine h base j k m) ≡ none) × (m * blocks_below k ≡ place))
        ⊎ (joined (blocks_of combine h base j k m)
            ≡ some (root_over combine h place (m * blocks_below k - place)))
  joined-root_over base zero k m = inl (refl, refl)
  joined-root_over base (suc j) k m = go (parity m) (λ p. joined-root_over base j (suc k) p)
    where
      place : ℕ → ℕ
      place p = halves j p * blocks_below (raised j (suc k))

      go :
          ((p : ℕ) × (m ≡ double p)) ⊎ ((p : ℕ) × (m ≡ suc (double p)))
          → ((p : ℕ)
              → ((joined (blocks_of combine h base j (suc k) p) ≡ none)
                  × (p * blocks_below (suc k) ≡ place p))
                ⊎ (joined (blocks_of combine h base j (suc k) p)
                    ≡ some (root_over combine h (place p) (p * blocks_below (suc k) - place p))))
          → ((joined (blocks_of combine h base (suc j) k m) ≡ none)
              × (m * blocks_below k ≡ halves (suc j) m * blocks_below (raised (suc j) k)))
            ⊎ (joined (blocks_of combine h base (suc j) k m)
                ≡ some (
                    root_over combine h
                      (halves (suc j) m * blocks_below (raised (suc j) k))
                      (m * blocks_below k - halves (suc j) m * blocks_below (raised (suc j) k))))
      go (inl (p, e)) ih =
          rw (e, blocks_of-double combine h base j k p, half-double p)
            (subst
              (λ x.
                ((joined (blocks_of combine h base j (suc k) p) ≡ none) × (x ≡ place p))
                ⊎ (joined (blocks_of combine h base j (suc k) p)
                    ≡ some (root_over combine h (place p) (x - place p))))
              (below_suc k p) (ih p))
      go (inr (p, e)) ih =
          rw (e, blocks_of-suc-double combine h base j k p, half-suc-double p)
            (inr (
              ap some (
                join_blocks-root_over base j (suc k) p (blocks_below k)
                  (full combine h k (double p)) (level_size base k) (raised_size_least k 1)
                  (omega (arith, raised_size-double k 1))
                  (full-root_over k (double p)
                    ∙ ap (λ i. root_over combine h i (blocks_below k)) (sym (below_suc k p)))
                ∙ ap (λ i. root_over combine h (place p) (i - place p)) (ends_full k p))))
