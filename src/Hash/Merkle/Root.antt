-- ===== src/Hash/Merkle/Root.antt =====
-- The root that `MerkleTree::getHash` of airdcpp/hash/value/MerkleTree.h computes from the leaves.
use airdcpp_core.Base.{
  ℕ, zero, suc, ◌+◌, ◌-◌, ◌*◌, ◌/◌, ◌≤◌, ◌<◌, ◌≡◌, refl, ap, ap₂, sym, ◌∙◌, true, false, List, [],
  ◌∷◌, ltb, leb, if◌then◌else◌, length, some, get_elem?, arith, Bool-cases, inl, inr, ◌⊎◌, ltb→lt,
}
use native.Mathlib.Nat.{div-eq_of_lt-le, lt_of_mul-lt-mul_right}
use airdcpp_core.Hash.Merkle.{MerkleTree, split_at, combine_both, get_hash, calc_root}

none_left : {i : ℕ} → ¬ (i < 0)
none_left h = omega (arith, h)

get_elem?-some {ℓ} :
    {V : Type ℓ} (ls : List V) (i : ℕ) → i < length ls → (v : V) × (get_elem? ls i ≡ some v)
get_elem?-some [] i h = elim (none_left h) [ ]
get_elem?-some (x ∷ ls) zero h = (x, refl)
get_elem?-some (x ∷ ls) (suc i) h = get_elem?-some ls i (omega (arith, h))

pub next_place : (q size : ℕ) → 0 < size → q * size < (q + 1) * size
next_place q size h = grind (arith, h)

pub add_mul : (q c size : ℕ) → (q + c) * size ≡ q * size + c * size
add_mul q c size = grind arith

pub mul_positive : (a b : ℕ) → 0 < a → 0 < b → 0 < a * b
mul_positive a b h k = grind (arith, h, k)

one_times : (n : ℕ) → n ≡ 1 * n
one_times n = omega arith

zero_times : (n : ℕ) → 0 ≡ 0 * n
zero_times n = omega arith

module _ {ℓ} {V : Type ℓ} (combine : V → V → V) where
  -- The left part is a number of whole leaves, not none and not all of the length.
  pub split_at-leaves :
      (n a size len : ℕ)
      → 0 < a
      → a * size < len
      → (b : ℕ) × ((split_at combine n (a * size) len ≡ b * size) × ((0 < b) × (b * size < len)))
  unfolding split_at
  split_at-leaves zero a size len h l = (a, (refl, (h, l)))
  split_at-leaves (suc n) a size len h l =
      go (Bool-cases (ltb (a * size * 2) len))
        (split_at-leaves n (a * 2) size len (omega (arith, h)))
    where
      more : ℕ
      more = split_at combine n (a * size * 2) len

      doubled : a * 2 * size ≡ a * size * 2
      doubled = grind arith

      go :
          (ltb (a * size * 2) len ≡ true) ⊎ (ltb (a * size * 2) len ≡ false)
          → (a * 2 * size < len
              → (b : ℕ) × ((split_at combine n (a * 2 * size) len ≡ b * size)
                  × ((0 < b) × (b * size < len))))
          → (b : ℕ) × (((if ltb (a * size * 2) len then more else a * size) ≡ b * size)
              × ((0 < b) × (b * size < len)))
      go (inl e) ih =
          let (b, r) = ih (omega (arith, doubled, ltb→lt (a * size * 2) len e)) in
          (b, (rw (e) (ap (λ k. split_at combine n k len) (sym doubled) ∙ r.0), r.1))
      go (inr e) ih = (a, (rw (e) refl, (h, l)))

  pub get_hash_split :
      (n size start len l : ℕ) (ls : List V) (v w : V)
      → leb len size ≡ false
      → split_at combine len size len ≡ l
      → get_hash combine n size ls start l ≡ some v
      → get_hash combine n size ls (start + l) (len - l) ≡ some w
      → get_hash combine (suc n) size ls start len ≡ some (combine v w)
  unfolding get_hash
  get_hash_split n size start len l ls v w e at f g =
      rw (get_hash, e)
        (ap
            (λ k.
              combine_both combine (get_hash combine n size ls start k)
                (get_hash combine n size ls (start + k) (len - k)))
            at
          ∙ ap₂ (combine_both combine) f g)

  -- A part that starts at a leaf, over the leaves that are there, has a hash.
  get_hash-some :
      (n size q len : ℕ) (ls : List V)
      → 0 < size
      → len < n
      → q < length ls
      → q * size + len ≤ length ls * size
      → (v : V) × (get_hash combine n size ls (q * size) len ≡ some v)
  unfolding get_hash
  get_hash-some zero size q len ls s h i b = elim (none_left h) [ ]
  get_hash-some (suc n) size q len ls s h i b =
      go (Bool-cases (leb len size)) (get_elem?-some ls q i)
        (λ c. get_hash-some n size q (c * size) ls s)
        (λ c. get_hash-some n size (q + c) (len - c * size) ls s)
    where
      leaf : get_elem? ls (q * size / size) ≡ get_elem? ls q
      leaf = ap (get_elem? ls) (div-eq_of_lt-le size (omega arith) (next_place q size s))

      go :
          (leb len size ≡ true) ⊎ (leb len size ≡ false)
          → (v : V) × (get_elem? ls q ≡ some v)
          → ((c : ℕ)
              → c * size < n
              → q < length ls
              → q * size + c * size ≤ length ls * size
              → (v : V) × (get_hash combine n size ls (q * size) (c * size) ≡ some v))
          → ((c : ℕ)
              → len - c * size < n
              → q + c < length ls
              → (q + c) * size + (len - c * size) ≤ length ls * size
              → (v : V) × (get_hash combine n size ls ((q + c) * size) (len - c * size) ≡ some v))
          → (v : V) × (get_hash combine (suc n) size ls (q * size) len ≡ some v)
      go (inl e) (v, f) left right = (v, rw (e) (leaf ∙ f))
      go (inr e) x left right =
          let long : size < len = ground (arith, e) in
          let (c, (at, (pos, less))) =
            split_at-leaves len 1 size len (omega arith) (omega (arith, long)) in
          let place = add_mul q c size in
          let (v, f) = left c (omega (arith, less, h)) i (omega (arith, less, b)) in
          let (w, g) =
            right c (omega (arith, less, mul_positive c size pos s, h))
              (lt_of_mul-lt-mul_right size (omega (arith, place, less, b)))
              (omega (arith, place, less, b)) in
          (
            combine v w,
            get_hash_split n size (q * size) len (c * size) ls v w e
                (ap (λ k. split_at combine len k len) (one_times size) ∙ at) f
                (ap (λ k. get_hash combine n size ls k (len - c * size)) (sym place) ∙ g),
          )

  -- Where the leaves are enough for the size of the file, the recursion of getHash ends, reads no
  -- leaf that is not there and gives a root.
  pub calc_root-some :
      (t : MerkleTree V)
      → 0 < t.block_size
      → 0 < length t.leaves
      → t.file_size ≤ length t.leaves * t.block_size
      → (v : V) × ((calc_root combine t).root ≡ some v)
  unfolding calc_root
  calc_root-some t s l b =
      let (v, e) =
        get_hash-some (suc t.file_size) t.block_size 0 t.file_size t.leaves s (omega arith) l
          (omega (arith, b)) in
      (
        v,
        ap (λ k. get_hash combine (suc t.file_size) t.block_size t.leaves k t.file_size)
              (zero_times t.block_size)
            ∙ e,
      )
