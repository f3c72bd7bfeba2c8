-- ===== src/Hash/Merkle/Pieces.antt =====
-- Data that `MerkleTree::update` of airdcpp/hash/value/MerkleTree.h is given in pieces.
use airdcpp_core.Base.{
  ℕ, zero, suc, ◌+◌, ◌-◌, ◌*◌, ◌≤◌, ◌<◌, ◌≡◌, refl, ◌⊎◌, sym, ap, ap₂, ◌∙◌, true, false, [], ◌∷◌,
  ◌++◌, ltb, if◌then◌else◌, length, length-append, take, drop, arith, Bytes, Bool-cases, inl, inr,
  subst,
}
use airdcpp_core.Hash.Merkle.{MerkleTree, is_empty, add_hash, update_loop, update}

length-drop : (n : ℕ) (xs : Bytes) → length (drop n xs) ≡ length xs - n
length-drop zero xs = omega arith
length-drop (suc n) [] = omega arith
length-drop (suc n) (x ∷ xs) = omega (arith, length-drop n xs)

none_below : {n : ℕ} → ¬ (suc n ≤ 0)
none_below h = omega (arith, h)

take-append : (n : ℕ) (xs ys : Bytes) → n ≤ length xs → take n (xs ++ ys) ≡ take n xs
take-append zero xs ys h = refl
take-append (suc n) [] ys h = elim (none_below h) [ ]
take-append (suc n) (x ∷ xs) ys h = ap (λ r. x ∷ r) (take-append n xs ys (omega (arith, h)))

drop-append : (n : ℕ) (xs ys : Bytes) → n ≤ length xs → drop n (xs ++ ys) ≡ drop n xs ++ ys
drop-append zero xs ys h = refl
drop-append (suc n) [] ys h = elim (none_below h) [ ]
drop-append (suc n) (x ∷ xs) ys h = drop-append n xs ys (omega (arith, h))

is_empty-length : (xs : Bytes) → 0 < length xs → is_empty xs ≡ false
is_empty-length [] h = ground (arith, h)
is_empty-length (x ∷ xs) h = refl

not_empty-length : (xs : Bytes) → is_empty xs ≡ false → 0 < length xs
not_empty-length [] h = ground (arith, h)
not_empty-length (x ∷ xs) h = omega arith

empty-length : (xs : Bytes) → length xs ≡ 0 → xs ≡ []
empty-length [] h = refl
empty-length (x ∷ xs) h = elim (none_below (below_of h)) [ ]
  where
    below_of : suc (length xs) ≡ 0 → suc (length xs) ≤ 0
    below_of h = omega (arith, h)

one_more : (q base l : ℕ) → l ≡ suc q * base → l ≡ base + q * base
one_more q base l e = grind (arith, e)

sizes : (n : ℕ) (xs ys : Bytes) → n + length xs + length ys ≡ n + length (xs ++ ys)
sizes n xs ys = omega (arith, length-append xs ys)

module _ {ℓ} {V : Type ℓ} (combine : V → V → V) (base : ℕ) (hash : Bytes → V) where
  abbrev with_size : ℕ → MerkleTree V → MerkleTree V
  with_size f t = record t { file_size = f }

  abbrev loop : ℕ → Bytes → MerkleTree V → MerkleTree V
  loop n buf t = update_loop combine n base hash buf t

  -- Enough fuel is enough.
  loop_fuel :
      (n m : ℕ) (buf : Bytes) (t : MerkleTree V)
      → 0 < base
      → length buf < n
      → length buf < m
      → loop n buf t ≡ loop m buf t
  unfolding update_loop
  loop_fuel zero m buf t b h k = elim (none_below h) [ ]
  loop_fuel (suc n) zero buf t b h k = elim (none_below k) [ ]
  loop_fuel (suc n) (suc m) buf t b h k =
      go (Bool-cases (is_empty (drop base buf)))
        (loop_fuel n m (drop base buf) (add_hash combine base (hash (take base buf)) t) b)
    where
      t' : MerkleTree V
      t' = add_hash combine base (hash (take base buf)) t

      rest : Bytes
      rest = drop base buf

      go :
          (is_empty rest ≡ true) ⊎ (is_empty rest ≡ false)
          → (length rest < n → length rest < m → loop n rest t' ≡ loop m rest t')
          → (if is_empty rest then t' else loop n rest t')
            ≡ (if is_empty rest then t' else loop m rest t')
      go (inl e) ih = rw (e) refl
      go (inr e) ih = rw (e) (
          ih (omega (arith, not_empty-length rest e, length-drop base buf, h, b))
            (omega (arith, not_empty-length rest e, length-drop base buf, k, b)))

  -- A round.
  abbrev first : Bytes → MerkleTree V → MerkleTree V
  first buf t = add_hash combine base (hash (take base buf)) t

  loop_last :
      (n : ℕ) (buf : Bytes) (t : MerkleTree V)
      → drop base buf ≡ []
      → loop (suc n) buf t ≡ first buf t
  unfolding update_loop
  loop_last n buf t e = rw (e) refl

  loop_more :
      (n : ℕ) (buf : Bytes) (t : MerkleTree V)
      → 0 < length (drop base buf)
      → loop (suc n) buf t ≡ loop n (drop base buf) (first buf t)
  unfolding update_loop
  loop_more n buf t h = rw (is_empty-length (drop base buf) h) refl

  -- A whole block in front.
  loop_block :
      (n : ℕ) (xs ys : Bytes) (t : MerkleTree V)
      → base ≤ length xs
      → 0 < length ys
      → loop (suc n) (xs ++ ys) t ≡ loop n (drop base xs ++ ys) (first xs t)
  loop_block n xs ys t h y =
      loop_more n (xs ++ ys) t (
        subst (λ r. 0 < length r) (sym (drop-append base xs ys h))
          (omega (arith, length-append (drop base xs) ys, y)))
      ∙ ap₂ (λ r d. loop n r (add_hash combine base (hash d) t)) (drop-append base xs ys h)
          (take-append base xs ys h)

  -- The rounds over whole blocks, and then the rounds over what follows.
  loop-append :
      (q n : ℕ) (xs ys : Bytes) (t : MerkleTree V)
      → 0 < base
      → length xs ≡ suc q * base
      → 0 < length ys
      → length (xs ++ ys) < n
      → loop n (xs ++ ys) t ≡ loop (suc (length ys)) ys (loop (suc (length xs)) xs t)
  loop-append q zero xs ys t b e y h = elim (none_below h) [ ]
  loop-append zero (suc n) xs ys t b e y h =
      let one = one_more zero base (length xs) e in
      let over = empty-length (drop base xs) (omega (arith, one, length-drop base xs)) in
      loop_block n xs ys t (omega (arith, one)) y
      ∙ ap (λ r. loop n (r ++ ys) (first xs t)) over
      ∙ loop_fuel n (suc (length ys)) ys (first xs t) b
          (omega (arith, h, length-append xs ys, b, one)) (omega arith)
      ∙ ap (loop (suc (length ys)) ys) (sym (loop_last (length xs) xs t over))
  loop-append (suc q) (suc n) xs ys t b e y h =
      let one = one_more (suc q) base (length xs) e in
      let left : length (drop base xs) ≡ suc q * base = omega (arith, one, length-drop base xs) in
      let some_left : 0 < length (drop base xs) =
        omega (arith, left, b, one_more q base (length (drop base xs)) left) in
      loop_block n xs ys t (omega (arith, one)) y
      ∙ loop-append q n (drop base xs) ys (first xs t) b left y (
          omega (
            arith,
            h,
            b,
            one,
            length-append xs ys,
            length-append (drop base xs) ys,
            length-drop base xs,
          ))
      ∙ ap (loop (suc (length ys)) ys) (
          loop_fuel (suc (length (drop base xs))) (length xs) (drop base xs) (first xs t) b
            (omega arith) (omega (arith, b, one, length-drop base xs))
          ∙ sym (loop_more (length xs) xs t some_left))

  add_hash-with_size :
      (v : V) (f : ℕ) (t : MerkleTree V)
      → add_hash combine base v (with_size f t) ≡ with_size f (add_hash combine base v t)
  unfolding add_hash
  add_hash-with_size v f t = elim (Bool-cases (ltb base t.block_size)) [
    | inl e ↦ rw (e) refl
    | inr e ↦ rw (e) refl
  ]

  -- The rounds do not read the size, and leave it as it is.
  loop-with_size :
      (n : ℕ) (buf : Bytes) (f : ℕ) (t : MerkleTree V)
      → loop n buf (with_size f t) ≡ with_size f (loop n buf t)
  unfolding update_loop
  loop-with_size zero buf f t = refl
  loop-with_size (suc n) buf f t = elim (Bool-cases (is_empty (drop base buf))) [
    | inl e ↦ rw (e) (add_hash-with_size (hash (take base buf)) f t)
    | inr e ↦ rw (e) (
        ap (loop n (drop base buf)) (add_hash-with_size (hash (take base buf)) f t)
        ∙ loop-with_size n (drop base buf) f (first buf t))
  ]

  -- Data given to update in two pieces that are not empty, the first a number of whole base blocks,
  -- gives the tree of all the data given at once.
  pub update-append :
      (q x y : ℕ) (xs ys : Bytes) (t : MerkleTree V)
      → 0 < base
      → length (x ∷ xs) ≡ suc q * base
      → update combine base hash (y ∷ ys) (update combine base hash (x ∷ xs) t)
        ≡ update combine base hash ((x ∷ xs) ++ y ∷ ys) t
  unfolding update
  update-append q x y xs ys t b e =
      let front = x ∷ xs in
      let back = y ∷ ys in
      ap (with_size (t.file_size + length front + length back)) (
        loop-with_size (suc (length back)) back (t.file_size + length front)
          (loop (suc (length front)) front t))
      ∙ ap₂ with_size (sizes t.file_size front back) (
          sym (
            loop-append q (suc (length (front ++ back))) front back t b e (omega arith)
              (omega arith)))
