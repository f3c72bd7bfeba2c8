-- ===== src/Queue/Next/Search.antt =====
-- The search of `getNextSegment` over the file: it ends, what it finds is free, and it passes over a
-- free block only if the source does not have it.
use airdcpp_core.Base.{
  ℕ, suc, ◌+◌, ◌-◌, ◌≤◌, ◌<◌, min, ◌≡◌, refl, ◌⊎◌, inl, inr, Bool, true, false, ◌&&◌, Option, none,
  some, List, [], ◌∷◌, ◌++◌, arith, ltb, leb, if◌then◌else◌, Bool-cases, any, All,
}
use airdcpp_core.Queue.Segment.{Segment, segment, end_of, overlaps}
use airdcpp_core.Queue.Item.{Download}
use airdcpp_core.Queue.Next.{parts_of, is_taken, block_found, all_seen, search_loop}

-- No byte is in both.
abbrev pub Apart : Segment → Segment → Type 0
Apart s t = (end_of s ≤ t.start) ⊎ (end_of t ≤ s.start)

-- A segment that is free to be requested: a part of the file that no downloaded segment has whole,
-- with no byte that is being downloaded, and if it is longer than a block, with none that is
-- downloaded.
pub record IsFree (block size : ℕ) (done : List Segment) (downloads : List Download) (s : Segment)
    : Type 0 where
  pub in_file : end_of s ≤ size
  pub not_empty : 0 < s.size
  pub not_done : All (λ d. (s.start < d.start) ⊎ (end_of d < end_of s)) done
  pub long_apart : block < s.size → All (Apart s) done
  pub not_running : All (λ (d : Download). Apart s d.part) downloads

-- The predicate holds for an element of the list.
abbrev pub AnyOf : {A : Type 0} → (A → Type 0) → List A → Type 0
AnyOf P [] = ⊥
AnyOf P (x ∷ xs) = P x ⊎ AnyOf P xs

-- The block cannot be had: a downloaded segment has it whole, or one of its bytes is being
-- downloaded.
abbrev pub IsTaken : List Segment → List Download → Segment → Type 0
IsTaken done downloads s =
    AnyOf (λ d. (d.start ≤ s.start) × (end_of s ≤ end_of d)) done
    ⊎ AnyOf (λ (d : Download). (s.start < end_of d.part) × (d.part.start < end_of s)) downloads

any-AnyOf :
    {A : Type 0}
    → (p : A → Bool) (P : A → Type 0) (xs : List A) → ((a : A) → p a ≡ true → P a)
    → any p xs ≡ true
    → AnyOf P xs
any-AnyOf p P [] h e = absurd (ground arith)
any-AnyOf p P (x ∷ xs) h e = elim (Bool-cases (p x)) [
  | inl k ↦ inl (h x k)
  | inr k ↦ inr (any-AnyOf p P xs h (rw k at e))
]

any-All :
    {A : Type 0}
    → (p : A → Bool) (P : A → Type 0) (xs : List A) → ((a : A) → p a ≡ false → P a)
    → any p xs ≡ false
    → All P xs
any-All p P [] h e = tt
any-All p P (x ∷ xs) h e = (h x (ground arith), any-All p P xs h (ground arith))

-- The test on a downloaded segment.
abbrev covered_by : ℕ → ℕ → Segment → Segment → Bool
covered_by block cur s d =
    if leb cur block then leb d.start s.start && leb (end_of s) (end_of d) else overlaps s d

overlaps-Apart : (s t : Segment) → overlaps s t ≡ false → Apart s t
unfolding overlaps
overlaps-Apart s t h = ground arith

not_within :
    (block cur : ℕ) (s d : Segment)
    → 0 < s.size
    → covered_by block cur s d ≡ false
    → (s.start < d.start) ⊎ (end_of d < end_of s)
unfolding overlaps
not_within block cur s d p h = ground arith

covered_by-Apart :
    (block cur : ℕ) (s d : Segment) → block < cur → covered_by block cur s d ≡ false → Apart s d
unfolding overlaps
covered_by-Apart block cur s d l h = ground arith

-- A block that is not taken is free.
pub taken-IsFree :
    (block cur size : ℕ) (done : List Segment) (downloads : List Download) (s : Segment)
    → 0 < s.size
    → s.size ≤ cur
    → end_of s ≤ size
    → is_taken block cur done downloads s ≡ false
    → IsFree block size done downloads s
unfolding is_taken
taken-IsFree block cur size done downloads s p l h e = record {
  in_file = h;
  not_empty = p;
  not_done =
      any-All (covered_by block cur s) _ done (λ d. not_within block cur s d p) (ground arith);
  long_apart = λ k.
      any-All (covered_by block cur s) _ done (λ d. covered_by-Apart block cur s d (omega arith))
        (ground arith);
  not_running =
      any-All (λ (d : Download). overlaps s d.part) _ downloads (λ d. overlaps-Apart s d.part)
        (ground arith);
}

-- What is taken as a single block cannot be had.
pub is_taken-IsTaken :
    (block : ℕ) (done : List Segment) (downloads : List Download) (s : Segment)
    → is_taken block block done downloads s ≡ true
    → IsTaken done downloads s
unfolding is_taken overlaps
is_taken-IsTaken block done downloads s e =
    elim (Bool-cases (any (covered_by block block s) done)) [
      | inl k ↦ inl (any-AnyOf (covered_by block block s) _ done (λ d h. ground arith) k)
      | inr k ↦ inr (
          any-AnyOf (λ (d : Download). overlaps s d.part) _ downloads (λ d h. ground arith)
            (rw k at e))
    ]

-- The block that a round looks at.
abbrev pub block_at : ℕ → ℕ → ℕ → Segment
block_at size start cur = segment start (min size (start + cur) - start)

module _ (block target size : ℕ) (done : List Segment) (downloads : List Download)
    (ranges : Option (List (ℕ × ℕ))) where
  pub search_over :
      (fuel start cur : ℕ) (needed : List (ℕ × ℕ))
      → ltb start size ≡ false
      → search_loop block target size done downloads ranges (suc fuel) start cur needed
        ≡ all_seen needed
  unfolding search_loop
  search_over fuel start cur needed e = rw e refl

  pub search_shorter :
      (fuel start cur : ℕ) (needed : List (ℕ × ℕ))
      → ltb start size ≡ true
      → is_taken block cur done downloads (block_at size start cur) ≡ true
      → ltb block cur ≡ true
      → search_loop block target size done downloads ranges (suc fuel) start cur needed
        ≡ search_loop block target size done downloads ranges fuel start (cur - block) needed
  unfolding search_loop
  search_shorter fuel start cur needed e t l = rw (e, t, l) refl

  pub search_next :
      (fuel start cur : ℕ) (needed : List (ℕ × ℕ))
      → ltb start size ≡ true
      → is_taken block cur done downloads (block_at size start cur) ≡ true
      → ltb block cur ≡ false
      → search_loop block target size done downloads ranges (suc fuel) start cur needed
        ≡ search_loop block target size done downloads ranges fuel
            (end_of (block_at size start cur))
            target
            needed
  unfolding search_loop
  search_next fuel start cur needed e t l = rw (e, t, l) refl

-- Without ranges the first free block is the answer; with them the search goes on.
pub search_free_none :
    (block target size : ℕ) (done : List Segment) (downloads : List Download) (fuel start cur : ℕ)
    (needed : List (ℕ × ℕ))
    → ltb start size ≡ true
    → is_taken block cur done downloads (block_at size start cur) ≡ false
    → search_loop block target size done downloads none (suc fuel) start cur needed
      ≡ block_found (block_at size start cur)
unfolding search_loop
search_free_none block target size done downloads fuel start cur needed e t = rw (e, t) refl

pub search_free_some :
    (block target size : ℕ) (done : List Segment) (downloads : List Download) (ps : List (ℕ × ℕ))
    (fuel start cur : ℕ) (needed : List (ℕ × ℕ))
    → ltb start size ≡ true
    → is_taken block cur done downloads (block_at size start cur) ≡ false
    → search_loop block target size done downloads (some ps) (suc fuel) start cur needed
      ≡ search_loop block target size done downloads
          (some ps)
          fuel
          (end_of (block_at size start cur))
          target
          (needed ++ parts_of (block_at size start cur) ps)
unfolding search_loop
search_free_some block target size done downloads ps fuel start cur needed e t = rw (e, t) refl
