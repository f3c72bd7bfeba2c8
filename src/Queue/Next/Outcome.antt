-- ===== src/Queue/Next/Outcome.antt =====
-- What the search of `getNextSegment` comes to where the source has not told of its parts.
use airdcpp_core.Base.{
  ℕ, zero, suc, ◌+◌, ◌-◌, ◌*◌, ◌≤◌, ◌<◌, ◌≡◌, refl, inl, inr, true, false, none, List, [], arith,
  dec_lt, dec_le, ltb, Bool-cases,
}
use airdcpp_core.Queue.Segment.{Segment, end_of}
use airdcpp_core.Queue.Item.{Download}
use airdcpp_core.Queue.Next.{is_taken, Found, out_of_fuel, block_found, all_seen, search_loop}
use airdcpp_core.Queue.Next.Search.{
  IsFree, IsTaken, taken-IsFree, is_taken-IsTaken, block_at, search_over, search_shorter,
  search_next, search_free_none,
}

module _ (block size : ℕ) (done : List Segment) (downloads : List Download) where
  -- Every block of the file from the `j`th on is taken.
  abbrev pub AllTaken : ℕ → Type 0
  AllTaken j =
      (i : ℕ) → j ≤ i → i * block < size → IsTaken done downloads (block_at size (i * block) block)

  -- The search ends, and it finds a free block or there is none to find.
  abbrev pub Outcome : ℕ → Found → Type 0
  Outcome j out_of_fuel = ⊥
  Outcome j (block_found s) = IsFree block size done downloads s
  Outcome j (all_seen needed) = (needed ≡ []) × AllTaken j

AllTaken-suc :
    (block size : ℕ) (done : List Segment) (downloads : List Download) (j : ℕ)
    → IsTaken done downloads (block_at size (j * block) block)
    → AllTaken block size done downloads (suc j)
    → AllTaken block size done downloads j
AllTaken-suc block size done downloads j t h i le b = elim (dec_lt j i) [
  | yes l ↦ h i l b
  | no l ↦ let e : i ≡ j = omega arith in rw e t
]

Outcome-suc :
    (block size : ℕ) (done : List Segment) (downloads : List Download) (j : ℕ) (r : Found)
    → IsTaken done downloads (block_at size (j * block) block)
    → Outcome block size done downloads (suc j) r
    → Outcome block size done downloads j r
Outcome-suc block size done downloads j out_of_fuel t h = h
Outcome-suc block size done downloads j (block_found s) t h = h
Outcome-suc block size done downloads j (all_seen needed) t h =
    (h.0, AllTaken-suc block size done downloads j t h.1)

mul_mono : (i j b : ℕ) → j ≤ i → j * b ≤ i * b
mul_mono i j b h = grind arith

-- No block starts behind the end of the file.
AllTaken-end :
    (block size : ℕ) (done : List Segment) (downloads : List Download) (j : ℕ)
    → size ≤ j * block
    → AllTaken block size done downloads j
AllTaken-end block size done downloads j h i le lt = absurd (omega (arith, mul_mono i j block le))

search_at_end :
    (block target size : ℕ) (done : List Segment) (downloads : List Download) (fuel start cur : ℕ)
    → 0 < fuel
    → size ≤ start
    → search_loop block target size done downloads none fuel start cur [] ≡ all_seen []
search_at_end block target size done downloads zero start cur h e = elim h [ ]
search_at_end block target size done downloads (suc fuel) start cur h e =
    search_over block target size done downloads none fuel start cur [] (ground arith)

-- A free block is an outcome.
free-Outcome :
    (block target size : ℕ) (done : List Segment) (downloads : List Download) (fuel start cur j : ℕ)
    → 0 < cur
    → ltb start size ≡ true
    → is_taken block cur done downloads (block_at size start cur) ≡ false
    → Outcome block size done downloads j
        (search_loop block target size done downloads none (suc fuel) start cur [])
free-Outcome block target size done downloads fuel start cur j c inside free =
    rw (search_free_none block target size done downloads fuel start cur [] inside free) (
      taken-IsFree block cur size done downloads (block_at size start cur) (ground arith)
        (ground arith) (ground arith) free)

module _ (block size : ℕ) (done : List Segment) (downloads : List Download) where
  pub search-Outcome :
      (top fuel j k n start cur : ℕ)
      → 0 < block
      → start ≡ j * block
      → cur ≡ suc k * block
      → size ≤ start + n * block
      → n * suc top + suc k ≤ fuel
      → Outcome block size done downloads j
          (search_loop block (suc top * block) size done downloads none fuel start cur [])
  search-Outcome top zero j k n start cur b es ec en ef = absurd (omega arith)
  search-Outcome top (suc fuel) j k zero start cur b es ec en ef =
      rw
        (search_at_end block (suc top * block) size done downloads (suc fuel) start cur
          (omega arith) (omega arith))
        (refl, AllTaken-end block size done downloads j (omega arith))
  search-Outcome top (suc fuel) j (suc k) (suc n) start cur b es ec en ef =
      elim (Bool-cases (ltb start size)) [
        | inr over ↦
            rw (search_over block (suc top * block) size done downloads none fuel start cur [] over)
              (refl, AllTaken-end block size done downloads j (ground arith))
        | inl inside ↦
            elim (Bool-cases (is_taken block cur done downloads (block_at size start cur))) [
              | inr free ↦
                  free-Outcome block (suc top * block) size done downloads fuel start cur j
                    (omega arith) inside free
              | inl taken ↦
                  rw
                    (search_shorter block (suc top * block) size done downloads none fuel start cur
                      [] inside taken (ground arith))
                    (search-Outcome top fuel j k (suc n) start (cur - block) b es (omega arith) en
                      (omega arith))
            ]
      ]
  search-Outcome top (suc fuel) j zero (suc n) start cur b es ec en ef =
      elim (Bool-cases (ltb start size)) [
        | inr over ↦
            rw (search_over block (suc top * block) size done downloads none fuel start cur [] over)
              (refl, AllTaken-end block size done downloads j (ground arith))
        | inl inside ↦
            elim (Bool-cases (is_taken block cur done downloads (block_at size start cur))) [
              | inr free ↦
                  free-Outcome block (suc top * block) size done downloads fuel start cur j
                    (omega arith) inside free
              | inl taken ↦
                  let whole : cur ≡ block = omega arith in
                  let here : IsTaken done downloads (block_at size (j * block) block) =
                    rw (← es) (is_taken-IsTaken block done downloads _ (rw whole at taken)) in
                  rw
                    (search_next block (suc top * block) size done downloads none fuel start cur []
                      inside taken (ground arith))
                    (elim (dec_le (start + cur) size) [
                      | yes fits ↦ Outcome-suc block size done downloads j _ here (
                          search-Outcome top fuel (suc j) top n _ (suc top * block) b (omega arith)
                            refl (omega arith) (omega arith))
                      | no beyond ↦
                          rw
                            (search_at_end block (suc top * block) size done downloads fuel
                              (end_of (block_at size start cur)) (suc top * block) (omega arith)
                              (ground arith))
                            (
                              refl,
                              AllTaken-suc block size done downloads j here
                                  (AllTaken-end block size done downloads (suc j) (omega arith)),
                            )
                    ])
            ]
      ]
