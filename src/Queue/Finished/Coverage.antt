-- ===== src/Queue/Finished/Coverage.antt =====
-- The bytes that the set of downloaded segments covers, before and after `addFinishedSegment`.
use airdcpp_core.Base.{
  ℕ, ◌+◌, ◌-◌, ◌≤◌, ◌<◌, ◌≡◌, ◌↔◌, ◌⊎◌, inl, inr, min, max, Bool, List, [], ◌∷◌, arith, ltb, Option,
  some, All, Bool-cases,
}
use airdcpp_core.Base.Int.{ℤ}
use airdcpp_core.Queue.Segment.{Segment, segment, end_of, Within}
use airdcpp_core.Queue.Finished.{add_finished_segment}
use airdcpp_core.Queue.Finished.Merge.{Gapped, Gapped-le, combine, Staggered}
use airdcpp_core.Queue.Finished.Insert.{counted, add_finished_segment_lem}

-- The byte at `x` has been downloaded.
abbrev pub Covers : ℕ → List Segment → Type 0
Covers x [] = ⊥
Covers x (d ∷ ds) = Within x d ⊎ Covers x ds

abbrev pub total : List Segment → ℕ
total [] = 0
total (d ∷ ds) = d.size + total ds

combine-Gapped :
    (lo : ℕ) (s : Segment) (ds : List Segment)
    → lo ≤ s.start
    → 0 < s.size
    → Gapped lo ds
    → Gapped lo (combine s ds)
unfolding combine
combine-Gapped lo s [] h p g = (h, p, tt)
combine-Gapped lo s (d ∷ ds) h p g =
    let low = min s.start d.start in
    ground (
      arith,
      combine-Gapped (end_of d + 1) s ds,
      combine-Gapped lo (segment low (max (end_of s) (end_of d) - low)) ds,
      Gapped-le {lo = lo} {lo' = end_of d + 1} ds,
    )

abbrev pub hull : Segment → Segment → Segment
hull s d = let low = min s.start d.start in segment low (max (end_of s) (end_of d) - low)

-- Two segments that touch leave nothing out between them.
hull-Within :
    (x : ℕ) (s d : Segment)
    → s.start ≤ end_of d
    → d.start ≤ end_of s
    → Within x (hull s d) ↔ (Within x s ⊎ Within x d)
hull-Within x s d h k = (there, λ (w : Within x s ⊎ Within x d). (ground arith, ground arith))
  where
    there : Within x (hull s d) → Within x s ⊎ Within x d
    there w = ground arith

abbrev swap_front {ℓ} : {A B C : Type ℓ} → A ⊎ (B ⊎ C) → B ⊎ (A ⊎ C)
swap_front (inl a) = inr (inl a)
swap_front (inr (inl b)) = inl b
swap_front (inr (inr c)) = inr (inr c)

abbrev regroup {ℓ} : {A B C : Type ℓ} → (A ⊎ B) ⊎ C → A ⊎ (B ⊎ C)
regroup (inl (inl a)) = inl a
regroup (inl (inr b)) = inr (inl b)
regroup (inr c) = inr (inr c)

abbrev ungroup {ℓ} : {A B C : Type ℓ} → A ⊎ (B ⊎ C) → (A ⊎ B) ⊎ C
ungroup (inl a) = inl (inl a)
ungroup (inr (inl b)) = inl (inr b)
ungroup (inr (inr c)) = inr c

abbrev map_left {ℓ} : {A B C : Type ℓ} → (A → B) → A ⊎ C → B ⊎ C
map_left f (inl a) = inl (f a)
map_left f (inr c) = inr c

abbrev map_right {ℓ} : {A B C : Type ℓ} → (B → C) → A ⊎ B → A ⊎ C
map_right f (inl a) = inl a
map_right f (inr b) = inr (f b)

combine-Covers :
    (x : ℕ) (s : Segment) (ds : List Segment)
    → 0 < s.size
    → Covers x (combine s ds) ↔ (Within x s ⊎ Covers x ds)
unfolding combine
combine-Covers x s [] p = (λ h. h, λ h. h)
combine-Covers x s (d ∷ ds) p =
    let ih = combine-Covers x s ds p in
    elim (Bool-cases (ltb (end_of d) s.start)) [
      | inl e ↦ rw e (λ h. swap_front (map_right ih.0 h), λ h. map_right ih.1 (swap_front h))
      | inr e ↦ elim (Bool-cases (ltb (end_of s) d.start)) [
        | inl e' ↦ rw (e, e') (λ h. h, λ h. h)
        | inr e' ↦
            let ih' = combine-Covers x (hull s d) ds (ground arith) in
            let both = hull-Within x s d (ground arith) (ground arith) in
            rw (e, e')
              (λ h. regroup (map_left both.0 (ih'.0 h)), λ h. ih'.1 (map_left both.1 (ungroup h)))
      ]
    ]

-- addFinishedSegment returns on every set with gaps and every nonempty segment that holds no
-- segment of the set and lies in none; the new set has gaps again and covers exactly the bytes of
-- the segment and those covered before.
pub add_finished_segment-Covers :
    (has_bundle : Bool) (lo : ℕ) (s : Segment) (done : List Segment)
    → lo ≤ s.start
    → 0 < s.size
    → Gapped lo done
    → All (Staggered s) done
    → (done' : List Segment) × (told : Option ℤ) × (add_finished_segment has_bundle s done
        ≡ some (done', told))
      × Gapped lo done'
      × ((x : ℕ) → Covers x done' ↔ (Within x s ⊎ Covers x done))
add_finished_segment-Covers has_bundle lo s done h p g a = (
  combine s done,
  counted has_bundle s done,
  add_finished_segment_lem has_bundle lo s done g a,
  combine-Gapped lo s done h p g,
  λ x. combine-Covers x s done p,
)
