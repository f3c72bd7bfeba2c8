-- ===== src/Queue/Finished/Accounting.antt =====
-- The bytes that `addFinishedSegment` reports to the bundle.
use airdcpp_core.Base.{
  ℕ, ◌+◌, ◌-◌, ◌≤◌, ◌<◌, ◌≡◌, ◌∙◌, ◌⊎◌, inl, refl, true, List, [], ◌∷◌, arith, none, some, All,
}
use airdcpp_core.Base.Int.{pos, sub_ℕ}
use airdcpp_core.Queue.Segment.{Segment, segment, end_of, insert}
use airdcpp_core.Queue.Finished.{
  add_finished_segment, new_bytes, merge_all, merge_loop, reverse_onto,
}
use airdcpp_core.Queue.Finished.Merge.{Gapped, combine, Staggered, joined, merge_step}
use airdcpp_core.Queue.Finished.Insert.{told_by, insert_left, add_finished_segment_lem}
use airdcpp_core.Queue.Finished.Coverage.{total, hull}

-- The two segments share no byte.
abbrev pub Apart : Segment → Segment → Type 0
Apart s d = (end_of d ≤ s.start) ⊎ (end_of s ≤ d.start)

Apart-hull :
    (s d : Segment) (lo : ℕ) (ds : List Segment)
    → end_of d < lo
    → s.start ≤ end_of d
    → 0 < s.size
    → Gapped lo ds
    → All (Apart s) ds
    → All (Apart (hull s d)) ds
Apart-hull s d lo [] h k p g a = tt
Apart-hull s d lo (x ∷ ds) h k p g a =
    (ground arith, Apart-hull s d (end_of x + 1) ds (omega arith) k p g.2 a.1)

pub total-combine :
    (lo : ℕ) (s : Segment) (ds : List Segment)
    → 0 < s.size
    → Gapped lo ds
    → All (Apart s) ds
    → total (combine s ds) ≡ s.size + total ds
unfolding combine
total-combine lo s [] p g a = omega arith
total-combine lo s (d ∷ ds) p g a = ground (
  arith,
  total-combine (end_of d + 1) s ds p g.2 a.1,
  total-combine (end_of d + 1) (hull s d) ds,
  Apart-hull s d (end_of d + 1) ds,
)

told_size :
    (lo : ℕ) (s : Segment) (ds : List Segment)
    → 0 < s.size
    → Gapped lo ds
    → All (Apart s) ds
    → (told_by s ds ≡ none) ⊎ (told_by s ds ≡ some (pos s.size))
unfolding told_by
told_size lo s [] p g a = inl refl
told_size lo s (d ∷ ds) p g a = ground (arith, told_size (end_of d + 1) s ds p g.2 a.1)

pub Apart-Staggered :
    (lo : ℕ) (s : Segment) (ds : List Segment)
    → 0 < s.size
    → Gapped lo ds
    → All (Apart s) ds
    → All (Staggered s) ds
Apart-Staggered lo s [] p g a = tt
Apart-Staggered lo s (d ∷ ds) p g a = (ground arith, Apart-Staggered (end_of d + 1) s ds p g.2 a.1)

-- A finished segment that shares no byte with the set is reported to the bundle with its size, and
-- the downloaded bytes of the set grow by it, also where two merges are made.
pub add_finished_segment-total :
    (lo : ℕ) (s : Segment) (done : List Segment)
    → 0 < s.size
    → Gapped lo done
    → All (Apart s) done
    → (done' : List Segment) × (add_finished_segment true s done ≡ some (done', some (pos s.size)))
      × (total done' ≡ s.size + total done)
add_finished_segment-total lo s done p g a = (
  combine s done,
  ground (
    arith,
    told_size lo s done p g a,
    add_finished_segment_lem true lo s done g (Apart-Staggered lo s done p g a),
  ),
  total-combine lo s done p g a,
)

told_inside :
    (s d : Segment) → d.start < s.start → new_bytes s d s ≡ sub_ℕ (end_of s - d.start) d.size
told_inside s d h = ground arith

merge_inside :
    (s d : Segment)
    → d.start < s.start
    → end_of s < end_of d
    → merge_all s (insert s (d ∷ []))
      ≡ some (joined d s ∷ [], some (sub_ℕ (end_of s - d.start) d.size))
unfolding insert merge_all
merge_inside s d h k = rw (insert_left s d [] h) (
    merge_step 3 s d s [] [] none (omega arith) tt tt
    ∙ rw (told_inside s d h) (unfold merge_loop reverse_onto in refl))

-- A finished segment strictly inside the one downloaded segment cuts off what that one had behind
-- it, and the bundle is told of the difference, a negative number.
pub add_finished_segment_inside :
    (s d : Segment)
    → d.start < s.start
    → end_of s < end_of d
    → add_finished_segment true s (d ∷ [])
      ≡ some (segment d.start (end_of s - d.start) ∷ [], some (sub_ℕ (end_of s - d.start) d.size))
unfolding add_finished_segment
add_finished_segment_inside s d h k = rw (merge_inside s d h k, add_finished_segment) refl
