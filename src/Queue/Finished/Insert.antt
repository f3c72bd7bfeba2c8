-- ===== src/Queue/Finished/Insert.antt =====
-- `addFinishedSegment` as a whole: it is the plain description, on every set with gaps and every
-- segment that holds none of the set and lies in none.
use airdcpp_core.Base.{
  ℕ, zero, suc, ◌+◌, ◌≤◌, ◌<◌, Bool, true, List, [], ◌∷◌, ◌≡◌, inl, inr, refl, ◌∙◌, ap, arith, ltb,
  leb, if◌then◌else◌, length, Option, none, some, All, Bool-cases,
}
use airdcpp_core.Base.Int.{ℤ, pos}
use airdcpp_core.Queue.Segment.{Segment, end_of, insert}
use airdcpp_core.Queue.Finished.{
  new_bytes, reverse_onto, merge_loop, merge_all, add_finished_segment, rounds,
}
use airdcpp_core.Queue.Finished.Merge.{
  Gapped, joined, combine, combine_touch_left, Staggered, Below, Above, Ahead, merge_step,
  pass_step, told_right, merge_right,
}

-- What the bundle is told first, if the segment touches one of the set.
unfoldable pub told_by : Segment → List Segment → Option ℤ
told_by s [] = none
told_by s (x ∷ r) =
    let later = told_by s r in
    if ltb x.start s.start
    then (if leb s.start (end_of x) then some (new_bytes s x s) else later)
    else (if leb x.start (end_of s) then some (new_bytes s s x) else none)

told_right-some :
    (added p : Segment) (n : ℤ) (rs : List Segment) → told_right (some n) added p rs ≡ some n
unfolding told_right
told_right-some added p n [] = refl
told_right-some added p n (r ∷ rs) = ground arith

told_right-none :
    (s : Segment) (rs : List Segment) → Ahead s rs → told_right none s s rs ≡ told_by s rs
unfolding told_right told_by
told_right-none s [] a = refl
told_right-none s (r ∷ rs) a = ground arith

Ahead-joined :
    (p s : Segment) (rs : List Segment)
    → p.start < s.start
    → end_of p < end_of s
    → Ahead s rs
    → Ahead (joined p s) rs
Ahead-joined p s [] h k a = tt
Ahead-joined p s (r ∷ rs) h k a = omega arith

Above-Ahead : (p s : Segment) (rs : List Segment) → p.start < s.start → Ahead s rs → Above p rs
Above-Ahead p s [] h a = tt
Above-Ahead p s (r ∷ rs) h a = omega arith

told_by_pass :
    (s p : Segment) (rs : List Segment)
    → p.start < s.start
    → end_of p < s.start
    → told_by s (p ∷ rs) ≡ told_by s rs
unfolding told_by
told_by_pass s p rs h k = ground arith

combine_pass :
    (s p : Segment) (rs : List Segment) → end_of p < s.start → combine s (p ∷ rs) ≡ p ∷ combine s rs
unfolding combine
combine_pass s p rs h = ground arith

merge_at :
    (fuel lo : ℕ) (s p : Segment) (ps rs : List Segment)
    → p.start < s.start
    → end_of p < end_of s
    → Below p ps
    → Gapped lo rs
    → Ahead s rs
    → suc (length rs) < fuel
    → merge_loop fuel s (record { front = p ∷ ps; rest = s ∷ rs }) none
      ≡ some (reverse_onto ps (combine s (p ∷ rs)), told_by s (p ∷ rs))
unfolding told_by
merge_at zero lo s p ps rs a e b g h f = absurd (omega arith)
merge_at (suc fuel) lo s p ps rs a e b g h f =
    let first : ltb p.start s.start ≡ true = ground arith in
    elim (Bool-cases (leb s.start (end_of p))) [
      | inl t ↦
          let touch : s.start ≤ end_of p = ground arith in
          rw (first, t)
            (merge_step fuel s p s ps rs none touch b (Above-Ahead p s rs a h)
              ∙ merge_right fuel lo s (joined p s) ps rs _ g b (Ahead-joined p s rs a e h)
                  (omega arith)
              ∙ rw (told_right-some, combine_touch_left s p rs a e touch) refl)
      | inr t ↦
          let apart : end_of p < s.start = ground arith in
          rw (first, t)
            (pass_step fuel s p s ps rs none apart
              ∙ merge_right fuel lo s s (p ∷ ps) rs none g a h (omega arith)
              ∙ rw (told_right-none s rs h, combine_pass s p rs apart)
                  (unfold reverse_onto in refl))
    ]

insert_right :
    (s d : Segment) (ds : List Segment) → s.start < d.start → insert s (d ∷ ds) ≡ s ∷ d ∷ ds
unfolding insert
insert_right s d ds h = ground arith

pub insert_left :
    (s d : Segment) (ds : List Segment) → d.start < s.start → insert s (d ∷ ds) ≡ d ∷ insert s ds
unfolding insert
insert_left s d ds h = ground arith

length_left :
    (s d : Segment) (ds : List Segment)
    → d.start < s.start
    → length (insert s (d ∷ ds)) ≡ suc (length (insert s ds))
length_left s d ds h = ap length (insert_left s d ds h)

merge_main :
    (ds : List Segment) (fuel : ℕ) (s p : Segment) (ps : List Segment)
    → p.start < s.start
    → end_of p < end_of s
    → Below p ps
    → Gapped (end_of p + 1) ds
    → All (Staggered s) ds
    → length (insert s ds) < fuel
    → merge_loop fuel s (record { front = p ∷ ps; rest = insert s ds }) none
      ≡ some (reverse_onto ps (combine s (p ∷ ds)), told_by s (p ∷ ds))
merge_main [] fuel s p ps a e b g h f = unfold insert in merge_at fuel 0 s p ps [] a e b tt tt f
merge_main (d ∷ ds) fuel s p ps a e b g (inr x, h) f =
    rw (insert_right s d ds x.0)
      (merge_at fuel _ s p ps (d ∷ ds) a e b g x (rw (insert_right s d ds x.0) at f))
merge_main (d ∷ ds) zero s p ps a e b g (inl x, h) f = absurd (omega arith)
merge_main (d ∷ ds) (suc fuel) s p ps a e b g (inl x, h) f =
    let apart : end_of p < d.start = omega arith in
    let before_s : end_of p < s.start = omega arith in
    rw (insert_left s d ds x.0) (
      pass_step fuel s p d ps (insert s ds) none apart
      ∙ merge_main ds fuel s d (p ∷ ps) x.0 x.1 (omega arith) g.2 h
          (omega (arith, length_left s d ds x.0))
      ∙ rw (combine_pass s p (d ∷ ds) before_s, told_by_pass s p (d ∷ ds) a before_s)
          (unfold reverse_onto in refl))

length-insert-pos : (s : Segment) (ds : List Segment) → 0 < length (insert s ds)
unfolding insert
length-insert-pos s [] = omega arith
length-insert-pos s (d ∷ ds) = ground arith

merge_all_cons :
    (s d : Segment) (xs : List Segment)
    → 0 < length xs
    → merge_all s (d ∷ xs)
      ≡ merge_loop (rounds (d ∷ xs)) s (record { front = d ∷ []; rest = xs }) none
unfolding merge_all
merge_all_cons s d [] h = elim h [ ]
merge_all_cons s d (x ∷ xs) h = refl

merge_all_lem :
    (lo : ℕ) (s : Segment) (done : List Segment)
    → Gapped lo done
    → All (Staggered s) done
    → merge_all s (insert s done) ≡ some (combine s done, told_by s done)
unfolding reverse_onto
merge_all_lem lo s [] g h = unfold insert merge_all combine told_by in refl
merge_all_lem lo s (d ∷ ds) g (inl x, h) =
    rw (insert_left s d ds x.0, merge_all_cons s d (insert s ds) (length-insert-pos s ds))
      (merge_main ds _ s d [] x.0 x.1 tt g.2 h (omega arith))
merge_all_lem lo s (d ∷ ds) g (inr x, h) =
    rw (insert_right s d ds x.0, merge_all_cons s s (d ∷ ds) (omega arith))
      (merge_right _ lo s s [] (d ∷ ds) none g tt x (omega arith)
        ∙ rw (told_right-none s (d ∷ ds) x) refl)

-- The bytes that a bundle is told of.
abbrev pub counted : Bool → Segment → List Segment → Option ℤ
counted has_bundle s done =
    if has_bundle
    then (elim (told_by s done) [ none ↦ some (pos s.size) | some n ↦ some n ])
    else none

pub add_finished_segment_lem :
    (has_bundle : Bool) (lo : ℕ) (s : Segment) (done : List Segment)
    → Gapped lo done
    → All (Staggered s) done
    → add_finished_segment has_bundle s done ≡ some (combine s done, counted has_bundle s done)
unfolding add_finished_segment
add_finished_segment_lem has_bundle lo s done g h =
    rw (merge_all_lem lo s done g h, add_finished_segment) refl
