-- ===== src/Queue/Finished/Merge.antt =====
-- What the merge of `addFinishedSegment` comes to, on a set of segments with gaps between them.
use airdcpp_core.Base.{
  ℕ, zero, suc, ◌+◌, ◌-◌, ◌≤◌, ◌<◌, min, max, true, false, List, [], ◌∷◌, ◌≡◌, ◌⊎◌, inl, inr, refl,
  ◌∙◌, arith, ltb, leb, if◌then◌else◌, length, Option, none, some, Bool-cases,
}
use airdcpp_core.Base.Int.{ℤ}
use airdcpp_core.Queue.Segment.{Segment, segment, end_of}
use airdcpp_core.Queue.Finished.{insert_around, new_bytes, reverse_onto, merge_loop}

-- In order from `lo` on, none empty, and with a gap between any two.
abbrev pub Gapped : ℕ → List Segment → Type 0
Gapped lo [] = Unit
Gapped lo (s ∷ r) = (lo ≤ s.start) × (0 < s.size) × Gapped (end_of s + 1) r

-- From the start of the first to the end of the second.
abbrev pub joined : Segment → Segment → Segment
joined prev i = segment prev.start (end_of i - prev.start)

-- The plain description: a segment is put into the set, and joined with those that it touches.
unfoldable pub combine : Segment → List Segment → List Segment
combine s [] = s ∷ []
combine s (x ∷ r) =
    let later = combine s r in
    let low = min s.start x.start in
    let joins = combine (segment low (max (end_of s) (end_of x) - low)) r in
    if ltb (end_of x) s.start
    then x ∷ later
    else if ltb (end_of s) x.start
    then s ∷ x ∷ r
    else joins

-- Neither segment holds the other.
abbrev pub Staggered : Segment → Segment → Type 0
Staggered s d =
    ((d.start < s.start) × (end_of d < end_of s)) ⊎ ((s.start < d.start) × (end_of s < end_of d))

abbrev pub Below : Segment → List Segment → Type 0
Below p [] = Unit
Below p (x ∷ xs) = x.start < p.start

abbrev pub Above : Segment → List Segment → Type 0
Above p [] = Unit
Above p (x ∷ xs) = p.start < x.start

insert_around_place :
    (big : Segment) (ps is : List Segment)
    → Below big ps
    → Above big is
    → insert_around big (record { front = ps; rest = is }) ≡ record { front = big ∷ ps; rest = is }
unfolding insert_around
insert_around_place big [] [] b a = refl
insert_around_place big [] (i ∷ is) b a = ground arith
insert_around_place big (p ∷ ps) [] b a = ground arith
insert_around_place big (p ∷ ps) (i ∷ is) b a = ground arith

abbrev pub tell : Option ℤ → ℤ → Option ℤ
tell none n = some n
tell (some m) n = some m

pub merge_step :
    (fuel : ℕ) (added p i : Segment) (ps is : List Segment) (told : Option ℤ)
    → i.start ≤ end_of p
    → Below p ps
    → Above p is
    → merge_loop (suc fuel) added (record { front = p ∷ ps; rest = i ∷ is }) told
      ≡ merge_loop fuel added
          (record { front = joined p i ∷ ps; rest = is })
          (tell told (new_bytes added p i))
unfolding merge_loop
merge_step fuel added p i ps is none h b a =
    let e : leb i.start (end_of p) ≡ true = ground arith in
    rw (e, merge_loop, insert_around_place (joined p i) ps is b a) refl
merge_step fuel added p i ps is (some n) h b a =
    let e : leb i.start (end_of p) ≡ true = ground arith in
    rw (e, merge_loop, insert_around_place (joined p i) ps is b a) refl

pub pass_step :
    (fuel : ℕ) (added p i : Segment) (ps is : List Segment) (told : Option ℤ)
    → end_of p < i.start
    → merge_loop (suc fuel) added (record { front = p ∷ ps; rest = i ∷ is }) told
      ≡ merge_loop fuel added (record { front = i ∷ p ∷ ps; rest = is }) told
unfolding merge_loop
pass_step fuel added p i ps is told h =
    let e : leb i.start (end_of p) ≡ false = ground arith in rw (e, merge_loop) refl

-- Segments with gaps are passed.
pass_all :
    (fuel : ℕ) (added p : Segment) (ps rs : List Segment) (told : Option ℤ)
    → Gapped (end_of p + 1) rs
    → length rs < fuel
    → merge_loop fuel added (record { front = p ∷ ps; rest = rs }) told
      ≡ some (reverse_onto (p ∷ ps) rs, told)
unfolding reverse_onto
pass_all zero added p ps rs told g h = absurd (omega arith)
pass_all (suc fuel) added p ps [] told g h = unfold merge_loop in refl
pass_all (suc fuel) added p ps (r ∷ rs) told g h =
    pass_step fuel added p r ps rs told (omega arith)
    ∙ pass_all fuel added r (p ∷ ps) rs told g.2 (omega arith)

-- What the bundle is told of a segment that stands right before `rs`.
unfoldable pub told_right : Option ℤ → Segment → Segment → List Segment → Option ℤ
told_right told added p [] = told
told_right told added p (r ∷ rs) =
    if leb r.start (end_of p) then tell told (new_bytes added p r) else told

abbrev pub Ahead : Segment → List Segment → Type 0
Ahead p [] = Unit
Ahead p (r ∷ rs) = (p.start < r.start) × (end_of p < end_of r)

combine-Gapped_self :
    (p : Segment) (rs : List Segment) → Gapped (end_of p + 1) rs → combine p rs ≡ p ∷ rs
unfolding combine
combine-Gapped_self p [] g = refl
combine-Gapped_self p (r ∷ rs) g = ground arith

pub Gapped-le : {lo lo' : ℕ} (rs : List Segment) → lo ≤ lo' → Gapped lo' rs → Gapped lo rs
Gapped-le [] h g = tt
Gapped-le (r ∷ rs) h g = (omega arith, g.1, g.2)

combine_touch_right :
    (p r : Segment) (rs : List Segment)
    → p.start < r.start
    → end_of p < end_of r
    → r.start ≤ end_of p
    → combine p (r ∷ rs) ≡ combine (joined p r) rs
unfolding combine
combine_touch_right p r rs a b c =
    let low : min p.start r.start ≡ p.start = omega arith in
    let high : max (end_of p) (end_of r) ≡ end_of r = omega arith in
    let t1 : ltb (end_of r) p.start ≡ false = ground arith in
    let t2 : ltb (end_of p) r.start ≡ false = ground arith in rw (t1, t2, low, high) refl

pub combine_touch_left :
    (s l : Segment) (rs : List Segment)
    → l.start < s.start
    → end_of l < end_of s
    → s.start ≤ end_of l
    → combine s (l ∷ rs) ≡ combine (joined l s) rs
unfolding combine
combine_touch_left s l rs a b c =
    let low : min s.start l.start ≡ l.start = omega arith in
    let high : max (end_of s) (end_of l) ≡ end_of s = omega arith in
    let t1 : ltb (end_of l) s.start ≡ false = ground arith in
    let t2 : ltb (end_of s) l.start ≡ false = ground arith in rw (t1, t2, low, high) refl

Gapped-joined :
    (p r : Segment) (rs : List Segment)
    → p.start < r.start
    → Gapped (end_of r + 1) rs
    → Gapped (end_of (joined p r) + 1) rs
Gapped-joined p r rs a g = Gapped-le rs (omega arith) g

pub Gapped-Above :
    (p r : Segment) (rs : List Segment) → p.start < r.start → Gapped (end_of r + 1) rs → Above p rs
Gapped-Above p r [] a g = tt
Gapped-Above p r (x ∷ rs) a g = omega arith

pub merge_right :
    (fuel lo : ℕ) (added p : Segment) (ps rs : List Segment) (told : Option ℤ)
    → Gapped lo rs
    → Below p ps
    → Ahead p rs
    → length rs < fuel
    → merge_loop fuel added (record { front = p ∷ ps; rest = rs }) told
      ≡ some (reverse_onto ps (combine p rs), told_right told added p rs)
unfolding told_right
merge_right fuel lo added p ps [] told g b a h =
    unfold combine reverse_onto in pass_all fuel added p ps [] told tt h
merge_right zero lo added p ps (r ∷ rs) told g b a h = absurd (omega arith)
merge_right (suc fuel) lo added p ps (r ∷ rs) told g b a h =
    elim (Bool-cases (leb r.start (end_of p))) [
      | inl e ↦
          let touch : r.start ≤ end_of p = ground arith in
          let gap = Gapped-joined p r rs a.0 g.2 in
          rw e (
            merge_step fuel added p r ps rs told touch b (Gapped-Above p r rs a.0 g.2)
            ∙ pass_all fuel added (joined p r) ps rs _ gap (omega arith)
            ∙ rw (combine_touch_right p r rs a.0 a.1 touch, combine-Gapped_self (joined p r) rs gap)
                (unfold reverse_onto in refl))
      | inr e ↦
          let gap : Gapped (end_of p + 1) (r ∷ rs) = (ground arith, g.1, g.2) in
          rw e (
            pass_all (suc fuel) added p ps (r ∷ rs) told gap (omega arith)
            ∙ rw (combine-Gapped_self p (r ∷ rs) gap) (unfold reverse_onto in refl))
    ]
