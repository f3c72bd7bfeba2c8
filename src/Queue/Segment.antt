-- ===== src/Queue/Segment.antt =====
-- airdcpp/core/classes/Segment.h. Offsets and sizes of real segments are nonnegative int64_t values
-- far below the limit, so they are plain numbers.
use airdcpp_core.Base.{
  ℕ, ◌+◌, ◌-◌, ◌≤◌, ◌<◌, ◌≡◌, ◌↔◌, ◌⊎◌, Bool, true, false, not, ◌&&◌, ◌||◌, List, [], ◌∷◌, arith,
  ltb, leb, ◌==◌, if◌then◌else◌, any, max,
}

pub record Segment : Type 0 where
  pub start : ℕ
  pub size : ℕ
  pub overlapped : Bool

abbrev pub segment : ℕ → ℕ → Segment
segment start size = record { start = start; size = size; overlapped = false }

abbrev pub end_of : Segment → ℕ
end_of s = s.start + s.size

unfoldable pub overlaps : Segment → Segment → Bool
overlaps s t = ltb s.start (end_of t) && ltb t.start (end_of s)

unfoldable pub trim : Segment → Segment → Segment
unfolding overlaps
trim s t =
    if not (overlaps s t)
    then s
    else if ltb t.start s.start
    then (if ltb (end_of s) (end_of t)
        then record s { start = 0; size = 0 }
        else record s { start = end_of t; size = s.size - (end_of t - s.start) })
    else record s { size = t.start - s.start }

unfoldable pub contains : Segment → Segment → Bool
contains s t = leb s.start t.start && leb (end_of t) (end_of s)

-- `s.inSet(segments)`.
unfoldable pub in_set : Segment → List Segment → Bool
unfolding contains
in_set s segments = any (λ d. contains d s) segments

-- `operator==` and `operator<`.
abbrev pub same : Segment → Segment → Bool
same s t = s.start == t.start && s.size == t.size

abbrev pub before : Segment → Segment → Bool
before s t = ltb s.start t.start || (s.start == t.start && ltb s.size t.size)

-- `set<Segment>::insert`: the set in its order, and nothing is added where an equal segment stands.
unfoldable pub insert : Segment → List Segment → List Segment
insert s [] = s ∷ []
insert s (x ∷ xs) =
    let rest = insert s xs in
    if before s x then s ∷ x ∷ xs else if before x s then x ∷ rest else x ∷ xs

-- The byte at `x` lies in the segment.
abbrev pub Within : ℕ → Segment → Type 0
Within x s = (s.start ≤ x) × (x < end_of s)

-- Of two segments that are not empty, overlaps holds exactly if there is a byte in both.
pub overlaps_common :
    (s t : Segment)
    → 0 < s.size
    → 0 < t.size
    → (overlaps s t ≡ true) ↔ ((x : ℕ) × (Within x s × Within x t))
unfolding overlaps
overlaps_common s t hs ht = (there, back)
  where
    there : overlaps s t ≡ true → (x : ℕ) × (Within x s × Within x t)
    there h = (max s.start t.start, ground arith)

    back : (x : ℕ) × (Within x s × Within x t) → overlaps s t ≡ true
    back (x, (a, b)) = ground arith

-- Of two overlapping segments, trim keeps exactly the bytes of the first that lie in front of the
-- second if the first starts no later, and those behind it otherwise.
pub trim-Within :
    (s t : Segment) (x : ℕ)
    → overlaps s t ≡ true
    → Within x (trim s t) ↔ (
        Within x s
        × (((s.start ≤ t.start) × (x < t.start)) ⊎ ((t.start < s.start) × (end_of t ≤ x))))
unfolding trim
trim-Within s t x o = (ground arith, ground arith)
