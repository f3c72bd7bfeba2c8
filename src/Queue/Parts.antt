-- ===== src/Queue/Parts.antt =====
-- The exchange of file parts: `isNeededPart` and `getPartialInfo` of airdcpp/queue/QueueItem.cpp.
pub mod Needed
use airdcpp_core.Base.{
  ℕ, ◌+◌, ◌-◌, ◌*◌, ◌/◌, ◌%◌, ◌≡◌, refl, Bool, true, false, not, ◌&&◌, List, [], ◌∷◌, ltb, leb,
  if◌then◌else◌, min, length, ◌==◌,
}
use airdcpp_core.Queue.Segment.{Segment, segment, end_of}

-- `while (i != done.end() && i->getEnd() <= pos) i++`.
unfoldable pub skip_before : ℕ → List Segment → List Segment
skip_before pos [] = []
skip_before pos (d ∷ ds) =
    let rest = skip_before pos ds in if leb (end_of d) pos then rest else d ∷ ds

abbrev pub holds : List Segment → ℕ → ℕ → Bool
holds [] low high = false
holds (d ∷ ds) low high = leb d.start low && leb high (end_of d)

-- `isNeededPart`: the indices come in pairs, and the iterator is not set back between them.
unfoldable pub is_needed_part : ℕ → List (ℕ × ℕ) → List Segment → Bool
unfolding skip_before
is_needed_part block [] done = false
is_needed_part block ((low, high) ∷ parts) done =
    let here = skip_before (low * block) done in
    let rest = is_needed_part block parts here in
    if holds here (low * block) (high * block) then rest else true

-- The loop of `getPartialInfo`, with the number of pairs that it may still add. The indices are
-- uint16_t.
unfoldable pub partial_loop : ℕ → ℕ → List Segment → List (ℕ × ℕ)
partial_loop block room [] = []
partial_loop block room (d ∷ ds) =
    let rest = partial_loop block (room - 1) ds in
    if room == 0
    then []
    else ((d.start / block) % 65536, ((end_of d - 1) / block + 1) % 65536) ∷ rest

-- At most 255 pairs.
unfoldable pub get_partial_info : ℕ → List Segment → List (ℕ × ℕ)
unfolding partial_loop
get_partial_info block done = partial_loop block (min (length done) 255) done
