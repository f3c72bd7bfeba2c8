-- ===== src/Queue/Tests.antt =====
-- Tests of the queue modules, and the theorems at inputs that meet their hypotheses.
use airdcpp_core.Base.{
  ℕ, ◌+◌, ◌≡◌, ◌↔◌, ◌⊎◌, refl, true, false, replicate, List, [], ◌∷◌, arith, some, Option,
}
use airdcpp_core.Base.Int.{ℤ, pos, negsuc}
use airdcpp_core.Queue.Segment.{Segment, segment, Within}
use airdcpp_core.Queue.Finished.{add_finished_segment}
use airdcpp_core.Queue.Finished.Merge.{Gapped}
use airdcpp_core.Queue.Finished.Coverage.{Covers, total, add_finished_segment-Covers}
use airdcpp_core.Queue.Finished.Accounting.{add_finished_segment-total, add_finished_segment_inside}
use airdcpp_core.Queue.Parts.{is_needed_part}
use airdcpp_core.Queue.Parts.Needed.{AllHeld, is_needed_part-AllHeld}
use airdcpp_core.Queue.Recheck.{Check, check_blocks, matching, check_blocks-replicate}

abbrev done : List Segment
done = segment 0 10 ∷ segment 15 5 ∷ segment 30 2 ∷ []

fills_gap :
    add_finished_segment true (segment 10 5) done
    ≡ some (segment 0 20 ∷ segment 30 2 ∷ [], some (pos 5))
unfolding add_finished_segment
fills_gap = refl

add_finished_segment-Covers_example :
    (done' : List Segment) × (told : Option ℤ) × (add_finished_segment true (segment 8 9) done
      ≡ some (done', told))
    × Gapped 0 done'
    × ((x : ℕ) → Covers x done' ↔ (Within x (segment 8 9) ⊎ Covers x done))
add_finished_segment-Covers_example =
    add_finished_segment-Covers true 0 (segment 8 9) done (omega arith) (omega arith) (omega arith)
      (omega arith)

add_finished_segment-total_example :
    (done' : List Segment) × (add_finished_segment true (segment 10 5) done
      ≡ some (done', some (pos 5)))
    × (total done' ≡ 5 + total done)
add_finished_segment-total_example =
    add_finished_segment-total 0 (segment 10 5) done (omega arith) (omega arith) (omega arith)

add_finished_segment_inside_example :
    add_finished_segment true (segment 10 10) (segment 0 30 ∷ [])
    ≡ some (segment 0 20 ∷ [], some (negsuc 9))
add_finished_segment_inside_example =
    add_finished_segment_inside (segment 10 10) (segment 0 30) (omega arith) (omega arith)

is_needed_part-AllHeld_example :
    (is_needed_part 10 ((0, 1) ∷ (3, 4) ∷ []) (segment 0 20 ∷ segment 25 10 ∷ []) ≡ false)
    ↔ AllHeld 10 (segment 0 20 ∷ segment 25 10 ∷ []) ((0, 1) ∷ (3, 4) ∷ [])
is_needed_part-AllHeld_example =
    is_needed_part-AllHeld 10 0 0 ((0, 1) ∷ (3, 4) ∷ []) (segment 0 20 ∷ segment 25 10 ∷ [])
      (omega arith) (omega arith) (omega arith)

abbrev checked : Check
checked = record { pos = 0; failed_bytes = 0; booked = [] }

-- The second block of two matches, and the first one is booked.
books_first :
    check_blocks 20 10 [] (false ∷ true ∷ []) checked
    ≡ some (record { pos = 10; failed_bytes = 0; booked = segment 0 10 ∷ [] })
unfolding check_blocks add_finished_segment
books_first = refl

check_blocks-replicate_example :
    check_blocks 20 10 [] (false ∷ true ∷ []) checked
    ≡ check_blocks 20 10 [] (replicate (matching (false ∷ true ∷ [])) true) checked
check_blocks-replicate_example = check_blocks-replicate 20 10 (false ∷ true ∷ []) checked
