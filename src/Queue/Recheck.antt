-- ===== src/Queue/Recheck.antt =====
-- The block loop of the integrity check, `QueueManager::recheckFileImpl` of
-- airdcpp/queue/QueueManager.cpp: which blocks of the file on disk are booked as downloaded.
use airdcpp_core.Base.{
  ℕ, suc, ◌+◌, ◌-◌, ◌≡◌, refl, Bool, true, false, List, [], ◌∷◌, if◌then◌else◌, Option, none, some,
  min, replicate,
}
use airdcpp_core.Queue.Segment.{Segment, segment, in_set}
use airdcpp_core.Queue.Finished.{add_finished_segment}

-- `pos`, `failedBytes`, and the downloaded segments of the item, which start out cleared.
pub record Check : Type 0 where
  pub pos : ℕ
  pub failed_bytes : ℕ
  pub booked : List Segment

-- The lambda over a pair of leaves: `matches` is `our == file`, `done` the segments that were
-- downloaded before. The `return` for a block that was not leaves `pos` where it is.
unfoldable pub check_block : ℕ → ℕ → List Segment → Bool → Check → Option Check
unfolding in_set
check_block size block done matches c =
    let here = segment c.pos (min (size - c.pos) block) in
    elim matches [
      | true ↦ elim (add_finished_segment true here c.booked) [
        | none ↦ none
        | some (booked, told) ↦ some (record c { pos = c.pos + block; booked = booked })
      ]
      | false ↦
          if in_set here done
          then some (record c { pos = c.pos + block; failed_bytes = c.failed_bytes + block })
          else some c
    ]

-- `boost::for_each` over the leaves of the tree and of the file.
unfoldable pub check_blocks : ℕ → ℕ → List Segment → List Bool → Check → Option Check
unfolding check_block
check_blocks size block done [] c = some c
check_blocks size block done (m ∷ ms) c = elim (check_block size block done m c) [
  | none ↦ none
  | some c' ↦ check_blocks size block done ms c'
]

-- How many leaves match.
abbrev pub matching : List Bool → ℕ
matching [] = 0
matching (true ∷ ms) = suc (matching ms)
matching (false ∷ ms) = matching ms

-- Where nothing was downloaded before, the outcome of the integrity check depends only on how many
-- blocks match: they are booked from the start of the file on, wherever they lie.
pub check_blocks-replicate :
    (size block : ℕ) (ms : List Bool) (c : Check)
    → check_blocks size block [] ms c ≡ check_blocks size block [] (replicate (matching ms) true) c
unfolding check_blocks
check_blocks-replicate size block [] c = refl
check_blocks-replicate size block (false ∷ ms) c = check_blocks-replicate size block ms c
check_blocks-replicate size block (true ∷ ms) c =
    go (λ c'. check_blocks-replicate size block ms c') _
  where
    go :
        ((c' : Check)
          → check_blocks size block [] ms c'
            ≡ check_blocks size block [] (replicate (matching ms) true) c')
        → (r : Option Check)
        → (elim r [ none ↦ none | some c' ↦ check_blocks size block [] ms c' ]) ≡ (elim r [
          | none ↦ none
          | some c' ↦ check_blocks size block [] (replicate (matching ms) true) c'
        ])
    go ih none = refl
    go ih (some c') = ih c'
