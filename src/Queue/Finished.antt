-- ===== src/Queue/Finished.antt =====
-- `QueueItem::addFinishedSegment` of airdcpp/queue/QueueItem.cpp: the set of the downloaded segments
-- and the bytes that the bundle is told of.
pub mod Merge
pub mod Insert
pub mod Coverage
pub mod Accounting
use airdcpp_core.Base.{
  ℕ, zero, suc, ◌+◌, ◌-◌, ◌*◌, Bool, true, false, List, [], ◌∷◌, ◌≡◌, refl, arith, ltb, leb,
  if◌then◌else◌, length, Option, none, some,
}
use airdcpp_core.Base.Int.{ℤ, pos, sub_ℕ}
use airdcpp_core.Queue.Segment.{Segment, segment, end_of, same, before, insert}

-- The set as the iterator sees it: the segments in front of it, the nearest first, and those from it on.
pub record Cursor : Type 0 where
  pub front : List Segment
  pub rest : List Segment

-- The same order, read backwards.
unfoldable pub insert_back : Segment → List Segment → List Segment
insert_back s [] = s ∷ []
insert_back s (x ∷ xs) =
    let far = insert_back s xs in
    if before x s then s ∷ x ∷ xs else if before s x then x ∷ far else x ∷ xs

-- `done.insert(big)`. The iterator stays at its segment.
unfoldable pub insert_around : Segment → Cursor → Cursor
unfolding insert insert_back
insert_around s c = elim c.rest [
  | [] ↦ record c { front = insert_back s c.front }
  | i ∷ is ↦
      if before s i
      then record c { front = insert_back s c.front }
      else record c { rest = insert s (i ∷ is) }
]

-- The bytes of a merge that had not been counted.
abbrev pub new_bytes : Segment → Segment → Segment → ℤ
new_bytes added prev i =
    sub_ℕ (end_of i - prev.start) (if same prev added then i.size else prev.size)

unfoldable pub reverse_onto : List Segment → List Segment → List Segment
reverse_onto [] ys = ys
reverse_onto (x ∷ xs) ys = reverse_onto xs (x ∷ ys)

-- The loop over the set. `told` is what the bundle was told at the first merge. There is no result
-- if the rounds run out, or if nothing stands in front of the iterator (the code has no such state).
unfoldable pub merge_loop : ℕ → Segment → Cursor → Option ℤ → Option (List Segment × Option ℤ)
unfolding insert_around
merge_loop zero added c told = none
merge_loop (suc fuel) added c told = elim c.rest [
  | [] ↦ some (reverse_onto c.front [], told)
  | i ∷ is ↦ elim c.front [
    | [] ↦ none
    | prev ∷ ps ↦ elim (leb i.start (end_of prev)) [
      | true ↦
          merge_loop fuel added
            (insert_around (segment prev.start (end_of i - prev.start))
              (record { front = ps; rest = is }))
            (elim told [ none ↦ some (new_bytes added prev i) | some n ↦ some n ])
      | false ↦ merge_loop fuel added (record { front = i ∷ prev ∷ ps; rest = is }) told
    ]
  ]
]

-- Each round passes a segment or removes one: twice the size of the set is enough.
abbrev pub rounds : List Segment → ℕ
rounds done = 2 * length done

-- The iterator starts at the second segment; a set of one is left alone.
unfoldable pub merge_all : Segment → List Segment → Option (List Segment × Option ℤ)
unfolding merge_loop reverse_onto
merge_all added [] = some ([], none)
merge_all added (d ∷ []) = some (d ∷ [], none)
merge_all added (d ∷ e ∷ ds) =
    merge_loop (rounds (d ∷ e ∷ ds)) added (record { front = d ∷ []; rest = e ∷ ds }) none

-- `addFinishedSegment`: the new set, and the bytes added to the bundle, if there is one.
unfoldable pub add_finished_segment :
    Bool → Segment → List Segment → Option (List Segment × Option ℤ)
unfolding merge_all insert
add_finished_segment has_bundle added done = elim (merge_all added (insert added done)) [
  | none ↦ none
  | some (done', told) ↦ some (
    done',
    (if has_bundle then (elim told [ none ↦ some (pos added.size) | some n ↦ some n ]) else none),
  )
]
