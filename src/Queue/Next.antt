-- ===== src/Queue/Next.antt =====
-- `QueueItem::getNextSegment` and `checkOverlaps` of airdcpp/queue/QueueItem.cpp, with the rounding
-- functions of airdcpp/util/Util.h.
pub mod Search
pub mod Outcome
pub mod Answer
mod Tests
use airdcpp_core.Base.{
  ℕ, zero, suc, ◌+◌, ◌-◌, ◌*◌, ◌/◌, ◌%◌, ◌^◌, ◌≡◌, refl, Bool, true, false, not, ◌&&◌, ◌||◌, List,
  [], ◌∷◌, ◌++◌, min, max, ltb, leb, ◌==◌, if◌then◌else◌, Option, none, some, length, any,
  get_elem?,
}
use airdcpp_core.Queue.Segment.{Segment, segment, end_of, overlaps}
use airdcpp_core.Queue.Item.{
  Download, seconds_left, Settings, QueueItem, has_bundle, is_paused_prio, downloaded_bytes,
}

-- `Util::roundDown` rounds to the nearest block, `Util::roundUp` up.
unfoldable pub round_down : ℕ → ℕ → ℕ
round_down size block = (size + block / 2) / block * block

unfoldable pub round_up : ℕ → ℕ → ℕ
round_up size block = (size + block - 1) / block * block

-- What the double arithmetic of the wanted size is made of.
pub record Doubles : Type 1 where
  pub Double : Type 0
  pub of_int : ℕ → Double
  pub to_int : Double → ℕ
  pub div : Double → Double → Double
  pub mul : Double → Double → Double
  pub sub : Double → Double → Double
  pub max_of : Double → Double → Double
  pub quarter : Double
  pub one : Double

-- Smaller parts near the end of the transfer, a number of whole blocks.
unfoldable pub target_size : Doubles → ℕ → ℕ → ℕ → ℕ → ℕ
unfolding round_down
target_size f wanted downloaded size block =
    let done_part = f.div (f.of_int downloaded) (f.of_int size) in
    let target =
      f.to_int
        (f.mul (f.of_int wanted) (f.max_of f.quarter (f.sub f.one (f.mul done_part done_part)))) in
    if ltb block target then round_down target block else block

-- The answers of `getNextSegment`: a segment, one of the two marks (0, -1) and (-1, 0), or a segment
-- whose size is negative, given by its start and how far its end lies in front of it.
pub data Next : Type 0 where
  part : Segment → Next
  negative_part : (start below : ℕ) → Next
  unknown_size limit_reached : Next

-- Segment(start, stop - start).
unfoldable pub part_between : (start stop : ℕ) → Next
part_between start stop =
    if leb start stop
    then part (segment start (stop - start))
    else negative_part start (start - stop)

-- The ranges of a source's parts, as file positions: the indices come in pairs.
unfoldable pub positions : ℕ → ℕ → List ℕ → List (ℕ × ℕ)
positions size block (b ∷ e ∷ rest) =
    (min size (b * block), min size (e * block)) ∷ positions size block rest
positions size block _ = []

-- The parts of a block that the source has, by start and end; the ends may be in the wrong order.
unfoldable pub parts_of : Segment → List (ℕ × ℕ) → List (ℕ × ℕ)
parts_of s [] = []
parts_of s ((b, e) ∷ ps) =
    let rest = parts_of s ps in
    let low = max s.start b in
    if (leb b s.start && ltb s.start e) || (leb s.start b && ltb b (end_of s))
    then (low, min (end_of s) e) ∷ rest
    else rest

-- Is the block taken? A single block is only if one downloaded segment has all of it.
unfoldable pub is_taken : ℕ → ℕ → List Segment → List Download → Segment → Bool
unfolding overlaps
is_taken block cur done downloads s =
    any
      (λ d.
        if leb cur block then leb d.start s.start && leb (end_of s) (end_of d) else overlaps s d)
      done
    || any (λ (d : Download). overlaps s d.part) downloads

pub data Found : Type 0 where
  out_of_fuel : Found
  block_found : Segment → Found
  all_seen : List (ℕ × ℕ) → Found

-- The search over the file. `ranges` are the positions of the source's parts, if it has told them.
module _ (block target size : ℕ) (done : List Segment) (downloads : List Download)
    (ranges : Option (List (ℕ × ℕ))) where
  unfoldable pub search_loop : ℕ → ℕ → ℕ → List (ℕ × ℕ) → Found
  search_loop zero start cur needed = out_of_fuel
  search_loop (suc fuel) start cur needed =
      let s = segment start (min size (start + cur) - start) in
      let shorter = search_loop fuel start (cur - block) needed in
      let next = search_loop fuel (end_of s) target needed in
      if not (ltb start size)
      then all_seen needed
      else if is_taken block cur done downloads s
      then (if ltb block cur then shorter else next)
      else elim ranges [
        | none ↦ block_found s
        | some ps ↦ search_loop fuel (end_of s) target (needed ++ parts_of s ps)
      ]

-- Every start is tried with every number of blocks at most.
abbrev pub search_fuel : ℕ → ℕ → ℕ
search_fuel size target = (size + 1) * (target + 1)

-- A difference of uint64_t ticks.
abbrev pub ticks_since : ℕ → ℕ → ℕ
ticks_since now tick = (now + 2 ^ 64 - tick) % 2 ^ 64

-- The loop of `checkOverlaps`: the first slow download that the new user would finish much faster.
unfoldable pub overlap_loop : ℕ → ℕ → ℕ → List Download → Segment
unfolding seconds_left
overlap_loop now block last_speed [] = segment 0 0
overlap_loop now block last_speed (d ∷ ds) =
    let rest = overlap_loop now block last_speed ds in
    let pos = d.pos - d.pos % block in
    let chunk_size = d.part.size - pos in
    if d.part.overlapped
    then rest
    else if d.started == 0 || ltb (ticks_since now d.started) 4000
    then rest
    else if ltb (seconds_left d) 20
    then rest
    else if ltb (2 * (chunk_size / last_speed)) (seconds_left d)
    then record { start = d.part.start + pos; size = chunk_size; overlapped = true }
    else rest

unfoldable pub check_overlaps : Settings → ℕ → QueueItem → ℕ → ℕ → Bool → Bool → Segment
unfolding overlap_loop
check_overlaps settings now q block last_speed has_parts allow_overlap =
    if allow_overlap
      && not has_parts
      && has_bundle q
      && settings.overlap_slow_sources
      && ltb 0 last_speed
    then overlap_loop now block last_speed q.downloads
    else segment 0 0

-- One download at a time: the gap at the first downloaded segment.
unfoldable pub single_chunk : ℕ → ℕ → List Segment → Next
unfolding round_up round_down part_between
single_chunk size block [] = part_between 0 size
single_chunk size block (first ∷ rest) =
    if ltb 0 first.start
    then part_between 0 (min size (round_up first.start block))
    else (let start = round_down (end_of first) block in
        elim rest [
          | [] ↦ part_between start size
          | second ∷ _ ↦ part_between start (min size (round_up second.start block))
        ])

-- A request: what the source wants and can do, the parts that it has told of, and the clock.
pub record Request : Type 0 where
  pub block_size : ℕ
  pub wanted_size : ℕ
  pub last_speed : ℕ
  pub parts_info : Option (List ℕ)
  pub allow_overlap : Bool
  pub now : ℕ

-- The choice among the needed parts: `roll n` is the random number from 0 to `n`. A size is cut to
-- the one that is wanted.
unfoldable pub choose_part : (ℕ → ℕ) → ℕ → List (ℕ × ℕ) → Option Next
unfolding part_between
choose_part roll target needed = elim (get_elem? needed (roll (length needed - 1))) [
  | none ↦ none
  | some (b, e) ↦ some (part_between b (min e (b + target)))
]

abbrev pub has_parts : Request → Bool
has_parts r = elim r.parts_info [ none ↦ false | some _ ↦ true ]

-- The source's parts as file positions, if it has told of them.
unfoldable pub ranges_of : ℕ → ℕ → Option (List ℕ) → Option (List (ℕ × ℕ))
unfolding positions
ranges_of size block none = none
ranges_of size block (some ps) = some (positions size block ps)

-- The answer after the search, with the overlap where it comes to nothing.
unfoldable pub finish_search : (ℕ → ℕ) → ℕ → Segment → Found → Option Next
unfolding choose_part
finish_search roll target overlap out_of_fuel = none
finish_search roll target overlap (block_found s) = some (part s)
finish_search roll target overlap (all_seen needed) = elim (choose_part roll target needed) [
  | none ↦ some (part overlap)
  | some n ↦ some n
]

-- The many-segments branch.
unfoldable pub next_of_many : Doubles → Settings → (ℕ → ℕ) → QueueItem → Request → ℕ → Option Next
unfolding target_size search_loop check_overlaps ranges_of finish_search
next_of_many f settings roll q r size =
    let target = target_size f r.wanted_size (downloaded_bytes q) size r.block_size in
    let overlap =
      check_overlaps settings r.now q r.block_size r.last_speed (has_parts r) r.allow_overlap in
    finish_search roll target overlap (
      search_loop r.block_size target size q.done q.downloads
        (ranges_of size r.block_size r.parts_info) (search_fuel size target) 0 target [])

-- `getNextSegment`. There is no result only if the search runs out of rounds.
unfoldable pub get_next_segment : Doubles → Settings → (ℕ → ℕ) → QueueItem → Request → Option Next
unfolding next_of_many single_chunk check_overlaps
get_next_segment f settings roll q r = elim q.size [
  | none ↦ some unknown_size
  | some size ↦
      if r.block_size == 0
      then some unknown_size
      else if not settings.multi_chunk || leb size r.block_size
      then elim q.downloads [
        | [] ↦ some (single_chunk size r.block_size q.done)
        | _ ∷ _ ↦ some (
            part (
              check_overlaps settings r.now q r.block_size r.last_speed (has_parts r)
                r.allow_overlap))
      ]
      else if is_paused_prio q || leb q.max_segments (length q.downloads)
      then some limit_reached
      else next_of_many f settings roll q r size
]
