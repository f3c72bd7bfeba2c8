-- ===== src/Queue/Item.antt =====
-- The state of airdcpp/queue/QueueItem.h and QueueItemBase.h that the choice of the next segment
-- reads: priorities, running downloads, the settings and the item itself.
use airdcpp_core.Base.{
  ℕ, ◌+◌, ◌-◌, ◌*◌, ◌/◌, ◌%◌, Bool, true, false, not, ◌&&◌, ◌||◌, List, [], ◌∷◌, ltb, leb, ◌==◌,
  if◌then◌else◌, Option, none, some, any,
}
use airdcpp_core.Queue.Segment.{Segment, segment, end_of, same}

-- airdcpp/core/types/Priority.h.
pub data Priority : Type 0 where
  default paused_force paused lowest low normal high highest last : Priority

-- The values of the enumeration, from 0: the source counts from -1.
abbrev pub rank : Priority → ℕ
rank default = 0
rank paused_force = 1
rank paused = 2
rank lowest = 3
rank low = 4
rank normal = 5
rank high = 6
rank highest = 7
rank last = 8

abbrev pub same_priority : Priority → Priority → Bool
same_priority p q = rank p == rank q

-- A running download of the item: its part of the file, the bytes read of it, the tick at which it
-- started (0 if it has not), its measured speed and its user. `token` stands for the object.
pub record Download : Type 0 where
  pub part : Segment
  pub pos : ℕ
  pub started : ℕ
  pub average_speed : ℕ
  pub user : ℕ
  pub is_tree : Bool
  pub token : ℕ

-- `getSecondsLeft`.
unfoldable pub seconds_left : Download → ℕ
seconds_left d = if ltb 0 d.average_speed then (d.part.size - d.pos) / d.average_speed else 0

pub record Settings : Type 0 where
  pub multi_chunk : Bool
  pub overlap_slow_sources : Bool
  pub segments_manual : Bool
  pub number_of_segments : ℕ

-- `size` is `none` where the source has -1; `bundle` is the priority of the bundle, if there is one.
pub record QueueItem : Type 0 where
  pub size : Option ℕ
  pub done : List Segment
  pub downloads : List Download
  pub priority : Priority
  pub bundle : Option Priority
  pub max_segments : ℕ
  pub is_filelist : Bool
  pub is_partial_list : Bool
  pub is_client_view : Bool
  pub is_tth_list : Bool

abbrev pub has_bundle : QueueItem → Bool
has_bundle q = elim q.bundle [ none ↦ false | some p ↦ true ]

-- `QueueItemBase::isPausedPrio`, for the item and for the bundle.
abbrev pub is_paused : Priority → Bool
is_paused p = same_priority p paused_force || same_priority p paused

-- `QueueItem::isPausedPrio`.
unfoldable pub is_paused_prio : QueueItem → Bool
is_paused_prio q = elim q.bundle [
  | none ↦ is_paused q.priority
  | some b ↦
      if same_priority q.priority highest && not (same_priority b paused_force)
      then false
      else if is_paused b
      then true
      else is_paused q.priority
]

-- `getMaxSegments`: 1048576 is a megabyte.
unfoldable pub get_max_segments : Settings → ℕ → ℕ
get_max_segments settings size =
    let mb : ℕ = 1048576 in
    if settings.segments_manual
    then (if ltb (settings.number_of_segments % 256) 10
        then settings.number_of_segments % 256
        else 10)
    else if leb (2 * mb) size && ltb size (15 * mb)
    then 2
    else if leb (15 * mb) size && ltb size (30 * mb)
    then 3
    else if leb (30 * mb) size && ltb size (60 * mb)
    then 4
    else if leb (60 * mb) size && ltb size (120 * mb)
    then 5
    else if leb (120 * mb) size && ltb size (240 * mb)
    then 6
    else if leb (240 * mb) size && ltb size (480 * mb)
    then 7
    else if leb (480 * mb) size && ltb size (960 * mb)
    then 8
    else if leb (960 * mb) size && ltb size (1920 * mb)
    then 9
    else if leb (1920 * mb) size
    then 10
    else 1

-- `getDownloadedSegments` and `getDownloadedBytes`.
unfoldable pub downloaded_segments : List Segment → ℕ
downloaded_segments [] = 0
downloaded_segments (d ∷ ds) = d.size + downloaded_segments ds

unfoldable pub running_bytes : List Download → ℕ
running_bytes [] = 0
running_bytes (d ∷ ds) = d.pos + running_bytes ds

unfoldable pub downloaded_bytes : QueueItem → ℕ
unfolding downloaded_segments running_bytes
downloaded_bytes q = downloaded_segments q.done + running_bytes q.downloads

-- `segmentsDone`: one segment, the whole file.
abbrev pub is_whole : Option ℕ → List Segment → Bool
is_whole none done = false
is_whole (some n) (d ∷ []) = same d (segment 0 n)
is_whole (some n) _ = false

unfoldable pub segments_done : QueueItem → Bool
segments_done q = is_whole q.size q.done

-- `isChunkDownloaded`.
unfoldable pub is_chunk_downloaded : QueueItem → Segment → Bool
is_chunk_downloaded q s =
    if s.size == 0
    then false
    else any (λ d. leb d.start s.start && ltb s.start (end_of d) && leb (end_of s) (end_of d))
        q.done

-- `usesSmallSlot`; an unknown size is -1 and so below the limit.
unfoldable pub uses_small_slot : QueueItem → Bool
uses_small_slot q =
    q.is_partial_list
    || ((elim q.size [ none ↦ true | some n ↦ leb n 65792 ])
        && not q.is_filelist
        && q.is_client_view)

-- `allowUrlChange`.
unfoldable pub allow_url_change : QueueItem → Bool
allow_url_change q = not q.is_filelist || q.is_tth_list
