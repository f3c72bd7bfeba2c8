-- ===== src/Queue/Next/Answer.antt =====
-- The answer of `getNextSegment`, and that of the single-segment mode.
use native.Mathlib.Nat.{div-eq_of_lt-le}
use airdcpp_core.Base.{
  ℕ, suc, ◌+◌, ◌-◌, ◌*◌, ◌/◌, ◌≤◌, ◌<◌, ◌≡◌, refl, ap, ap₂, ◌∙◌, ◌⊎◌, inl, inr, true, false, Option,
  none, some, List, [], ◌∷◌, arith, ltb, if◌then◌else◌, Bool-cases, length,
}
use airdcpp_core.Queue.Segment.{Segment, end_of}
use airdcpp_core.Queue.Item.{Settings, QueueItem, is_paused_prio, downloaded_bytes}
use airdcpp_core.Queue.Next.{
  round_down, Doubles, target_size, Next, part, negative_part, unknown_size, limit_reached,
  part_between, Found, out_of_fuel, block_found, all_seen, search_loop, search_fuel, check_overlaps,
  single_chunk, Request, has_parts, ranges_of, finish_search, next_of_many, get_next_segment,
}
use airdcpp_core.Queue.Next.Search.{IsFree}
use airdcpp_core.Queue.Next.Outcome.{AllTaken, Outcome, search-Outcome}

div-pos : (n b : ℕ) → 0 < b → b ≤ n → 0 < n / b
div-pos n b h k = grind arith

mul-le_left : (c m n : ℕ) → m ≤ n → c * m ≤ c * n
mul-le_left c m n h = grind arith

fuel_fits : (size top b : ℕ) → 0 < b → size * suc top + suc top ≤ (size + 1) * (suc top * b + 1)
fuel_fits size top b h =
    let more : suc top ≤ suc top * b = grind arith in
    omega (arith, mul-le_left size (suc top) (suc top * b) more)

le-mul_self : (n b : ℕ) → 0 < b → n ≤ n * b
le-mul_self n b h = grind arith

-- The size asked for is a positive number of whole blocks.
target_size_blocks :
    (f : Doubles) (wanted downloaded size block : ℕ)
    → 0 < block
    → (top : ℕ) × (target_size f wanted downloaded size block ≡ suc top * block)
unfolding target_size
target_size_blocks f wanted downloaded size block b = go _
  where
    go :
        (t : ℕ)
        → (top : ℕ) × ((if ltb block t then round_down t block else block) ≡ suc top * block)
    go t = elim (Bool-cases (ltb block t)) [
      | inl e ↦
          let quotient : 0 < (t + block / 2) / block =
            div-pos (t + block / 2) block b (ground arith) in
          let whole : (t + block / 2) / block ≡ suc ((t + block / 2) / block - 1) = omega arith in
          ((t + block / 2) / block - 1, rw e (ap (λ m. m * block) whole))
      | inr e ↦ (0, rw e (omega arith))
    ]

search_ends :
    (f : Doubles) (q : QueueItem) (r : Request) (size : ℕ)
    → 0 < r.block_size
    → let target = target_size f r.wanted_size (downloaded_bytes q) size r.block_size in
      Outcome r.block_size size q.done q.downloads 0 (
        search_loop r.block_size target size q.done q.downloads none
          (search_fuel size target)
          0
          target
          [])
search_ends f q r size b =
    let (top, e) = target_size_blocks f r.wanted_size (downloaded_bytes q) size r.block_size b in
    rw e (
      search-Outcome r.block_size size q.done q.downloads top
        (search_fuel size (suc top * r.block_size)) 0 top size 0 (suc top * r.block_size) b
        (omega arith) refl (omega (arith, le-mul_self size r.block_size b))
        (fuel_fits size top r.block_size b))

-- The overlap that `getNextSegment` falls back to.
abbrev pub fallback : Settings → QueueItem → Request → Segment
fallback settings q r =
    check_overlaps settings r.now q r.block_size r.last_speed false r.allow_overlap

abbrev pub Answer : Settings → QueueItem → Request → ℕ → Segment → Type 0
Answer settings q r size s =
    IsFree r.block_size size q.done q.downloads s
    ⊎ ((s ≡ fallback settings q r) × AllTaken r.block_size size q.done q.downloads 0)

finish-Answer :
    (settings : Settings) (roll : ℕ → ℕ) (q : QueueItem) (r : Request) (size target : ℕ)
    (found : Found)
    → Outcome r.block_size size q.done q.downloads 0 found
    → (s : Segment) × (finish_search roll target (fallback settings q r) found ≡ some (part s))
      × Answer settings q r size s
unfolding finish_search
finish-Answer settings roll q r size target out_of_fuel o = absurd o
finish-Answer settings roll q r size target (block_found s) o = (s, refl, inl o)
finish-Answer settings roll q r size target (all_seen []) o =
    (fallback settings q r, refl, inr (refl, o.1))
finish-Answer settings roll q r size target (all_seen (x ∷ xs)) o = cc (o.0)

has_parts-none : (r : Request) → r.parts_info ≡ none → has_parts r ≡ false
has_parts-none r e = ground arith

many-Answer :
    (f : Doubles) (settings : Settings) (roll : ℕ → ℕ) (q : QueueItem) (r : Request) (size : ℕ)
    → 0 < r.block_size
    → r.parts_info ≡ none
    → (s : Segment) × (next_of_many f settings roll q r size ≡ some (part s))
      × Answer settings q r size s
unfolding next_of_many
many-Answer f settings roll q r size b e =
    let target = target_size f r.wanted_size (downloaded_bytes q) size r.block_size in
    let (s, h, a) = finish-Answer settings roll q r size target _ (search_ends f q r size b) in
    (
      s,
      ap₂
            (λ p ps.
              finish_search roll target
                (check_overlaps settings r.now q r.block_size r.last_speed p r.allow_overlap)
                (search_loop r.block_size target size q.done q.downloads ps
                  (search_fuel size target) 0 target []))
            (has_parts-none r e) (ap (ranges_of size r.block_size) e)
          ∙ h,
      a,
    )

get_next_segment_many :
    (f : Doubles) (settings : Settings) (roll : ℕ → ℕ) (q : QueueItem) (r : Request) (size : ℕ)
    → q.size ≡ some size
    → 0 < r.block_size
    → r.block_size < size
    → settings.multi_chunk ≡ true
    → is_paused_prio q ≡ false
    → length q.downloads < q.max_segments
    → get_next_segment f settings roll q r ≡ next_of_many f settings roll q r size
unfolding get_next_segment
get_next_segment_many f settings roll q r size known b small multi runs room = ground arith

-- For an item that is not paused, of known size, larger than a block of nonzero size, in the mode
-- of many segments, with room for one more and no parts told by the source, getNextSegment returns
-- a segment, which is either a nonempty part of the file that no downloaded segment has whole,
-- without a byte that is being downloaded and, if it is longer than a block, without a downloaded
-- byte; or the answer of checkOverlaps, and then each block of the file is whole in a downloaded
-- segment or has a byte that is being downloaded.
pub get_next_segment-Answer :
    (f : Doubles) (settings : Settings) (roll : ℕ → ℕ) (q : QueueItem) (r : Request) (size : ℕ)
    → q.size ≡ some size
    → 0 < r.block_size
    → r.block_size < size
    → settings.multi_chunk ≡ true
    → is_paused_prio q ≡ false
    → length q.downloads < q.max_segments
    → r.parts_info ≡ none
    → (s : Segment) × (get_next_segment f settings roll q r ≡ some (part s))
      × Answer settings q r size s
get_next_segment-Answer f settings roll q r size known b small multi runs room whole =
    let (s, e, a) = many-Answer f settings roll q r size b whole in
    (s, get_next_segment_many f settings roll q r size known b small multi runs room ∙ e, a)

-- The start of a segment that is asked for.
unfoldable pub start_of : Next → Option ℕ
start_of (part s) = some s.start
start_of (negative_part start below) = some start
start_of unknown_size = none
start_of limit_reached = none

start_of-part_between : (start stop : ℕ) → start_of (part_between start stop) ≡ some start
unfolding part_between start_of
start_of-part_between start stop = ground arith

single_chunk_start :
    (size block : ℕ) (first : Segment) (rest : List Segment)
    → first.start ≡ 0
    → start_of (single_chunk size block (first ∷ rest)) ≡ some (round_down (end_of first) block)
unfolding single_chunk
single_chunk_start size block first [] s = rw s (start_of-part_between _ _)
single_chunk_start size block first (second ∷ rest) s = rw s (start_of-part_between _ _)

rounded_up : (e k m b : ℕ) → 0 < b → e ≡ k * b + m → m < b → b ≤ m + b / 2 → e < round_down e b
unfolding round_down
rounded_up e k m b p h l g =
    let half : 2 * (b / 2) ≤ b = omega arith in
    let next : (e + b / 2) / b ≡ suc k = div-eq_of_lt-le b (omega arith) (omega arith) in
    rw next (omega arith)

-- In the single-segment mode a download goes on right behind the first downloaded segment if that
-- ends at a block.
pub single_chunk_aligned :
    (size block k : ℕ) (first : Segment) (rest : List Segment)
    → 0 < block
    → first.start ≡ 0
    → end_of first ≡ k * block
    → start_of (single_chunk size block (first ∷ rest)) ≡ some (end_of first)
unfolding round_down
single_chunk_aligned size block k first rest b s e =
    let half : 2 * (block / 2) ≤ block = omega arith in
    let whole : (end_of first + block / 2) / block ≡ k =
      div-eq_of_lt-le block (omega arith) (omega arith) in
    single_chunk_start size block first rest s ∙ ap (λ n. some n) (rw whole (omega arith))

-- A single segment at a time: by the setting, or for a file that is no larger than a block.
abbrev pub IsSingle : Settings → Request → (size : ℕ) → Type 0
IsSingle settings r size = (settings.multi_chunk ≡ false) ⊎ (size ≤ r.block_size)

get_next_segment_single :
    (f : Doubles) (settings : Settings) (roll : ℕ → ℕ) (q : QueueItem) (r : Request) (size : ℕ)
    → q.size ≡ some size
    → 0 < r.block_size
    → IsSingle settings r size
    → q.downloads ≡ []
    → get_next_segment f settings roll q r ≡ some (single_chunk size r.block_size q.done)
unfolding get_next_segment
get_next_segment_single f settings roll q r size known b single idle = ground arith

-- For an item of known size without a running download and a block of nonzero size, where a single
-- segment is downloaded at a time, by the setting or because the file is no larger than a block, if
-- the first downloaded segment starts at 0 and ends in the second half of a block, the request of
-- getNextSegment starts behind the end of that segment.
pub get_next_segment_skips :
    (f : Doubles) (settings : Settings) (roll : ℕ → ℕ) (q : QueueItem) (r : Request) (size k m : ℕ)
    (first : Segment) (rest : List Segment)
    → q.size ≡ some size
    → 0 < r.block_size
    → IsSingle settings r size
    → q.downloads ≡ []
    → q.done ≡ first ∷ rest
    → first.start ≡ 0
    → end_of first ≡ k * r.block_size + m
    → m < r.block_size
    → r.block_size ≤ m + r.block_size / 2
    → (n : Next) × (start : ℕ) × (get_next_segment f settings roll q r ≡ some n)
      × (start_of n ≡ some start)
      × (end_of first < start)
get_next_segment_skips f settings roll q r size k m first rest known b single idle done s e h l = (
  single_chunk size r.block_size (first ∷ rest),
  round_down (end_of first) r.block_size,
  get_next_segment_single f settings roll q r size known b single idle
      ∙ ap (λ d. some (single_chunk size r.block_size d)) done,
  single_chunk_start size r.block_size first rest s,
  rounded_up (end_of first) k m r.block_size b e h l,
)
