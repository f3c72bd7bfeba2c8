-- ===== src/Queue/Next/Tests.antt =====
-- The choice of the next segment at inputs that meet the hypotheses of its theorems. The doubles are
-- numbers of thousandths.
use airdcpp_core.Base.{
  ℕ, ◌-◌, ◌*◌, ◌/◌, ◌<◌, max, ◌≡◌, refl, inr, true, false, none, some, [], ◌∷◌, arith,
}
use airdcpp_core.Queue.Segment.{Segment, segment}
use airdcpp_core.Queue.Item.{
  Settings, QueueItem, Download, normal, is_paused_prio, downloaded_bytes,
}
use airdcpp_core.Queue.Next.{
  Doubles, Next, Request, part, negative_part, is_taken, get_next_segment,
}
use airdcpp_core.Queue.Next.Answer.{
  Answer, get_next_segment-Answer, start_of, get_next_segment_skips,
}

abbrev thousandths : Doubles
thousandths = record {
  Double = ℕ;
  of_int = λ n. n * 1000;
  to_int = λ x. x / 1000;
  div = λ x y. x * 1000 / y;
  mul = λ x y. x * y / 1000;
  sub = λ x y. x - y;
  max_of = λ x y. max x y;
  quarter = 250;
  one = 1000;
}

abbrev settings : Settings
settings = record {
  multi_chunk = true;
  overlap_slow_sources = false;
  segments_manual = false;
  number_of_segments = 3;
}

abbrev running : Download
running = record {
  part = segment 20 10;
  pos = 4;
  started = 100;
  average_speed = 2;
  user = 1;
  is_tree = false;
  token = 1;
}

abbrev item : QueueItem
item = record {
  size = some 100;
  done = segment 0 20 ∷ [];
  downloads = running ∷ [];
  priority = normal;
  bundle = none;
  max_segments = 3;
  is_filelist = false;
  is_partial_list = false;
  is_client_view = false;
  is_tth_list = false;
}

abbrev request : Request
request = record {
  block_size = 10;
  wanted_size = 40;
  last_speed = 0;
  parts_info = none;
  allow_overlap = false;
  now = 5000;
}

-- Behind the downloaded and the running segment.
answers_free :
    get_next_segment thousandths settings (λ n. 0) item request ≡ some (part (segment 30 40))
unfolding get_next_segment is_paused_prio downloaded_bytes is_taken
answers_free = refl

get_next_segment-Answer_example :
    (s : Segment) × (get_next_segment thousandths settings (λ n. 0) item request ≡ some (part s))
    × Answer settings item request 100 s
unfolding is_paused_prio
get_next_segment-Answer_example =
    get_next_segment-Answer thousandths settings (λ n. 0) item request 100 refl (omega arith)
      (omega arith) refl refl (omega arith) refl

-- A file of 60,000 bytes with 40,000 of them downloaded, in a block of 65,536.
abbrev small_item : QueueItem
small_item = record item { size = some 60000; done = segment 0 40000 ∷ []; downloads = [] }

abbrev small_request : Request
small_request = record request { block_size = 65536 }

get_next_segment_skips_example :
    (n : Next) × (start : ℕ) × (get_next_segment thousandths settings
        (λ n. 0)
        small_item
        small_request
      ≡ some n)
    × (start_of n ≡ some start)
    × (40000 < start)
get_next_segment_skips_example =
    get_next_segment_skips thousandths settings (λ n. 0) small_item small_request 60000 0 40000
      (segment 0 40000) [] refl (omega arith) (inr (omega arith)) refl refl refl refl (omega arith)
      (omega arith)

-- Its request starts behind the end of the file, and its size is negative.
asks_negative :
    get_next_segment thousandths settings (λ n. 0) small_item small_request
    ≡ some (negative_part 65536 5536)
unfolding get_next_segment
asks_negative = refl
