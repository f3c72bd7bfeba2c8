-- ===== src/Search/Queue.antt =====
-- `SearchQueue` of airdcpp/search/SearchQueue.cpp: the searches that wait for their turn. The clock is
-- an argument of each call.
pub mod Order
pub mod Timing
use airdcpp_core.Base.{
  ℕ, ◌+◌, ◌-◌, ◌*◌, ◌≡◌, refl, Bool, true, false, List, [], ◌∷◌, ltb, leb, ◌==◌, if◌then◌else◌,
  Option, none, some, max, length,
}
use airdcpp_core.Queue.Item.{
  Priority, rank, default, paused_force, paused, lowest, low, normal, high, highest, last,
}
use airdcpp_core.Search.Types.{Search}

pub record SearchQueue : Type 0 where
  pub queue : List Search
  pub last_tick : ℕ
  pub min_interval : ℕ

abbrev pub base_interval : Priority → ℕ
base_interval highest = 5000
base_interval high = 5000
base_interval normal = 10000
base_interval low = 15000
base_interval _ = 20000

-- `getInterval`.
unfoldable pub interval : SearchQueue → Priority → ℕ
interval q p = max (base_interval p) q.min_interval

unfoldable pub current_queue_time : ℕ → SearchQueue → ℕ
unfolding interval
current_queue_time now q = elim q.queue [
  | [] ↦ 0
  | s ∷ _ ↦ let next = q.last_tick + interval q s.priority in if ltb now next then next - now else 0
]

-- The loops of `getTotalQueueTime` and `getQueueTime` behind the first search.
unfoldable pub total_rest : SearchQueue → List Search → ℕ
total_rest q [] = 0
total_rest q (s ∷ ss) = interval q s.priority + total_rest q ss

unfoldable pub total_queue_time : ℕ → SearchQueue → ℕ
unfolding current_queue_time total_rest
total_queue_time now q = elim q.queue [
  | [] ↦ 0
  | s ∷ ss ↦ current_queue_time now q + total_rest q ss
]

unfoldable pub time_rest : SearchQueue → (Search → Bool) → List Search → ℕ → Option ℕ
time_rest q f [] time = none
time_rest q f (s ∷ ss) time =
    let here = time + interval q s.priority in
    let rest = time_rest q f ss here in if f s then some here else rest

unfoldable pub queue_time : ℕ → (Search → Bool) → SearchQueue → Option ℕ
unfolding current_queue_time time_rest
queue_time now f q = elim q.queue [
  | [] ↦ none
  | s ∷ ss ↦
      let here = current_queue_time now q in
      let rest = time_rest q f ss here in if f s then some here else rest
]

-- More than twenty minutes.
unfoldable pub has_overflow : ℕ → SearchQueue → Bool
unfolding total_queue_time
has_overflow now q = ltb (20 * 60 * 1000) (total_queue_time now q)

abbrev pub is_owner : ℕ → Option ℕ → Bool
is_owner o none = false
is_owner o (some p) = p == o

-- `CompareOwner`, for an owner that is not null.
abbrev pub owned_by : ℕ → Search → Bool
owned_by o s = is_owner o s.owner

-- `cancelSearch`: the first search of the owner goes.
unfoldable pub remove_owned : ℕ → List Search → List Search
remove_owned o [] = []
remove_owned o (s ∷ ss) = if owned_by o s then ss else s ∷ remove_owned o ss

abbrev pub any_owned : ℕ → List Search → Bool
any_owned o [] = false
any_owned o (s ∷ ss) = if owned_by o s then true else any_owned o ss

unfoldable pub cancel_search : ℕ → SearchQueue → SearchQueue × Bool
unfolding remove_owned
cancel_search o q = (record q { queue = remove_owned o q.queue }, any_owned o q.queue)

-- The place of `upper_bound` in a queue in order: behind all searches of at least the priority.
unfoldable pub insert_search : Search → List Search → List Search
insert_search new [] = new ∷ []
insert_search new (s ∷ ss) =
    if ltb (rank s.priority) (rank new.priority) then new ∷ s ∷ ss else s ∷ insert_search new ss

-- The start of `add`: where the search has an owner, that owner's older search is cancelled.
unfoldable pub cancel_older : Option ℕ → SearchQueue → SearchQueue
unfolding cancel_search
cancel_older none q = q
cancel_older (some o) q = (cancel_search o q).0

-- The result is the time until the search is sent.
unfoldable pub add : ℕ → Search → SearchQueue → SearchQueue × Option ℕ
unfolding cancel_older insert_search queue_time
add now new q =
    let q' = cancel_older new.owner q in
    let q'' : SearchQueue = record q' { queue = insert_search new q'.queue } in
    (q'', queue_time now (λ s. s.token == new.token) q'')

-- The second half of `maybePop`, by the queue.
abbrev pub pop_front : ℕ → SearchQueue → List Search → SearchQueue × Option Search
pop_front now q [] = (q, none)
pop_front now q (s ∷ ss) = (record q { queue = ss; last_tick = now }, some s)

-- `maybePop`.
unfoldable pub maybe_pop : ℕ → SearchQueue → SearchQueue × Option Search
unfolding current_queue_time
maybe_pop now q = if ltb 0 (current_queue_time now q) then (q, none) else pop_front now q q.queue

unfoldable pub clear : SearchQueue → SearchQueue
clear q = record q { queue = [] }
