-- ===== src/Search/Queue/Timing.antt =====
-- When `SearchQueue` of airdcpp/search/SearchQueue.cpp lets a search go, and what its announced times
-- are worth.
use airdcpp_core.Base.{
  ℕ, zero, suc, ◌+◌, ◌≤◌, ◌<◌, ◌≡◌, refl, Bool, true, List, [], ◌∷◌, ap, ◌∙◌, ltb, if◌then◌else◌,
  Option, none, some, arith, Bool-cases, inl, inr, length, ==_refl, ◌==◌,
}
use airdcpp_core.Queue.Item.{Priority, rank}
use airdcpp_core.Search.Types.{Search}
use airdcpp_core.Search.Queue.{
  SearchQueue, cancel_older, interval, insert_search, add, maybe_pop, current_queue_time,
  queue_time, time_rest,
}

interval_positive : (q : SearchQueue) (p : Priority) → 0 < interval q p
unfolding interval
interval_positive q p = ground arith

-- A queue whose searches are handed out at the earliest times: how long the first search that passes
-- the test waits, `time` having passed before. `n` bounds the number of searches.
abbrev pub wait : ℕ → ℕ → ℕ → (Search → Bool) → SearchQueue → Option ℕ
wait zero now time f q = none
wait (suc n) now time f q =
    let w = current_queue_time now q in
    let (q', popped) = maybe_pop (now + w) q in
    elim popped [
      | none ↦ none
      | some s ↦
          let later = wait n (now + w) (time + w) f q' in if f s then some (time + w) else later
    ]

-- With a search waiting, maybePop hands it out from the announced time on, and nothing before it.
pub maybe_pop-current_queue_time :
    (now t : ℕ) (s : Search) (ss : List Search) (tick least : ℕ)
    → now ≤ t
    → let q : SearchQueue = record { queue = s ∷ ss; last_tick = tick; min_interval = least } in
      maybe_pop t q ≡ (
        if ltb t (now + current_queue_time now q)
        then (q, none)
        else (record q { queue = ss; last_tick = t }, some s))
unfolding maybe_pop current_queue_time
maybe_pop-current_queue_time now t s ss tick least le = ground (arith, le)

pop_due :
    (now : ℕ) (s : Search) (ss : List Search) (tick least : ℕ)
    → let q : SearchQueue = record { queue = s ∷ ss; last_tick = tick; min_interval = least } in
      maybe_pop (now + current_queue_time now q) q
      ≡ (record q { queue = ss; last_tick = now + current_queue_time now q }, some s)
unfolding maybe_pop current_queue_time
pop_due now s ss tick least = ground arith

wait_step :
    (n now time : ℕ) (f : Search → Bool) (s : Search) (ss : List Search) (tick least : ℕ)
    → let q : SearchQueue = record { queue = s ∷ ss; last_tick = tick; min_interval = least } in
      let w = current_queue_time now q in
      wait (suc n) now time f q ≡ (
        if f s
        then some (time + w)
        else wait n (now + w) (time + w) f (record q { queue = ss; last_tick = now + w }))
wait_step n now time f s ss tick least = ap handed_out (pop_due now s ss tick least)
  where
    w : ℕ
    w = current_queue_time now (record { queue = s ∷ ss; last_tick = tick; min_interval = least })

    handed_out : SearchQueue × Option Search → Option ℕ
    handed_out (q', none) = none
    handed_out (q', some s') =
        let later = wait n (now + w) (time + w) f q' in if f s' then some (time + w) else later

nothing_waits :
    (n now time : ℕ) (f : Search → Bool) (tick least : ℕ)
    → wait (suc n) now time f (record { queue = []; last_tick = tick; min_interval = least }) ≡ none
nothing_waits n now time f tick least = unfold maybe_pop current_queue_time in refl

zero_plus : (w : ℕ) → 0 + w ≡ w
zero_plus w = omega arith

not_short : (n : ℕ) → ¬ (suc n ≤ 0)
not_short n h = omega (arith, h)

next_interval :
    (now : ℕ) (s : Search) (ss : List Search) (tick least : ℕ)
    → let q : SearchQueue = record { queue = s ∷ ss; last_tick = now; min_interval = least } in
      let q0 : SearchQueue = record { queue = ss; last_tick = tick; min_interval = least } in
      current_queue_time now q ≡ interval q0 s.priority
unfolding current_queue_time interval
next_interval now s ss tick least = ground arith

wait-time_rest :
    (n now time : ℕ) (f : Search → Bool) (ss : List Search) (q : SearchQueue)
    → length ss ≤ n
    → wait n now time f (record q { queue = ss; last_tick = now }) ≡ time_rest q f ss time
unfolding time_rest interval
wait-time_rest zero now time f [] q le = refl
wait-time_rest (suc n) now time f [] q le = nothing_waits n now time f now q.min_interval
wait-time_rest zero now time f (s ∷ ss) q le = elim (not_short (length ss) le) [ ]
wait-time_rest (suc n) now time f (s ∷ ss) q le =
    wait_step n now time f s ss now q.min_interval
    ∙ ap (if_else (f s) (some (time + w)))
        (wait-time_rest n (now + w) (time + w) f ss q (omega (arith, le)))
    ∙ ap (λ k. if f s then some (time + k) else time_rest q f ss (time + k))
        (next_interval now s ss q.last_tick q.min_interval)
  where
    w : ℕ
    w = current_queue_time now (record q { queue = s ∷ ss; last_tick = now })

    if_else : Bool → Option ℕ → Option ℕ → Option ℕ
    if_else b x y = if b then x else y

-- The announced time of a search is the time it waits when nothing is added and the searches are
-- handed out as soon as they may.
pub wait-queue_time :
    (n now : ℕ) (f : Search → Bool) (q : SearchQueue)
    → length q.queue ≤ n
    → wait n now 0 f q ≡ queue_time now f q
unfolding queue_time
wait-queue_time n now f q le = go n q.queue q.last_tick q.min_interval le
  where
    go :
        (n : ℕ) (ss : List Search) (tick least : ℕ)
        → length ss ≤ n
        → let q : SearchQueue = record { queue = ss; last_tick = tick; min_interval = least } in
          wait n now 0 f q ≡ queue_time now f q
    go zero [] tick least le = refl
    go (suc n) [] tick least le = nothing_waits n now 0 f tick least
    go zero (s ∷ ss) tick least le = elim (not_short (length ss) le) [ ]
    go (suc n) (s ∷ ss) tick least le =
        let q : SearchQueue = record { queue = s ∷ ss; last_tick = tick; min_interval = least } in
        let w = current_queue_time now q in
        wait_step n now 0 f s ss tick least
        ∙ ap
            (λ k.
              if f s
              then some k
              else wait n (now + w) k f (record q { queue = ss; last_tick = now + w }))
            (zero_plus w)
        ∙ ap (λ r. if f s then some w else r)
            (wait-time_rest n (now + w) w f ss q (omega (arith, le)))

time_rest-insert_search :
    (q : SearchQueue) (f : Search → Bool) (new : Search) (ss : List Search) (time : ℕ)
    → f new ≡ true
    → (t : ℕ) × (time_rest q f (insert_search new ss) time ≡ some t)
unfolding time_rest insert_search
time_rest-insert_search q f new [] time e = rw (e) (_, refl)
time_rest-insert_search q f new (s ∷ ss) time e =
    elim (Bool-cases (ltb (rank s.priority) (rank new.priority))) [
      | inl b ↦ rw (b, e) (_, refl)
      | inr b ↦ rw (b) elim (Bool-cases (f s)) [
        | inl c ↦ rw (c) (_, refl)
        | inr c ↦ rw (c) (time_rest-insert_search q f new ss (time + interval q s.priority) e)
      ]
    ]

queue_time-insert_search :
    (now : ℕ) (q : SearchQueue) (f : Search → Bool) (new : Search) (ss : List Search)
    → f new ≡ true
    → (t : ℕ) × (queue_time now f (record q { queue = insert_search new ss }) ≡ some t)
unfolding queue_time insert_search
queue_time-insert_search now q f new [] e = rw (e) (_, refl)
queue_time-insert_search now q f new (s ∷ ss) e =
    elim (Bool-cases (ltb (rank s.priority) (rank new.priority))) [
      | inl b ↦ rw (b, e) (_, refl)
      | inr b ↦ rw (b) elim (Bool-cases (f s)) [
        | inl c ↦ rw (c) (_, refl)
        | inr c ↦
            rw (c)
              (time_rest-insert_search (record q { queue = s ∷ insert_search new ss }) f new ss _ e)
      ]
    ]

-- Adding a search always has a time to announce, so that the optional that the code dereferences is
-- never empty.
pub add_announces :
    (now : ℕ) (new : Search) (q : SearchQueue) → (t : ℕ) × ((add now new q).1 ≡ some t)
unfolding add
add_announces now new q =
    let q' = cancel_older new.owner q in
    queue_time-insert_search now q' (λ s. s.token == new.token) new q'.queue (==_refl new.token)
