-- ===== src/Search/Queue/Order.antt =====
-- The order of the waiting searches in `SearchQueue` of airdcpp/search/SearchQueue.cpp, and the owners.
use airdcpp_core.Base.{
  ℕ, ==_iff, ◌+◌, subst, if◌then◌else◌, ap, ◌≤◌, ◌≡◌, refl, true, List, [], ◌∷◌, ltb, Option, none,
  some, arith, Bool-cases, inl, inr,
}
use airdcpp_core.Queue.Item.{rank}
use airdcpp_core.Search.Types.{Search}
use airdcpp_core.Search.Queue.{
  SearchQueue, cancel_older, is_owner, owned_by, remove_owned, insert_search, cancel_search, add,
  maybe_pop, pop_front, current_queue_time,
}

-- No search of the list has a priority above the bound.
abbrev pub AtMost : ℕ → List Search → Type 0
AtMost b [] = Unit
AtMost b (s ∷ ss) = (rank s.priority ≤ b) × AtMost b ss

-- The order the queue is searched and served in.
abbrev pub Ordered : List Search → Type 0
Ordered [] = Unit
Ordered (s ∷ ss) = AtMost (rank s.priority) ss × Ordered ss

AtMost-weaken : (a b : ℕ) (ss : List Search) → a ≤ b → AtMost a ss → AtMost b ss
AtMost-weaken a b [] le h = tt
AtMost-weaken a b (s ∷ ss) le (x, h) = (omega (arith, x, le), AtMost-weaken a b ss le h)

remove_owned-AtMost : (o b : ℕ) (ss : List Search) → AtMost b ss → AtMost b (remove_owned o ss)
unfolding remove_owned
remove_owned-AtMost o b [] h = tt
remove_owned-AtMost o b (s ∷ ss) (x, h) = elim (Bool-cases (owned_by o s)) [
  | inl e ↦ rw (e) h
  | inr e ↦ rw (e) (x, remove_owned-AtMost o b ss h)
]

remove_owned-Ordered : (o : ℕ) (ss : List Search) → Ordered ss → Ordered (remove_owned o ss)
unfolding remove_owned
remove_owned-Ordered o [] h = tt
remove_owned-Ordered o (s ∷ ss) (x, h) = elim (Bool-cases (owned_by o s)) [
  | inl e ↦ rw (e) h
  | inr e ↦ rw (e) (remove_owned-AtMost o (rank s.priority) ss x, remove_owned-Ordered o ss h)
]

insert_search-AtMost :
    (new : Search) (b : ℕ) (ss : List Search)
    → rank new.priority ≤ b
    → AtMost b ss
    → AtMost b (insert_search new ss)
unfolding insert_search
insert_search-AtMost new b [] le h = (le, tt)
insert_search-AtMost new b (s ∷ ss) le (x, h) =
    elim (Bool-cases (ltb (rank s.priority) (rank new.priority))) [
      | inl e ↦ rw (e) (le, (x, h))
      | inr e ↦ rw (e) (x, insert_search-AtMost new b ss le h)
    ]

insert_search-Ordered :
    (new : Search) (ss : List Search) → Ordered ss → Ordered (insert_search new ss)
unfolding insert_search
insert_search-Ordered new [] h = (tt, tt)
insert_search-Ordered new (s ∷ ss) (x, h) =
    elim (Bool-cases (ltb (rank s.priority) (rank new.priority))) [
      | inl e ↦ rw (e) (
        (
          ground (arith, e),
          AtMost-weaken (rank s.priority) (rank new.priority) ss (ground (arith, e)) x,
        ),
        (x, h),
      )
      | inr e ↦ rw (e) (
        insert_search-AtMost new (rank s.priority) ss (ground (arith, e)) x,
        insert_search-Ordered new ss h,
      )
    ]

-- How many searches an owner has in the list.
abbrev pub owned_count : ℕ → List Search → ℕ
owned_count o [] = 0
owned_count o (s ∷ ss) = (if owned_by o s then 1 else 0) + owned_count o ss

remove_owned_at_most :
    (o p : ℕ) (ss : List Search) → owned_count p (remove_owned o ss) ≤ owned_count p ss
unfolding remove_owned
remove_owned_at_most o p [] = ground arith
remove_owned_at_most o p (s ∷ ss) = elim (Bool-cases (owned_by o s)) [
  | inl e ↦ rw (e) omega arith
  | inr e ↦ rw (e) omega (arith, remove_owned_at_most o p ss)
]

remove_owned_one :
    (o : ℕ) (ss : List Search) → owned_count o ss ≤ 1 → owned_count o (remove_owned o ss) ≡ 0
unfolding remove_owned
remove_owned_one o [] h = refl
remove_owned_one o (s ∷ ss) h = elim (Bool-cases (owned_by o s)) [
  | inl e ↦ ground (arith, e, h)
  | inr e ↦ ground (arith, e, h, remove_owned_one o ss)
]

owned_count-insert_search :
    (o : ℕ) (new : Search) (ss : List Search)
    → owned_count o (insert_search new ss) ≡ (if owned_by o new then 1 else 0) + owned_count o ss
unfolding insert_search
owned_count-insert_search o new [] = refl
owned_count-insert_search o new (s ∷ ss) =
    elim (Bool-cases (ltb (rank s.priority) (rank new.priority))) [
      | inl e ↦ rw (e) refl
      | inr e ↦ rw (e) omega (arith, owned_count-insert_search o new ss)
    ]

-- In order, and with at most one search of each owner.
abbrev pub IsValid : SearchQueue → Type 0
IsValid q = Ordered q.queue × ((o : ℕ) → owned_count o q.queue ≤ 1)

-- Cancelling keeps a valid queue valid and leaves no search of the owner.
pub cancel_search-IsValid :
    (o : ℕ) (q : SearchQueue)
    → IsValid q
    → IsValid (cancel_search o q).0 × (owned_count o (cancel_search o q).0.queue ≡ 0)
unfolding cancel_search
cancel_search-IsValid o q (h, c) = (
  (remove_owned-Ordered o q.queue h, λ p. omega (arith, remove_owned_at_most o p q.queue, c p)),
  remove_owned_one o q.queue (c o),
)

insert-IsValid :
    (new : Search) (q : SearchQueue)
    → IsValid q
    → ((o : ℕ) → owned_by o new ≡ true → owned_count o q.queue ≡ 0)
    → IsValid (record q { queue = insert_search new q.queue })
insert-IsValid new q (h, c) absent = (
  insert_search-Ordered new q.queue h,
  λ o. (elim (Bool-cases (owned_by o new)) [
    | inl e ↦ omega (
      arith,
      owned_count-insert_search o new q.queue,
      absent o e,
      ap {B = ℕ} (λ b. if b then 1 else 0) e,
    )
    | inr e ↦ omega (
      arith,
      owned_count-insert_search o new q.queue,
      c o,
      ap {B = ℕ} (λ b. if b then 1 else 0) e,
    )
  ]),
)

cancel_older-IsValid :
    (w : Option ℕ) (q : SearchQueue)
    → IsValid q
    → IsValid (cancel_older w q)
      × ((o : ℕ) → is_owner o w ≡ true → owned_count o (cancel_older w q).queue ≡ 0)
unfolding cancel_older
cancel_older-IsValid none q h = (h, λ o e. omega (arith, ap {B = ℕ} (λ b. if b then 1 else 0) e))
cancel_older-IsValid (some p) q h = (
  (cancel_search-IsValid p q h).0,
  λ o e.
      (subst (λ k. owned_count k (cancel_search p q).0.queue ≡ 0) ((==_iff p o).0 e)
        (cancel_search-IsValid p q h).1),
)

-- Adding a search to a queue in order with at most one search of each owner keeps both.
pub add-IsValid : (now : ℕ) (new : Search) (q : SearchQueue) → IsValid q → IsValid (add now new q).0
unfolding add
add-IsValid now new q h =
    let (h', absent) = cancel_older-IsValid new.owner q h in
    insert-IsValid new (cancel_older new.owner q) h' absent

-- A valid queue, and nothing left in it that should have gone before the search handed out.
abbrev pub IsPop : SearchQueue → Option Search → Type 0
IsPop q none = IsValid q
IsPop q (some s) = IsValid q × AtMost (rank s.priority) q.queue

pop_front-IsPop :
    (now : ℕ) (q : SearchQueue) (ss : List Search)
    → IsValid q
    → Ordered ss
    → ((o : ℕ) → owned_count o ss ≤ 1)
    → IsPop (pop_front now q ss).0 (pop_front now q ss).1
pop_front-IsPop now q [] h x c = h
pop_front-IsPop now q (s ∷ ss) h (x, y) c = ((y, λ o. omega (arith, c o)), x)

-- A valid queue stays valid when maybePop is called, and no search left behind has a higher
-- priority than the one handed out.
pub maybe_pop-IsPop :
    (now : ℕ) (q : SearchQueue) → IsValid q → IsPop (maybe_pop now q).0 (maybe_pop now q).1
unfolding maybe_pop
maybe_pop-IsPop now q h = elim (Bool-cases (ltb 0 (current_queue_time now q))) [
  | inl e ↦ rw (e) h
  | inr e ↦ rw (e) (pop_front-IsPop now q q.queue h h.0 h.1)
]
