-- ===== src/Queue/Sources/Moves.antt =====
-- A source that is removed and comes back: `removeSource` and `addSource`.
use airdcpp_core.Base.{
  ℕ, suc, ◌+◌, ◌≤◌, ◌≡◌, refl, List, [], ◌∷◌, ◌++◌, ◌==◌, if◌then◌else◌, none, some, arith,
  Option-cases, inl, inr,
}
use airdcpp_core.Queue.Sources.{
  Source, Sources, get_source, remove_first, set_flag, add_source, remove_source,
}

-- How often a user is in a list of sources.
abbrev pub occurrences : ℕ → List Source → ℕ
occurrences u [] = 0
occurrences u (s ∷ ss) = if s.user == u then suc (occurrences u ss) else occurrences u ss

-- A user is a source at most once, good or bad.
abbrev pub IsDistinct : Sources → Type 0
IsDistinct s = (u : ℕ) → occurrences u s.good + occurrences u s.bad ≤ 1

occurrences-append :
    (u : ℕ) (xs ys : List Source) → occurrences u (xs ++ ys) ≡ occurrences u xs + occurrences u ys
occurrences-append u [] ys = omega arith
occurrences-append u (x ∷ xs) ys = ground (arith, occurrences-append u xs ys)

-- Removing the first source of a user takes it away once, and leaves the others.
occurrences-remove_first :
    (u v : ℕ) (ss : List Source) (x : Source)
    → get_source v ss ≡ some x
    → occurrences u ss ≡ (
        if x.user == u
        then suc (occurrences u (remove_first v ss))
        else occurrences u (remove_first v ss))
unfolding remove_first
occurrences-remove_first u v [] x e = cc
occurrences-remove_first u v (s ∷ ss) x e = ground (arith, occurrences-remove_first u v ss x)

get_source-user : (v : ℕ) (ss : List Source) (x : Source) → get_source v ss ≡ some x → x.user ≡ v
get_source-user v [] x e = cc
get_source-user v (s ∷ ss) x e = ground (arith, get_source-user v ss x)

get_source-none : (v : ℕ) (ss : List Source) → occurrences v ss ≡ 0 → get_source v ss ≡ none
get_source-none v [] e = refl
get_source-none v (s ∷ ss) e = ground (arith, get_source-none v ss)

get_source_last :
    (v : ℕ) (ss : List Source) (x : Source)
    → get_source v ss ≡ none
    → x.user ≡ v
    → get_source v (ss ++ x ∷ []) ≡ some x
get_source_last v [] x e h = ground arith
get_source_last v (s ∷ ss) x e h = ground (arith, get_source_last v ss x)

remove_first_last :
    (v : ℕ) (ss : List Source) (x : Source)
    → get_source v ss ≡ none
    → x.user ≡ v
    → remove_first v (ss ++ x ∷ []) ≡ ss
unfolding remove_first
remove_first_last v [] x e h = ground arith
remove_first_last v (s ∷ ss) x e h = ground (arith, remove_first_last v ss x)

-- Users move between the two lists, and none gets lost or doubled.
pub remove_source-occurrences :
    (u v reason : ℕ) (s : Sources)
    → occurrences u (remove_source v reason s).good + occurrences u (remove_source v reason s).bad
      ≡ occurrences u s.good + occurrences u s.bad
unfolding remove_source
remove_source-occurrences u v reason s = elim (Option-cases (get_source v s.good)) [
  | inl e ↦ ground (arith, e)
  | inr (x, e) ↦ ground (
    arith,
    e,
    occurrences-remove_first u v s.good x e,
    occurrences-append u s.bad (set_flag reason x ∷ []),
  )
]

-- Removing a source keeps every user a source at most once, good or bad.
pub remove_source-IsDistinct :
    (v reason : ℕ) (s : Sources) → IsDistinct s → IsDistinct (remove_source v reason s)
remove_source-IsDistinct v reason s h u = omega (arith, remove_source-occurrences u v reason s, h u)

none-occurrences : (v : ℕ) (ss : List Source) → get_source v ss ≡ none → occurrences v ss ≡ 0
none-occurrences v [] e = refl
none-occurrences v (s ∷ ss) e = ground (arith, none-occurrences v ss)

-- Adding a user that is no good source keeps every user a source at most once.
pub add_source-IsDistinct :
    (new : Source) (s : Sources)
    → occurrences new.user s.good ≡ 0
    → IsDistinct s
    → IsDistinct (add_source new s)
unfolding add_source
add_source-IsDistinct new s fresh h u = elim (Option-cases (get_source new.user s.bad)) [
  | inl e ↦
      ground
        (arith, e, h u, none-occurrences new.user s.bad e, occurrences-append u s.good (new ∷ []))
  | inr (x, e) ↦ ground (
    arith,
    e,
    h u,
    occurrences-remove_first u new.user s.bad x e,
    occurrences-append u s.good (x ∷ []),
  )
]

remove_first-occurrences :
    (v : ℕ) (ss : List Source) (x : Source)
    → get_source v ss ≡ some x
    → occurrences v ss ≡ suc (occurrences v (remove_first v ss))
remove_first-occurrences v ss x e =
    ground (arith, occurrences-remove_first v v ss x e, get_source-user v ss x e)

-- A good source that is removed and added again is a good source as before but for the flag of the
-- reason, and the bad sources are the ones before, if each user is a source at most once.
pub add_source-remove_source :
    (new x : Source) (reason : ℕ) (s : Sources)
    → IsDistinct s
    → get_source new.user s.good ≡ some x
    → (get_source new.user (add_source new (remove_source new.user reason s)).good
        ≡ some (set_flag reason x))
      × ((add_source new (remove_source new.user reason s)).bad ≡ s.bad)
unfolding add_source remove_source
add_source-remove_source new x reason s h e =
    let v = new.user in
    let once = remove_first-occurrences v s.good x e in
    let unique = h v in
    let no_bad = get_source-none v s.bad (omega arith) in
    let no_good = get_source-none v (remove_first v s.good) (omega arith) in
    let same_user = get_source-user v s.good x e in
    let back = get_source_last v s.bad (set_flag reason x) no_bad same_user in
    (
      ground (
        arith,
        e,
        back,
        get_source_last v (remove_first v s.good) (set_flag reason x) no_good same_user,
      ),
      ground (arith, e, back, remove_first_last v s.bad (set_flag reason x) no_bad same_user),
    )
