-- ===== src/Bundle/UserQueue.antt =====
-- queue/UserQueue.cpp: the files of the highest priority and the bundles of each user. The order of
-- the bundles, the size order of the files and the test whether a file has something to download
-- are given.
use airdcpp_core.Base.{
  ℕ, Bool, true, false, not, ◌&&◌, Option, none, some, List, [], ◌∷◌, ◌++◌, ltb, leb, ◌==◌,
  if◌then◌else◌, length, any,
}
use airdcpp_core.Bundle.Types.{File, Bundle, BundleSource, add64, sub64, same_file}
use airdcpp_core.Bundle.Users.{
  is_bundle_source, add_user_queue, remove_user_queue, get_items, get_next_qi,
}
pub mod Listed

-- A queue item as this queue sees it: its file, its bundle if it has one, and its sources.
pub record Queued : Type 0 where
  pub file : File
  pub bundle : Option ℕ
  pub file_sources : List ℕ

-- The maps by user, without entries for empty lists; the bundles by token, and the bytes queued
-- from each user.
pub record UserQueue : Type 0 where
  pub prio_queue : ℕ → List Queued
  pub bundle_queue : ℕ → List ℕ
  pub bundles : ℕ → Bundle
  pub queued_bytes : ℕ → ℕ
  pub bundle_priority : ℕ → ℕ

abbrev pub highest : ℕ
highest = 6

-- A function changed at one place.
unfoldable pub set_at {ℓ} : {A : Type ℓ} → ℕ → A → (ℕ → A) → ℕ → A
set_at u a f v = if v == u then a else f v

unfoldable pub token_place : (less : ℕ → ℕ → Bool) → ℕ → List ℕ → List ℕ
token_place less t [] = t ∷ []
token_place less t (s ∷ ts) =
    let rest = token_place less t ts in if less t s then t ∷ s ∷ ts else s ∷ rest

unfoldable pub erase_token : ℕ → List ℕ → List ℕ
erase_token t [] = []
erase_token t (s ∷ ts) = let rest = erase_token t ts in if s == t then ts else s ∷ rest

-- addBundle, with Bundle::SortOrder.
unfoldable pub add_bundle : (less : ℕ → ℕ → Bool) → (token user : ℕ) → UserQueue → UserQueue
unfolding token_place set_at
add_bundle less t u q = record q {
  bundle_queue = set_at u (token_place less t (q.bundle_queue u)) q.bundle_queue;
}

unfoldable pub remove_bundle : (token user : ℕ) → UserQueue → UserQueue
unfolding erase_token set_at
remove_bundle t u q = record q {
  bundle_queue = set_at u (erase_token t (q.bundle_queue u)) q.bundle_queue;
}

unfoldable pub prio_place : (less : Queued → Queued → Bool) → Queued → List Queued → List Queued
prio_place less f [] = f ∷ []
prio_place less f (g ∷ gs) =
    let rest = prio_place less f gs in if less f g then f ∷ g ∷ gs else g ∷ rest

unfoldable pub prio_erase : Queued → List Queued → List Queued
prio_erase f [] = []
prio_erase f (g ∷ gs) =
    let rest = prio_erase f gs in if same_file g.file f.file then gs else g ∷ rest

-- The orders and the numbers drawn that adding needs.
pub record Orders : Type 0 where
  pub size_order : Queued → Queued → Bool
  pub alpha_order : File → File → Bool
  pub bundle_order : ℕ → ℕ → Bool
  pub random : ℕ

unfoldable pub add_to_bundle :
    Orders → Queued → (user : ℕ) → (is_bad : Bool) → UserQueue → UserQueue
unfolding add_bundle add_user_queue set_at
add_to_bundle o f u is_bad q = elim f.bundle [
  | none ↦ q
  | some t ↦
      let (b, new) = add_user_queue o.alpha_order o.random f.file u is_bad (q.bundles t) in
      let counted = record q {
        queued_bytes = set_at u (add64 (q.queued_bytes u) f.file.file_size) q.queued_bytes;
        bundles = set_at t b q.bundles;
      } in
      if new then add_bundle o.bundle_order t u counted else counted
]

-- addQI for a user.
unfoldable pub add_qi : Orders → Queued → (user : ℕ) → (is_bad : Bool) → UserQueue → UserQueue
unfolding add_to_bundle prio_place set_at
add_qi o f u is_bad q =
    let first = record q {
      prio_queue = set_at u (prio_place o.size_order f (q.prio_queue u)) q.prio_queue;
    } in
    add_to_bundle o f u is_bad (if f.file.file_priority == highest then first else q)

unfoldable pub add_qi_all : Orders → Queued → List ℕ → UserQueue → UserQueue
unfolding add_qi
add_qi_all o f [] q = q
add_qi_all o f (u ∷ us) q = add_qi_all o f us (add_qi o f u false q)

-- The end of removeQI: the list of the highest priority.
unfoldable pub remove_prio : Queued → (user : ℕ) → UserQueue → UserQueue
unfolding prio_erase set_at
remove_prio f u q =
    if f.file.file_priority == highest
    then record q { prio_queue = set_at u (prio_erase f (q.prio_queue u)) q.prio_queue }
    else q

-- removeQI for a user; it returns at once where the user is no source of the bundle.
unfoldable pub remove_qi : Queued → (user reason : ℕ) → UserQueue → UserQueue
unfolding remove_prio remove_bundle remove_user_queue is_bundle_source set_at
remove_qi f u reason q = elim f.bundle [
  | none ↦ remove_prio f u q
  | some t ↦
      let (b, gone) = remove_user_queue f.file u reason (q.bundles t) in
      let counted = record q {
        queued_bytes = set_at u (sub64 (q.queued_bytes u) f.file.file_size) q.queued_bytes;
        bundles = set_at t b q.bundles;
      } in
      if not (is_bundle_source u (q.bundles t))
      then q
      else remove_prio f u (if gone then remove_bundle t u counted else counted)
]

unfoldable pub remove_qi_all : Queued → List ℕ → UserQueue → UserQueue
unfolding remove_qi
remove_qi_all f [] q = q
remove_qi_all f (u ∷ us) q = remove_qi_all f us (remove_qi f u 0 q)

unfoldable pub set_qi_priority : Orders → Queued → (priority : ℕ) → UserQueue → Queued × UserQueue
unfolding remove_qi_all add_qi_all
set_qi_priority o f p q =
    let moved = record f { file = record f.file { file_priority = p } } in
    (moved, add_qi_all o moved f.file_sources (remove_qi_all f f.file_sources q))

unfoldable pub remove_bundle_all : ℕ → List ℕ → UserQueue → UserQueue
unfolding remove_bundle
remove_bundle_all t [] q = q
remove_bundle_all t (u ∷ us) q = remove_bundle_all t us (remove_bundle t u q)

unfoldable pub add_bundle_all : (ℕ → ℕ → Bool) → ℕ → List ℕ → UserQueue → UserQueue
unfolding add_bundle
add_bundle_all less t [] q = q
add_bundle_all less t (u ∷ us) q = add_bundle_all less t us (add_bundle less t u q)

abbrev users_of : Bundle → List ℕ
users_of b = go b.bundle_sources
  where
    go : List BundleSource → List ℕ
    go [] = []
    go (s ∷ ss) = s.source_user ∷ go ss

-- getUserQIs: the files without a bundle from the first list, and those of the bundles.
unfoldable pub without_bundle : List Queued → List File
without_bundle [] = []
without_bundle (f ∷ fs) = elim f.bundle [
  | none ↦ f.file ∷ without_bundle fs
  | some t ↦ without_bundle fs
]

unfoldable pub items_of : (user : ℕ) → (ℕ → Bundle) → List ℕ → List File
unfolding get_items
items_of u bs [] = []
items_of u bs (t ∷ ts) = get_items u (bs t) ++ items_of u bs ts

unfoldable pub get_user_qis : (user : ℕ) → UserQueue → List File
unfolding without_bundle items_of
get_user_qis u q = without_bundle (q.prio_queue u) ++ items_of u q.bundles (q.bundle_queue u)

-- setBundlePriority; the order of the bundles depends on the priorities.
unfoldable pub set_bundle_priority :
    ((ℕ → ℕ) → ℕ → ℕ → Bool) → (token priority : ℕ) → UserQueue → UserQueue
unfolding remove_bundle_all add_bundle_all set_at
set_bundle_priority order t p q =
    let us = users_of (q.bundles t) in
    let ps = set_at t p q.bundle_priority in
    add_bundle_all (order ps) t us (record (remove_bundle_all t us q) { bundle_priority = ps })

-- The query: the user, the least priority, and the bundles that run, with the limit on them.
pub record Query : Type 0 where
  pub query_user : ℕ
  pub min_prio : ℕ
  pub running_bundles : List ℕ
  pub bundle_limit : ℕ

-- What a search gives: the file, and whether there is something that a limit holds back.
pub record NextDownload : Type 0 where
  pub next : Option File
  pub has_download : Bool

module _ (has_segment : (allow_overlap : Bool) → File → Bool) where
  unfoldable pub next_prio : Bool → List Queued → Option File
  next_prio overlap [] = none
  next_prio overlap (f ∷ fs) =
      let rest = next_prio overlap fs in if has_segment overlap f.file then some f.file else rest

  -- The loop of getNextBundleQI.
  unfoldable pub next_bundle :
      Bool → Query → UserQueue → List ℕ → (has_download : Bool) → NextDownload
  unfolding get_next_qi
  next_bundle overlap x q [] has = record { next = none; has_download = has }
  next_bundle overlap x q (t ∷ ts) has =
      let held = next_bundle overlap x q ts true in
      let rest = next_bundle overlap x q ts has in
      if ltb 0 x.bundle_limit
        && leb x.bundle_limit (length x.running_bundles)
        && not (any (λ r. r == t) x.running_bundles)
      then held
      else if ltb (q.bundle_priority t) x.min_prio
      then record { next = none; has_download = has }
      else elim (get_next_qi (has_segment overlap) x.min_prio x.query_user (q.bundles t)) [
        | none ↦ rest
        | some f ↦ record { next = some f; has_download = has }
      ]

  -- One round of getNext: the files of the highest priority, then the bundles.
  unfoldable pub next_round : Bool → Query → UserQueue → (has_download : Bool) → NextDownload
  unfolding next_prio next_bundle
  next_round overlap x q has = elim (next_prio overlap (q.prio_queue x.query_user)) [
    | some f ↦ record { next = some f; has_download = has }
    | none ↦ next_bundle overlap x q (q.bundle_queue x.query_user) has
  ]

  abbrev pub or_more : NextDownload → NextDownload
  or_more r = elim r.next [ none ↦ r | some f ↦ record r { has_download = true } ]

  -- getNext: a second round allows overlapping where the first finds nothing.
  unfoldable pub get_next : Query → UserQueue → NextDownload
  unfolding next_round
  get_next x q =
      let r = next_round false x q false in
      elim r.next [
        | some f ↦ or_more r
        | none ↦ or_more (or_more (next_round true x q r.has_download))
      ]
