-- ===== src/Bundle/Users.antt =====
-- The users that the files of a bundle can be downloaded from. A place at random, the alphabetic
-- order of the files and the test whether a file has something to download are given.
use airdcpp_core.Base.{
  ℕ, zero, suc, ◌+◌, ◌-◌, Bool, true, false, not, ◌&&◌, Option, none, some, List, ◌∷◌, ◌++◌, ltb,
  leb, ◌==◌, if◌then◌else◌, length, take, drop, any, [],
}
use Prim.Native.Nat.{bit_or}
use airdcpp_core.Bundle.Types.{File, BundleSource, Bundle, add64, sub64, same_file}
pub mod Counts
pub mod Refines
pub mod Choice

unfoldable pub find_source : ℕ → List BundleSource → Option BundleSource
find_source u [] = none
find_source u (s ∷ ss) = let rest = find_source u ss in if s.source_user == u then some s else rest

unfoldable pub is_bundle_source : ℕ → Bundle → Bool
is_bundle_source u b = any (λ (s : BundleSource). s.source_user == u) b.bundle_sources

unfoldable pub is_bundle_bad_source : ℕ → Bundle → Bool
is_bundle_bad_source u b = any (λ (s : BundleSource). s.source_user == u) b.bundle_bad_sources

-- A change of the source that is found; one without files left goes.
unfoldable pub change_source :
    (BundleSource → BundleSource) → ℕ → List BundleSource → List BundleSource
change_source f u [] = []
change_source f u (s ∷ ss) =
    let rest = change_source f u ss in
    if s.source_user == u then (if (f s).files == 0 then ss else f s ∷ ss) else s ∷ rest

abbrev pub more_files : ℕ → BundleSource → BundleSource
more_files n s = record s { files = s.files + 1; bytes = add64 s.bytes n }

-- `files--`, of a source that has some.
abbrev pub fewer_files : ℕ → BundleSource → BundleSource
fewer_files n s = record s { files = s.files - 1; bytes = sub64 s.bytes n }

-- The list of a user and a priority in the map.
unfoldable pub set_queue : (p u : ℕ) → List File → (ℕ → ℕ → List File) → ℕ → ℕ → List File
set_queue p u l q p' u' = if (p' == p) && (u' == u) then l else q p' u'

-- `l.insert(l.begin() + position, qi)`.
unfoldable pub insert_file : ℕ → File → List File → List File
insert_file n f l = take n l ++ (f ∷ drop n l)

-- upper_bound, as the first place whose file comes behind.
unfoldable pub upper_bound : (File → File → Bool) → File → List File → ℕ
upper_bound less f [] = 0
upper_bound less f (g ∷ gs) = let rest = upper_bound less f gs in if less f g then 0 else rest + 1

unfoldable pub place_file :
    (alpha : File → File → Bool) → (random : ℕ) → (sequential : Bool) → File → List File → List File
unfolding insert_file upper_bound
place_file alpha random sequential f [] = f ∷ []
place_file alpha random sequential f (g ∷ gs) =
    if not sequential
    then insert_file random f (g ∷ gs)
    else insert_file (upper_bound alpha f (g ∷ gs)) f (g ∷ gs)

-- The source that addUserQueue counts for, and whether it is new. A new one has the bytes that are left.
unfoldable pub count_source : File → (user : ℕ) → List BundleSource → List BundleSource × Bool
unfolding find_source change_source
count_source f u ss = elim (find_source u ss) [
  | some s ↦ (change_source (more_files f.file_size) u ss, false)
  | none ↦ (
    ss
        ++ (record {
          source_user = u;
          files = 1;
          bytes = sub64 f.file_size f.file_done;
          reasons = 0;
        }
            ∷ []),
    true,
  )
]

unfoldable pub add_user_queue :
    (alpha : File → File → Bool)
    → (random : ℕ) → File
    → (user : ℕ) → (is_bad : Bool) → Bundle
    → Bundle × Bool
unfolding place_file set_queue count_source change_source
add_user_queue alpha random f u is_bad b =
    let l = place_file alpha random b.seq_order f (b.user_queue f.file_priority u) in
    let bad =
      if is_bad
      then change_source (fewer_files f.file_size) u b.bundle_bad_sources
      else b.bundle_bad_sources in
    let (ss, new) = count_source f u b.bundle_sources in
    (
      record b {
        user_queue = set_queue f.file_priority u l b.user_queue;
        bundle_sources = ss;
        bundle_bad_sources = bad;
      },
      new,
    )

-- The first file of the list that is the given one goes.
unfoldable pub erase_file : File → List File → List File
erase_file f [] = []
erase_file f (g ∷ gs) = let rest = erase_file f gs in if same_file g f then gs else g ∷ rest

-- A bad source is counted for a reason that is not zero.
unfoldable pub count_bad : File → (user reason : ℕ) → List BundleSource → List BundleSource
unfolding find_source change_source
count_bad f u zero ss = ss
count_bad f u (suc reason) ss = elim (find_source u ss) [
  | none ↦
      ss ++ (record { source_user = u; files = 1; bytes = f.file_size; reasons = suc reason } ∷ [])
  | some s ↦
      change_source
        (λ t. record (more_files f.file_size t) { reasons = bit_or t.reasons (suc reason) }) u ss
]

unfoldable pub is_last : (user : ℕ) → List BundleSource → Bool
unfolding find_source
is_last u ss = elim (find_source u ss) [ none ↦ false | some s ↦ s.files - 1 == 0 ]

unfoldable pub remove_user_queue : File → (user reason : ℕ) → Bundle → Bundle × Bool
unfolding set_queue erase_file count_bad change_source is_last
remove_user_queue f u reason b =
    let l = b.user_queue f.file_priority u in
    if length l == 0 then (b, false) else (
      record b {
        user_queue = set_queue f.file_priority u (erase_file f l) b.user_queue;
        bundle_bad_sources = count_bad f u reason b.bundle_bad_sources;
        bundle_sources = change_source (fewer_files f.file_size) u b.bundle_sources;
      },
      is_last u b.bundle_sources,
    )

-- rotateUserQueue: the file goes to the end of its list.
unfoldable pub rotate_user_queue : File → (user : ℕ) → Bundle → Bundle
unfolding set_queue erase_file
rotate_user_queue f u b =
    let l = b.user_queue f.file_priority u in
    if ltb 1 (length l) && any (λ (g : File). same_file g f) l
    then record b {
      user_queue = set_queue f.file_priority u (erase_file f l ++ (f ∷ [])) b.user_queue;
    }
    else b

-- getItems: from the lowest priority to the highest.
unfoldable pub items_from : (priority count : ℕ) → (user : ℕ) → Bundle → List File
items_from p zero u b = []
items_from p (suc n) u b = b.user_queue p u ++ items_from (p + 1) n u b

unfoldable pub get_items : (user : ℕ) → Bundle → List File
unfolding items_from
get_items u b = items_from 0 7 u b

module _ (has_segment : File → Bool) where
  unfoldable pub first_usable : List File → Option File
  first_usable [] = none
  first_usable (f ∷ fs) = let rest = first_usable fs in if has_segment f then some f else rest

  -- The loop of getNextQI from a priority down to the least one.
  unfoldable pub next_at : (priority least : ℕ) → (user : ℕ) → Bundle → Option File
  unfolding first_usable
  next_at zero least u b = first_usable (b.user_queue 0 u)
  next_at (suc p) least u b =
      let rest = next_at p least u b in
      elim (first_usable (b.user_queue (suc p) u)) [
        | some f ↦ some f
        | none ↦ if leb least p then rest else none
      ]

  unfoldable pub get_next_qi : (least : ℕ) → (user : ℕ) → Bundle → Option File
  unfolding next_at
  get_next_qi least u b = next_at 6 least u b
