-- ===== src/Queue/Sources.antt =====
-- The sources of a queue item and the choice whether one can be used now: `QueueItem::Source`,
-- `addSource`, `removeSource`, `validateHub`, `hasSegment` of airdcpp/queue/QueueItem.cpp.
pub mod Hubs
pub mod Moves
mod Tests
use Prim.Native.Nat.{bit_or, bit_and, bit_xor}
use Prim.Native.String.{String}
use text.Mathlib.Text.{◌==◌ as str_eq}
use airdcpp_core.Base.{
  ℕ, ◌+◌, ◌≡◌, refl, Bool, true, false, not, ◌&&◌, ◌||◌, List, [], ◌∷◌, ◌++◌, ltb, leb, ◌==◌,
  if◌then◌else◌, Option, none, some, any, all,
}
use airdcpp_core.Queue.Segment.{Segment}
use airdcpp_core.Queue.Item.{
  Settings, Download, QueueItem, is_paused_prio, segments_done, uses_small_slot, allow_url_change,
}
use airdcpp_core.Queue.Next.{
  Doubles, Next, part, negative_part, unknown_size, limit_reached, Request, get_next_segment,
}

-- A source: the user, the hub that it was found on, whether that is an NMDC user, the flags, the parts
-- that it has told of, and the hubs that gave no access.
pub record Source : Type 0 where
  pub user : ℕ
  pub hint : String
  pub nmdc : Bool
  pub flags : ℕ
  pub parts_info : List ℕ
  pub blocked_hubs : List String

pub record Sources : Type 0 where
  pub good : List Source
  pub bad : List Source

abbrev pub get_source : ℕ → List Source → Option Source
get_source u [] = none
get_source u (s ∷ ss) = if s.user == u then some s else get_source u ss

abbrev pub is_source : ℕ → List Source → Bool
is_source u ss = elim (get_source u ss) [ none ↦ false | some s ↦ true ]

-- `erase` at the iterator of the first source with the user.
unfoldable pub remove_first : ℕ → List Source → List Source
remove_first u [] = []
remove_first u (s ∷ ss) = if s.user == u then ss else s ∷ remove_first u ss

abbrev pub set_flag : ℕ → Source → Source
set_flag reason s = record s { flags = bit_or s.flags reason }

-- `Source::FLAG_MASK`: FILE_NOT_AVAILABLE, REMOVED, BAD_TREE, SLOW_SOURCE, NO_TREE,
-- TTH_INCONSISTENCY, UNTRUSTED.
abbrev pub flag_mask : ℕ
flag_mask = 0x675

-- `addSource`: a bad source comes back as it is.
unfoldable pub add_source : Source → Sources → Sources
unfolding remove_first
add_source new s = elim (get_source new.user s.bad) [
  | some old ↦ record { good = s.good ++ old ∷ []; bad = remove_first new.user s.bad }
  | none ↦ record s { good = s.good ++ new ∷ [] }
]

-- `removeSource`: the source goes to the bad ones, with the reason.
unfoldable pub remove_source : ℕ → ℕ → Sources → Sources
unfolding remove_first
remove_source u reason s = elim (get_source u s.good) [
  | none ↦ s
  | some x ↦ record { good = remove_first u s.good; bad = s.bad ++ set_flag reason x ∷ [] }
]

-- `isBadSourceExcept`: is the user a bad source, and for another reason than the exceptions?
unfoldable pub is_bad_source_except : ℕ → ℕ → Sources → Bool × Bool
is_bad_source_except u exceptions s = elim (get_source u s.bad) [
  | none ↦ (false, false)
  | some x ↦ (true, not (bit_and x.flags (bit_xor exceptions flag_mask) == 0))
]

-- `blockSourceHub` and `addBlockedHub`: the hint joins the blocked hubs.
unfoldable pub block_source_hub : ℕ → String → List Source → List Source
block_source_hub u hub [] = []
block_source_hub u hub (s ∷ ss) =
    if s.user == u
    then record s {
      blocked_hubs =
          (if any (str_eq hub) s.blocked_hubs then s.blocked_hubs else hub ∷ s.blocked_hubs);
    }
      ∷ ss
    else s ∷ block_source_hub u hub ss

pub data HubError : Type 0 where
  no_access_online_hubs user_offline : HubError

abbrev pub is_empty {ℓ} : {A : Type ℓ} → List A → Bool
is_empty [] = true
is_empty (x ∷ xs) = false

-- `Source::validateHub`: `none` where the source passes. `includes` is the subset test.
unfoldable pub validate_hub : List String → Bool → Source → Option HubError
validate_hub online allow_change s =
    if not (is_empty s.blocked_hubs) && all (λ h. any (str_eq h) s.blocked_hubs) online
    then some no_access_online_hubs
    else if not s.nmdc && (not allow_change && not (any (str_eq s.hint) online))
    then some user_offline
    else none

abbrev pub find_hub : (String → Bool) → List String → Option String
find_hub f [] = none
find_hub f (h ∷ hs) = if f h then some h else find_hub f hs

-- `updateDownloadHubUrl`: whether the URL was replaced, and the URL; no result where no hub is left
-- and the first of an empty list would be read.
unfoldable pub update_download_hub_url :
    List String → String → Bool → Source → Option (Bool × String)
update_download_hub_url online url allow_change s =
    let left = find_hub (λ h. not (any (str_eq h) s.blocked_hubs)) online in
    if not allow_change
    then some (true, s.hint)
    else if any (str_eq url) s.blocked_hubs
    then (elim left [ none ↦ none | some h ↦ some (true, h) ])
    else some (false, url)

pub data DownloadType : Type 0 where
  any_type small mcn_normal : DownloadType

-- `matchesDownloadType`.
unfoldable pub matches_download_type : DownloadType → QueueItem → Bool
matches_download_type any_type q = true
matches_download_type small q = uses_small_slot q
matches_download_type mcn_normal q = not (uses_small_slot q)

-- `allowSegmentedDownloads`, for an item that is running.
unfoldable pub allow_segmented_downloads : QueueItem → Bool
allow_segmented_downloads q =
    if q.is_filelist || q.is_client_view
    then false
    else elim q.downloads [ [] ↦ true | d ∷ _ ↦ not d.is_tree ]

-- `segment.getSize() != 0`: the mark of an unknown size has size -1.
abbrev pub has_size : Option Next → Bool
has_size none = false
has_size (some (part s)) = not (s.size == 0)
has_size (some (negative_part start below)) = true
has_size (some unknown_size) = true
has_size (some limit_reached) = false

-- `hasSegment`, for a source of the item: the answer and the error that it leaves.
unfoldable pub has_segment :
    Doubles
    → Settings
    → (ℕ → ℕ)
    → QueueItem
    → Source
    → List String
    → DownloadType
    → Request
    → Bool × Option HubError
unfolding validate_hub matches_download_type allow_segmented_downloads
has_segment f settings roll q s online kind r =
    if is_paused_prio q then (false, none) else elim (validate_hub online (allow_url_change q) s) [
      | some e ↦ (false, some e)
      | none ↦
          if segments_done q
          then (false, none)
          else if not (matches_download_type kind q)
          then (false, none)
          else if is_empty q.downloads
          then (true, none)
          else if not (allow_segmented_downloads q)
          then (false, none)
          else (
            has_size (
                get_next_segment f settings roll q (record r {
                  parts_info = (if is_empty s.parts_info then none else some s.parts_info);
                })),
            none,
          )
    ]
