-- ===== src/Queue/Downloads.antt =====
-- The running downloads of an item, in airdcpp/queue/QueueItem.cpp, and what QueueManager.cpp books
-- when one of them fails or completes.
pub mod Bytes
mod Tests
use airdcpp_core.Base.{
  ℕ, ◌+◌, ◌-◌, ◌*◌, ◌/◌, ◌%◌, Bool, true, false, List, [], ◌∷◌, ◌++◌, ltb, ◌==◌, if◌then◌else◌,
  Option, none, some,
}
use airdcpp_core.Queue.Segment.{Segment, segment}
use airdcpp_core.Queue.Finished.{add_finished_segment}
use airdcpp_core.Queue.Item.{Download, QueueItem, downloaded_bytes, has_bundle, segments_done}

unfoldable pub add_download : Download → QueueItem → QueueItem
add_download d q = record q { downloads = q.downloads ++ d ∷ [] }

-- `erase` at the iterator of the download, if it is there.
unfoldable pub erase_download : ℕ → List Download → List Download
erase_download token [] = []
erase_download token (d ∷ ds) = if d.token == token then ds else d ∷ erase_download token ds

unfoldable pub remove_download : ℕ → QueueItem → QueueItem
unfolding erase_download
remove_download token q = record q { downloads = erase_download token q.downloads }

unfoldable pub erase_of_user : ℕ → List Download → List Download
erase_of_user user [] = []
erase_of_user user (d ∷ ds) =
    let rest = erase_of_user user ds in if d.user == user then rest else d ∷ rest

unfoldable pub remove_downloads : ℕ → QueueItem → QueueItem
unfolding erase_of_user
remove_downloads user q = record q { downloads = erase_of_user user q.downloads }

unfoldable pub total_speed : List Download → ℕ
total_speed [] = 0
total_speed (d ∷ ds) = d.average_speed + total_speed ds

-- `QueueItem::getAverageSpeed` and `getSecondsLeft`, for an item of known size.
unfoldable pub average_speed : QueueItem → ℕ
unfolding total_speed
average_speed q = total_speed q.downloads

unfoldable pub item_seconds_left : ℕ → QueueItem → ℕ
unfolding average_speed downloaded_bytes
item_seconds_left size q =
    if ltb 0 (average_speed q) then (size - downloaded_bytes q) / average_speed q else 0

-- `addFinishedSegment`, as a change of the item.
unfoldable pub book : Segment → QueueItem → Option QueueItem
unfolding add_finished_segment
book s q = elim (add_finished_segment (has_bundle q) s q.done) [
  | none ↦ none
  | some (done, told) ↦ some (record q { done = done })
]

-- What `onDownloadFailed` books of a file: the whole blocks of the tree's size that were read.
unfoldable pub fail_download : ℕ → Download → QueueItem → Option QueueItem
unfolding book remove_download
fail_download block d q =
    let downloaded = d.pos - d.pos % block in
    let booked : Option QueueItem =
      (if ltb 0 downloaded then book (segment d.part.start downloaded) q else some q) in
    elim booked [ none ↦ none | some q' ↦ some (remove_download d.token q') ]

abbrev pub remove_all : List ℕ → QueueItem → QueueItem
remove_all [] q = q
remove_all (u ∷ us) q = remove_all us (remove_downloads u q)

-- What `onFileDownloadCompleted` books: with the whole file there the item leaves the queues of its
-- source users, and their downloads go.
unfoldable pub complete_download : List ℕ → Download → QueueItem → Option QueueItem
unfolding book segments_done remove_download remove_downloads
complete_download users d q = elim (book d.part q) [
  | none ↦ none
  | some q' ↦ some (if segments_done q' then remove_all users q' else remove_download d.token q')
]
