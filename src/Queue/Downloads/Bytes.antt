-- ===== src/Queue/Downloads/Bytes.antt =====
-- The downloaded bytes of an item when a download ends: airdcpp/queue/QueueItem.cpp and QueueManager.cpp.
use airdcpp_core.Base.{
  ℕ, ◌+◌, ◌-◌, ◌%◌, ◌≤◌, ◌<◌, ◌≡◌, ◌⊎◌, inl, inr, refl, ap, ltb→lt, ◌∙◌, Bool, true, false, List,
  [], ◌∷◌, ltb, ◌==◌, if◌then◌else◌, Option, none, some, arith, All, Bool-cases,
}
use airdcpp_core.Base.Int.{ℤ}
use airdcpp_core.Queue.Segment.{Segment, segment}
use airdcpp_core.Queue.Item.{
  Download, QueueItem, running_bytes, downloaded_bytes, downloaded_segments, has_bundle,
  segments_done,
}
use airdcpp_core.Queue.Finished.Merge.{Gapped, combine}
use airdcpp_core.Queue.Finished.Insert.{add_finished_segment_lem}
use airdcpp_core.Queue.Finished.Coverage.{total}
use airdcpp_core.Queue.Finished.Accounting.{Apart, Apart-Staggered, total-combine}
use airdcpp_core.Queue.Downloads.{
  erase_download, remove_download, fail_download, complete_download, book, remove_all,
  remove_downloads,
}

-- The first download with the token.
abbrev pub get_download : ℕ → List Download → Option Download
get_download token [] = none
get_download token (d ∷ ds) = if d.token == token then some d else get_download token ds

mod_le : (n b : ℕ) → n % b ≤ n
mod_le n b = grind arith

running_bytes-erase_download :
    (d : Download) (ds : List Download)
    → get_download d.token ds ≡ some d
    → running_bytes (erase_download d.token ds) + d.pos ≡ running_bytes ds
unfolding running_bytes erase_download
running_bytes-erase_download d [] e = ground (arith, e)
running_bytes-erase_download d (x ∷ ds) e =
    go (x.token == d.token) e (running_bytes-erase_download d ds)
  where
    go :
        (w : Bool)
        → (if w then some x else get_download d.token ds) ≡ some d
        → (get_download d.token ds ≡ some d
            → running_bytes (erase_download d.token ds) + d.pos ≡ running_bytes ds)
        → running_bytes (if w then ds else x ∷ erase_download d.token ds) + d.pos
          ≡ x.pos + running_bytes ds
    go true e ih =
        omega (arith, ap {B = ℕ} (λ (o : Option Download). elim o [ none ↦ 0 | some y ↦ y.pos ]) e)
    go false e ih = omega (arith, ih e)

downloaded_segments-total : (done : List Segment) → downloaded_segments done ≡ total done
unfolding downloaded_segments
downloaded_segments-total [] = refl
downloaded_segments-total (d ∷ ds) = omega (arith, downloaded_segments-total ds)

-- Booking a segment that shares no byte with the set counts its size.
book-downloaded_bytes :
    (lo : ℕ) (s : Segment) (q : QueueItem)
    → 0 < s.size
    → Gapped lo q.done
    → All (Apart s) q.done
    → (done' : List Segment) × ((book s q ≡ some (record q { done = done' }))
        × (downloaded_segments done' ≡ s.size + downloaded_segments q.done))
unfolding book
book-downloaded_bytes lo s q p g a =
    let step =
      add_finished_segment_lem (has_bundle q) lo s q.done g (Apart-Staggered lo s q.done p g a) in
    (
      combine s q.done,
      (
        ap booked step,
        omega (
          arith,
          downloaded_segments-total (combine s q.done),
          downloaded_segments-total q.done,
          total-combine lo s q.done p g a,
        ),
      ),
    )
  where
    booked : Option (List Segment × Option ℤ) → Option QueueItem
    booked none = none
    booked (some (done, told)) = some (record q { done = done })

-- What `fail_download` and `complete_download` take a download off with.
remove_download-downloaded_bytes :
    (d : Download) (q : QueueItem)
    → get_download d.token q.downloads ≡ some d
    → downloaded_bytes (remove_download d.token q) + d.pos ≡ downloaded_bytes q
unfolding downloaded_bytes remove_download
remove_download-downloaded_bytes d q e = omega (arith, running_bytes-erase_download d q.downloads e)

remove_all-segments_done :
    (users : List ℕ) (q : QueueItem) → segments_done (remove_all users q) ≡ segments_done q
unfolding segments_done remove_downloads
remove_all-segments_done [] q = refl
remove_all-segments_done (u ∷ us) q = remove_all-segments_done us (remove_downloads u q)

-- A running download that ends with its whole part read, apart from the downloaded segments, is
-- booked without a byte counted twice or lost, unless the file is whole then.
pub complete_download-downloaded_bytes :
    (lo : ℕ) (users : List ℕ) (d : Download) (q : QueueItem)
    → get_download d.token q.downloads ≡ some d
    → d.pos ≡ d.part.size
    → 0 < d.part.size
    → Gapped lo q.done
    → All (Apart d.part) q.done
    → (q' : QueueItem) × (complete_download users d q ≡ some q')
      × ((segments_done q' ≡ true) ⊎ (downloaded_bytes q' ≡ downloaded_bytes q))
unfolding complete_download downloaded_bytes
complete_download-downloaded_bytes lo users d q e whole p g a =
    let (done', (step, count)) = book-downloaded_bytes lo d.part q p g a in
    let q1 : QueueItem = record q { done = done' } in
    elim (Bool-cases (segments_done q1)) [
      | inl b ↦ (
        remove_all users q1,
        rw (complete_download, step, b) refl,
        inl (remove_all-segments_done users q1 ∙ b),
      )
      | inr b ↦ (
        remove_download d.token q1,
        rw (complete_download, step, b) refl,
        inr (omega (arith, remove_download-downloaded_bytes d q1 e, count, whole)),
      )
    ]

-- The whole blocks in front of a part lie apart from all that the part lies apart from.
Apart-shorter :
    (s : Segment) (size : ℕ) (ds : List Segment)
    → size ≤ s.size
    → All (Apart s) ds
    → All (Apart (segment s.start size)) ds
Apart-shorter s size [] h a = tt
Apart-shorter s size (d ∷ ds) h (inl x, a) = (inl x, Apart-shorter s size ds h a)
Apart-shorter s size (d ∷ ds) h (inr x, a) =
    (inr (omega (arith, x, h)), Apart-shorter s size ds h a)

fail_download_booked :
    (block : ℕ) (d : Download) (q q1 : QueueItem)
    → ltb 0 (d.pos - d.pos % block) ≡ true
    → book (segment d.part.start (d.pos - d.pos % block)) q ≡ some q1
    → fail_download block d q ≡ some (remove_download d.token q1)
unfolding fail_download
fail_download_booked block d q q1 w step = rw (fail_download, w, step) refl

-- Of a running file download that fails, apart from the downloaded segments, the bytes behind the
-- last whole block are lost from the downloaded bytes of the item, and no others.
pub fail_download-downloaded_bytes :
    (lo block : ℕ) (d : Download) (q : QueueItem)
    → get_download d.token q.downloads ≡ some d
    → 0 < block
    → d.pos ≤ d.part.size
    → Gapped lo q.done
    → All (Apart d.part) q.done
    → (q' : QueueItem) × ((fail_download block d q ≡ some q')
        × (downloaded_bytes q' + d.pos % block ≡ downloaded_bytes q))
unfolding fail_download downloaded_bytes
fail_download-downloaded_bytes lo block d q e b h g a =
    let downloaded = d.pos - d.pos % block in
    let less : d.pos % block ≤ d.pos = mod_le d.pos block in
    elim (Bool-cases (ltb 0 downloaded)) [
      | inl w ↦
          (let (done', (step, count)) =
              book-downloaded_bytes lo (segment d.part.start downloaded) q (ltb→lt 0 downloaded w) g
                (Apart-shorter d.part downloaded q.done (omega (arith, h)) a) in
            let q1 : QueueItem = record q { done = done' } in
            (
              remove_download d.token q1,
              (
                fail_download_booked block d q q1 w step,
                omega (arith, remove_download-downloaded_bytes d q1 e, count, less),
              ),
            ))
      | inr w ↦ (
        remove_download d.token q,
        (
          rw (fail_download, w) refl,
          ground (arith, remove_download-downloaded_bytes d q e, less, w),
        ),
      )
    ]
