-- ===== src/Bundle/Files.antt =====
-- The files of a bundle, queued and finished, and the bytes that are counted for them.
use airdcpp_core.Base.{
  ℕ, zero, suc, ◌/◌, Bool, true, false, not, ◌&&◌, ◌||◌, List, ◌∷◌, ◌++◌, ltb, if◌then◌else◌, any,
  [],
}
use airdcpp_core.Bundle.Types.{File, Bundle, add64, sub64, same_file}
pub mod Sizes

unfoldable pub set_dirty : Bundle → Bundle
set_dirty b = if b.is_new then b else record b { dirty = true }

unfoldable pub increase_size : ℕ → Bundle → Bundle
increase_size n b = record b { bundle_size = add64 b.bundle_size n }

unfoldable pub decrease_size : ℕ → Bundle → Bundle
decrease_size n b = record b { bundle_size = sub64 b.bundle_size n }

unfoldable pub bundle_add_finished_segment : ℕ → Bundle → Bundle
unfolding set_dirty
bundle_add_finished_segment n b =
    set_dirty (record b { finished_segments = add64 b.finished_segments n })

unfoldable pub remove_finished_segment : ℕ → Bundle → Bundle
remove_finished_segment n b = record b { finished_segments = sub64 b.finished_segments n }

unfoldable pub has_file : File → List File → Bool
has_file f [] = false
has_file f (g ∷ gs) = same_file g f || has_file f gs

-- iter_swap with the end and pop_back: the last file takes the place of the one that is found.
unfoldable pub last_file : File → List File → File
last_file f [] = f
last_file f (g ∷ gs) = last_file g gs

unfoldable pub without_end : List File → List File
without_end [] = []
without_end (f ∷ []) = []
without_end (f ∷ g ∷ gs) = f ∷ without_end (g ∷ gs)

unfoldable pub swap_out : File → List File → List File
unfolding last_file without_end
swap_out f [] = []
swap_out f (g ∷ []) = if same_file g f then [] else g ∷ []
swap_out f (g ∷ h ∷ gs) =
    let rest = swap_out f (h ∷ gs) in
    if same_file g f then last_file h gs ∷ without_end (h ∷ gs) else g ∷ rest

unfoldable pub add_finished_item : File → (finished : Bool) → Bundle → Bundle
unfolding increase_size bundle_add_finished_segment
add_finished_item f finished b =
    let added = record b { finished_files = b.finished_files ++ (f ∷ []) } in
    if finished
    then added
    else bundle_add_finished_segment f.file_size (increase_size f.file_size added)

unfoldable pub remove_finished_item : File → Bundle → Bundle
unfolding decrease_size remove_finished_segment has_file swap_out
remove_finished_item f b =
    if has_file f b.finished_files
    then (let less = remove_finished_segment f.file_done (decrease_size f.file_size b) in
        record less { finished_files = swap_out f less.finished_files })
    else b

unfoldable pub add_queue : File → Bundle → Bundle
unfolding add_finished_item increase_size bundle_add_finished_segment
add_queue f b =
    if f.file_downloaded
    then add_finished_item f false b
    else bundle_add_finished_segment f.file_done
        (increase_size f.file_size (record b { queue_items = b.queue_items ++ (f ∷ []) }))

unfoldable pub remove_queue : File → (file_completed : Bool) → Bundle → Bundle
unfolding remove_finished_item remove_finished_segment decrease_size add_finished_item has_file
    swap_out
remove_queue f completed b =
    let less = record b {
      queue_items = if has_file f b.queue_items then swap_out f b.queue_items else b.queue_items;
    } in
    let booked = if ltb 0 f.file_done then remove_finished_segment f.file_done less else less in
    if not completed && f.file_downloaded
    then remove_finished_item f b
    else if not completed
    then record (decrease_size f.file_size booked) { update_size = true }
    else add_finished_item f true less

unfoldable pub files_completed : Bundle → Bool
files_completed b = elim b.queue_items [
  | [] ↦ not (any (λ (f : File). not f.file_completed) b.finished_files)
  | f ∷ fs ↦ false
]

unfoldable pub downloaded_of_bundle : Bundle → ℕ
downloaded_of_bundle b = add64 b.current_downloaded b.finished_segments

-- speed > 0 ? (size - downloaded) / speed : 0, while no more is downloaded than there is.
unfoldable pub bundle_seconds_left : (speed : ℕ) → Bundle → ℕ
unfolding downloaded_of_bundle
bundle_seconds_left zero b = 0
bundle_seconds_left (suc speed) b = sub64 b.bundle_size (downloaded_of_bundle b) / suc speed
