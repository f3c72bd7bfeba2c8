-- ===== src/Bundle/Files/Sizes.antt =====
-- The size and the finished bytes of a bundle are those of its files.
use airdcpp_core.Base.{
  ℕ, ◌+◌, ◌%◌, ◌^◌, ◌≡◌, refl, Bool, true, false, not, ◌&&◌, ◌||◌, List, [], ◌∷◌, ◌++◌, arith, ltb,
  if_both, if_cases,
}
use airdcpp_core.Bundle.Types.{File, Bundle, add64, sub64, same_file}
use airdcpp_core.Bundle.Files.{
  set_dirty, increase_size, decrease_size, bundle_add_finished_segment, remove_finished_segment,
  has_file, last_file, without_end, swap_out, add_finished_item, remove_finished_item, add_queue,
  remove_queue,
}

unfoldable pub total : (File → ℕ) → List File → ℕ
total w [] = 0
total w (f ∷ fs) = w f + total w fs

total-append : (w : File → ℕ) (fs gs : List File) → total w (fs ++ gs) ≡ total w fs + total w gs
unfolding total
total-append w [] gs = omega arith
total-append w (f ∷ fs) gs = omega (arith, total-append w fs gs)

total-last_file :
    (w : File → ℕ) (f : File) (fs : List File)
    → w (last_file f fs) + total w (without_end (f ∷ fs)) ≡ w f + total w fs
unfolding total last_file without_end
total-last_file w f [] = omega arith
total-last_file w f (g ∷ gs) = omega (arith, total-last_file w g gs)

-- The files are known by their numbers: a file of the list with the same number weighs the same.
unfoldable pub IsKnown : (File → ℕ) → File → List File → Type 0
IsKnown w f [] = Unit
IsKnown w f (g ∷ gs) = (same_file g f ≡ true → w g ≡ w f) × IsKnown w f gs

total-swap_out :
    (w : File → ℕ) (f : File) (fs : List File)
    → IsKnown w f fs
    → has_file f fs ≡ true
    → w f + total w (swap_out f fs) ≡ total w fs
unfolding total swap_out IsKnown has_file
total-swap_out w f [] k h = absurd (ground arith)
total-swap_out w f (g ∷ []) k h = ground arith
total-swap_out w f (g ∷ i ∷ gs) k h =
    ground (arith, total-swap_out w f (i ∷ gs) k.1, total-last_file w i gs, k.0)

-- The counters agree with the files, in 64 bits.
unfoldable pub SizesMatch : Bundle → Type 0
SizesMatch b =
    (b.bundle_size
      ≡ (total (λ f. f.file_size) b.queue_items + total (λ f. f.file_size) b.finished_files)
        % 2 ^ 64)
    × (b.finished_segments
        ≡ (total (λ f. f.file_done) b.queue_items + total (λ f. f.file_done) b.finished_files)
          % 2 ^ 64)

-- What the operations need of the files.
total_snoc :
    (w : File → ℕ) (fs : List File) (f : File) → total w (fs ++ (f ∷ [])) ≡ total w fs + w f
unfolding total
total_snoc w fs f = omega (arith, total-append w fs (f ∷ []))

set_dirty-SizesMatch : (b : Bundle) → SizesMatch b → SizesMatch (set_dirty b)
unfolding set_dirty SizesMatch
set_dirty-SizesMatch b h = if_both SizesMatch b.is_new b (record b { dirty = true }) h h

-- A file at the end of either list.
finish-SizesMatch :
    (f : File) (b : Bundle)
    → f.file_done ≡ f.file_size
    → SizesMatch b
    → SizesMatch (record b {
      finished_files = b.finished_files ++ (f ∷ []);
      bundle_size = add64 b.bundle_size f.file_size;
      finished_segments = add64 b.finished_segments f.file_size;
    })
unfolding SizesMatch
finish-SizesMatch f b d h = (
  omega (arith, h.0, total_snoc (λ f. f.file_size) b.finished_files f),
  omega (arith, h.1, d, total_snoc (λ f. f.file_done) b.finished_files f),
)

enqueue-SizesMatch :
    (f : File) (b : Bundle)
    → SizesMatch b
    → SizesMatch (record b {
      queue_items = b.queue_items ++ (f ∷ []);
      bundle_size = add64 b.bundle_size f.file_size;
      finished_segments = add64 b.finished_segments f.file_done;
    })
unfolding SizesMatch
enqueue-SizesMatch f b h = (
  omega (arith, h.0, total_snoc (λ f. f.file_size) b.queue_items f),
  omega (arith, h.1, total_snoc (λ f. f.file_done) b.queue_items f),
)

-- addQueue keeps the size and the downloaded bytes of a bundle the sums, in 64 bits, over its
-- queued and finished files, where a file that is downloaded has all its bytes.
pub add_queue-SizesMatch :
    (f : File) (b : Bundle)
    → (f.file_downloaded ≡ true → f.file_done ≡ f.file_size)
    → SizesMatch b
    → SizesMatch (add_queue f b)
unfolding add_queue add_finished_item increase_size bundle_add_finished_segment
add_queue-SizesMatch f b d h =
    if_cases SizesMatch f.file_downloaded _ _
      (λ e. set_dirty-SizesMatch _ (finish-SizesMatch f b (d e) h))
      (λ e. set_dirty-SizesMatch _ (enqueue-SizesMatch f b h))

-- A file that is removed stands in its list, and its number is its own there.
pub record IsQueued (f : File) (completed : Bool) (b : Bundle) : Type 0 where
  pub in_queue : (completed || not f.file_downloaded) ≡ true → has_file f b.queue_items ≡ true
  pub known_size : IsKnown (λ f. f.file_size) f b.queue_items
  pub known_done : IsKnown (λ f. f.file_done) f b.queue_items
  pub finished_size : IsKnown (λ f. f.file_size) f b.finished_files
  pub finished_done : IsKnown (λ f. f.file_done) f b.finished_files

remove_finished-SizesMatch :
    (f : File) (b : Bundle)
    → IsKnown (λ f. f.file_size) f b.finished_files
    → IsKnown (λ f. f.file_done) f b.finished_files
    → SizesMatch b
    → SizesMatch (remove_finished_item f b)
unfolding remove_finished_item remove_finished_segment decrease_size SizesMatch
remove_finished-SizesMatch f b k l h =
    if_cases SizesMatch (has_file f b.finished_files) _ b
      (λ e. (
        omega (arith, h.0, total-swap_out (λ f. f.file_size) f b.finished_files k e),
        omega (arith, h.1, total-swap_out (λ f. f.file_done) f b.finished_files l e),
      ))
      (λ e. h)

-- The queue without a file, with the bytes taken off.
dequeue-SizesMatch :
    (f : File) (b : Bundle)
    → IsKnown (λ f. f.file_size) f b.queue_items
    → IsKnown (λ f. f.file_done) f b.queue_items
    → has_file f b.queue_items ≡ true
    → SizesMatch b
    → SizesMatch (record b {
      queue_items = swap_out f b.queue_items;
      bundle_size = sub64 b.bundle_size f.file_size;
      finished_segments = sub64 b.finished_segments f.file_done;
      update_size = true;
    })
unfolding SizesMatch
dequeue-SizesMatch f b k l e h = (
  omega (arith, h.0, total-swap_out (λ f. f.file_size) f b.queue_items k e),
  omega (arith, h.1, total-swap_out (λ f. f.file_done) f b.queue_items l e),
)

move-SizesMatch :
    (f : File) (b : Bundle)
    → IsKnown (λ f. f.file_size) f b.queue_items
    → IsKnown (λ f. f.file_done) f b.queue_items
    → has_file f b.queue_items ≡ true
    → SizesMatch b
    → SizesMatch (record b {
      queue_items = swap_out f b.queue_items;
      finished_files = b.finished_files ++ (f ∷ []);
    })
unfolding SizesMatch
move-SizesMatch f b k l e h = (
  omega (
    arith,
    h.0,
    total-swap_out (λ f. f.file_size) f b.queue_items k e,
    total_snoc (λ f. f.file_size) b.finished_files f,
  ),
  omega (
    arith,
    h.1,
    total-swap_out (λ f. f.file_done) f b.queue_items l e,
    total_snoc (λ f. f.file_done) b.finished_files f,
  ),
)

dequeue_empty-SizesMatch :
    (f : File) (b : Bundle)
    → IsKnown (λ f. f.file_size) f b.queue_items
    → IsKnown (λ f. f.file_done) f b.queue_items
    → has_file f b.queue_items ≡ true
    → ltb 0 f.file_done ≡ false
    → SizesMatch b
    → SizesMatch (record b {
      queue_items = swap_out f b.queue_items;
      bundle_size = sub64 b.bundle_size f.file_size;
      update_size = true;
    })
unfolding SizesMatch
dequeue_empty-SizesMatch f b k l e z h = (
  omega (arith, h.0, total-swap_out (λ f. f.file_size) f b.queue_items k e),
  omega
      (arith, h.1, none_done f.file_done z, total-swap_out (λ f. f.file_done) f b.queue_items l e),
)
  where
    none_done : (n : ℕ) → ltb 0 n ≡ false → n ≡ 0
    none_done n z = ground arith

-- If the size and the downloaded bytes of a bundle are the sums, in 64 bits, over its queued and
-- finished files, they still are when removeQueue has removed a file or moved a completed one,
-- where the file is queued or was downloaded and the copies of it in the lists have its sizes.
pub remove_queue-SizesMatch :
    (f : File) (completed : Bool) (b : Bundle)
    → IsQueued f completed b
    → SizesMatch b
    → SizesMatch (remove_queue f completed b)
unfolding remove_queue add_finished_item decrease_size remove_finished_segment
remove_queue-SizesMatch f c b q h =
    if_cases SizesMatch (not c && f.file_downloaded) _ _
      (λ e. remove_finished-SizesMatch f b q.finished_size q.finished_done h)
      (λ e.
        let k = q.in_queue (stays c f.file_downloaded e) in
        if_cases SizesMatch (not c) _ _
          (λ g. rw k (
            if_cases (λ x. SizesMatch (record (decrease_size f.file_size x) { update_size = true }))
              (ltb 0 f.file_done) _ _ (λ z. dequeue-SizesMatch f b q.known_size q.known_done k h)
              (λ z. dequeue_empty-SizesMatch f b q.known_size q.known_done k z h)))
          (λ g. rw k (move-SizesMatch f b q.known_size q.known_done k h)))
  where
    stays : (c d : Bool) → (not c && d) ≡ false → (c || not d) ≡ true
    stays true d e = refl
    stays false true e = cc
    stays false false e = refl
