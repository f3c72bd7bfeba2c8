-- ===== src/Bundle/Types.antt =====
-- The records of queue/Bundle.h. A pointer to a file is the number of its queue item.
use airdcpp_core.Base.{ℕ, ◌+◌, ◌-◌, ◌%◌, ◌^◌, Bool, List, ◌==◌}

-- What a bundle reads of a queue item. Priorities are numbers, from 0 (PAUSED_FORCE) to 6 (HIGHEST).
pub record File : Type 0 where
  pub file_id : ℕ
  pub file_size : ℕ
  pub file_done : ℕ
  pub file_priority : ℕ
  pub file_downloaded : Bool
  pub file_completed : Bool

pub record BundleSource : Type 0 where
  pub source_user : ℕ
  pub files : ℕ
  pub bytes : ℕ
  pub reasons : ℕ

-- `user_queue` gives the files by priority and user; a user without files has no entry.
pub record Bundle : Type 0 where
  pub queue_items : List File
  pub finished_files : List File
  pub bundle_size : ℕ
  pub finished_segments : ℕ
  pub current_downloaded : ℕ
  pub bundle_sources : List BundleSource
  pub bundle_bad_sources : List BundleSource
  pub user_queue : ℕ → ℕ → List File
  pub seq_order : Bool
  pub is_new : Bool
  pub dirty : Bool
  pub update_size : Bool

-- int64_t arithmetic, on the bit patterns.
abbrev pub add64 : ℕ → ℕ → ℕ
add64 a b = (a + b) % 2 ^ 64

abbrev pub sub64 : ℕ → ℕ → ℕ
sub64 a b = (a + 2 ^ 64 - b % 2 ^ 64) % 2 ^ 64

abbrev pub same_file : File → File → Bool
same_file f g = f.file_id == g.file_id
