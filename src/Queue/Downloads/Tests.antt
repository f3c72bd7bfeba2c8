-- ===== src/Queue/Downloads/Tests.antt =====
-- The theorems of the running downloads at inputs that meet their hypotheses.
use airdcpp_core.Base.{ℕ, ◌≡◌, ◌⊎◌, inl, refl, true, false, [], ◌∷◌, some, none, arith}
use airdcpp_core.Queue.Segment.{segment}
use airdcpp_core.Queue.Item.{Download, QueueItem, normal, downloaded_bytes, segments_done}
use airdcpp_core.Queue.Downloads.{fail_download, complete_download}
use airdcpp_core.Queue.Finished.{add_finished_segment}
use airdcpp_core.Queue.Downloads.Bytes.{complete_download-downloaded_bytes}

abbrev running : ℕ → Download
running pos = record {
  part = segment 20 30;
  pos = pos;
  started = 100;
  average_speed = 2;
  user = 1;
  is_tree = false;
  token = 5;
}

abbrev item : ℕ → QueueItem
item pos = record {
  size = some 100;
  done = segment 0 20 ∷ [];
  downloads = running pos ∷ [];
  priority = normal;
  bundle = none;
  max_segments = 3;
  is_filelist = false;
  is_partial_list = false;
  is_client_view = false;
  is_tth_list = false;
}

-- Of 25 bytes two blocks of ten are kept.
keeps_blocks :
    fail_download 10 (running 25) (item 25)
    ≡ some (record (item 25) { done = segment 0 40 ∷ []; downloads = [] })
unfolding fail_download add_finished_segment
keeps_blocks = refl

complete_download-downloaded_bytes_example :
    (q' : QueueItem) × (complete_download (1 ∷ []) (running 30) (item 30) ≡ some q')
    × ((segments_done q' ≡ true) ⊎ (downloaded_bytes q' ≡ downloaded_bytes (item 30)))
complete_download-downloaded_bytes_example =
    complete_download-downloaded_bytes 0 (1 ∷ []) (running 30) (item 30) refl refl (omega arith)
      (omega arith) (inl (omega arith), tt)
