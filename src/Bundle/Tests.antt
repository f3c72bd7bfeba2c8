-- ===== src/Bundle/Tests.antt =====
-- The bundle and the queue of a user at small inputs.
use airdcpp_core.Base.{
  ℕ, ◌≡◌, refl, sym, subst, ◌∙◌, inl, inr, true, false, ◌&&◌, some, [], ◌∷◌, arith, ltb, ◌==◌,
  if◌then◌else◌, Bool-cases, any, if_cases,
}
use airdcpp_core.Bundle.Types.{File, Bundle, same_file}
use airdcpp_core.Bundle.Files.{remove_queue, has_file}
use airdcpp_core.Bundle.Files.Sizes.{total, SizesMatch, IsKnown, IsQueued, remove_queue-SizesMatch}
use airdcpp_core.Bundle.Users.{
  add_user_queue, remove_user_queue, get_items, get_next_qi, find_source,
}
use airdcpp_core.Bundle.Users.Counts.{IsSources, files_of, Represents, want, unwant}
use airdcpp_core.Bundle.Users.Refines.{add_user_queue-Represents, remove_user_queue-Represents}
use airdcpp_core.Bundle.UserQueue.{Queued, UserQueue, Orders, add_qi, remove_qi}
use airdcpp_core.Bundle.UserQueue.Listed.{
  IsListed, source_files, count_of, times_listed, InBundle, add_qi-IsListed, remove_qi-IsListed,
}
use airdcpp_core.Bundle.Users.Choice.{IsChoice, get_next_qi-IsChoice}

abbrev movie : File
movie = record {
  file_id = 1;
  file_size = 700;
  file_done = 100;
  file_priority = 3;
  file_downloaded = false;
  file_completed = false;
}

abbrev sample : File
sample = record {
  file_id = 2;
  file_size = 50;
  file_done = 0;
  file_priority = 5;
  file_downloaded = false;
  file_completed = false;
}

abbrev empty_bundle : Bundle
empty_bundle = record {
  queue_items = [];
  finished_files = [];
  bundle_size = 0;
  finished_segments = 0;
  current_downloaded = 0;
  bundle_sources = [];
  bundle_bad_sources = [];
  user_queue = λ p u. [];
  seq_order = true;
  is_new = true;
  dirty = false;
  update_size = false;
}

abbrev one_file : Bundle
one_file = record empty_bundle {
  queue_items = movie ∷ [];
  bundle_size = 700;
  finished_segments = 100;
}

one_file-SizesMatch : SizesMatch one_file
unfolding SizesMatch total
one_file-SizesMatch = (refl, refl)

movie-IsQueued : IsQueued movie true one_file
unfolding has_file IsKnown
movie-IsQueued = record {
  in_queue = λ h. refl;
  known_size = (λ h. refl, tt);
  known_done = (λ h. refl, tt);
  finished_size = tt;
  finished_done = tt;
}

remove_queue-SizesMatch_example : SizesMatch (remove_queue movie true one_file)
remove_queue-SizesMatch_example =
    remove_queue-SizesMatch movie true one_file movie-IsQueued one_file-SizesMatch

-- A file of the user 5, at its priority.
abbrev one_user : Bundle
one_user = record one_file {
  bundle_sources = record { source_user = 5; files = 1; bytes = 600; reasons = 0 } ∷ [];
  user_queue = λ p u. if (p == 3) && (u == 5) then movie ∷ [] else [];
}

one_user-Represents : Represents one_user (λ u. if u == 5 then 1 else 0)
unfolding IsSources files_of find_source get_items
one_user-Represents = record {
  sources_fine = (omega arith, refl, tt);
  by_source = λ u. ground arith;
  by_queue = λ u. elim (Bool-cases (u == 5)) [ inl e ↦ rw e refl | inr e ↦ rw e refl ];
}

add_user_queue-Represents_example :
    Represents
      (add_user_queue (λ f g. false) 0 sample 5 false one_user).0
      (want 5 (λ u. if u == 5 then 1 else 0)).0
    × ((add_user_queue (λ f g. false) 0 sample 5 false one_user).1
        ≡ (want 5 (λ u. if u == 5 then 1 else 0)).1)
add_user_queue-Represents_example =
    add_user_queue-Represents (λ f g. false) 0 sample 5 false one_user
      (λ u. if u == 5 then 1 else 0) (omega arith) one_user-Represents

remove_user_queue-Represents_example :
    Represents (remove_user_queue movie 5 1 one_user).0 (unwant 5 (λ u. if u == 5 then 1 else 0)).0
    × ((remove_user_queue movie 5 1 one_user).1 ≡ (unwant 5 (λ u. if u == 5 then 1 else 0)).1)
remove_user_queue-Represents_example =
    remove_user_queue-Represents movie 5 1 one_user (λ u. if u == 5 then 1 else 0) (omega arith)
      refl one_user-Represents

get_next_qi-IsChoice_example :
    IsChoice (λ f. f.file_id == 1) 6 2 5 one_user (get_next_qi (λ f. f.file_id == 1) 2 5 one_user)
get_next_qi-IsChoice_example = get_next_qi-IsChoice (λ f. f.file_id == 1) 2 5 one_user

-- The only file of a user is his first and last: the bundle says so.
removed_is_last : (remove_user_queue movie 5 0 one_user).1 ≡ true
unfolding remove_user_queue
removed_is_last = refl

next_of_user : get_next_qi (λ f. true) 2 5 one_user ≡ some movie
unfolding get_next_qi
next_of_user = refl

-- The bytes of a source that is new count what is left, and go below 0 with the file.
bytes_below_zero :
    (remove_user_queue movie 5 0
      (add_user_queue
        (λ f g. false)
        0
        movie
        5
        false
        (add_user_queue (λ f g. false) 0 movie 5 false one_file).0).0).0.bundle_sources
    ≡ record { source_user = 5; files = 1; bytes = 600; reasons = 0 } ∷ []
unfolding remove_user_queue add_user_queue
bytes_below_zero = refl

abbrev movie_item : Queued
movie_item = record { file = movie; bundle = some 9; file_sources = 5 ∷ [] }

abbrev orders : Orders
orders = record {
  size_order = λ f g. false;
  alpha_order = λ f g. false;
  bundle_order = ltb;
  random = 0;
}

-- The bundle 9 has one file of the user 5; the other bundles are empty.
abbrev one_listed : UserQueue
one_listed = record {
  prio_queue = λ u. [];
  bundle_queue = λ u. if u == 5 then 9 ∷ [] else [];
  bundles = λ t. if t == 9 then one_user else empty_bundle;
  queued_bytes = λ u. 700;
  bundle_priority = λ t. 3;
}

empty_bundle-Represents : Represents empty_bundle (λ u. 0)
unfolding IsSources files_of get_items
empty_bundle-Represents = record { sources_fine = tt; by_source = λ u. refl; by_queue = λ u. refl }

one_listed-IsListed : IsListed one_listed
unfolding files_of count_of
one_listed-IsListed = record {
  fine = λ t.
      if_cases {A = Bundle} (λ b. Represents b (λ u. source_files u b)) (t == 9) one_user
        empty_bundle
        (λ e. record {
          sources_fine = one_user-Represents.sources_fine;
          by_source = λ u. refl;
          by_queue = λ u. one_user-Represents.by_queue u ∙ sym (one_user-Represents.by_source u);
        })
        (λ e. empty_bundle-Represents);
  listed = λ u t.
      if_cases {A = Bundle}
        (λ b. count_of t (one_listed.bundle_queue u) ≡ times_listed (source_files u b)) (t == 9)
        one_user empty_bundle (λ e. ground arith) (λ e. ground arith);
}

add_qi-IsListed_example :
    IsListed (add_qi orders (record movie_item { file = sample }) 6 false one_listed)
add_qi-IsListed_example =
    add_qi-IsListed orders (record movie_item { file = sample }) 6 false one_listed (omega arith)
      one_listed-IsListed

movie-InBundle : InBundle movie_item 5 one_listed
movie-InBundle t e =
    subst
      (λ x. any (λ (g : File). same_file g movie) ((one_listed.bundles x).user_queue 3 5) ≡ true)
      (token e) refl
  where
    token : {a b : ℕ} → some a ≡ some b → a ≡ b
    token e = cc

remove_qi-IsListed_example : IsListed (remove_qi movie_item 5 0 one_listed)
remove_qi-IsListed_example =
    remove_qi-IsListed movie_item 5 0 one_listed (omega arith) movie-InBundle one_listed-IsListed

-- After the last file of the user the bundle is not in his list any more.
removed_bundle : (remove_qi movie_item 5 0 one_listed).bundle_queue 5 ≡ []
unfolding remove_qi
removed_bundle = refl
