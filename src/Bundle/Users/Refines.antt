-- ===== src/Bundle/Users/Refines.antt =====
-- Adding a file for a user and removing it do to the bundle what they do to a count of files.
use airdcpp_core.Base.{
  ℕ, zero, suc, ◌+◌, ◌-◌, ◌<◌, ◌≡◌, refl, ap, ◌∙◌, inl, inr, Bool, true, false, not, ◌&&◌, List, [],
  ◌∷◌, arith, ltb, leb, ◌==◌, if◌then◌else◌, ==_iff, ==_refl, Bool-cases, Option-cases, length, any,
  length-append, if_both, if_cases,
}
use airdcpp_core.Bundle.Types.{File, BundleSource, Bundle, same_file}
use airdcpp_core.Bundle.Users.{
  find_source, more_files, fewer_files, set_queue, insert_file, upper_bound, place_file,
  count_source, add_user_queue, erase_file, is_last, remove_user_queue, items_from, get_items,
}
use airdcpp_core.Bundle.Users.Counts.{
  Wanted, want, unwant, IsSources, files_of, Represents, find_none, find_some, files_of-more,
  files_of-append, files_of-fewer, change_source-IsSources, append-IsSources,
}

length-insert_file : (n : ℕ) (f : File) (l : List File) → length (insert_file n f l) ≡ length l + 1
unfolding insert_file
length-insert_file zero f l = omega arith
length-insert_file (suc n) f [] = refl
length-insert_file (suc n) f (g ∷ l) = omega (arith, length-insert_file n f l)

length-place_file :
    (alpha : File → File → Bool) (random : ℕ) (seq : Bool) (f : File) (l : List File)
    → length (place_file alpha random seq f l) ≡ length l + 1
unfolding place_file
length-place_file alpha random seq f [] = refl
length-place_file alpha random seq f (g ∷ l) =
    if_both {A = List File} (λ k. length k ≡ length (g ∷ l) + 1) (not seq) _ _
      (length-insert_file random f (g ∷ l))
      (length-insert_file (upper_bound alpha f (g ∷ l)) f (g ∷ l))

length-erase_file :
    (f : File) (l : List File)
    → any (λ (g : File). same_file g f) l ≡ true
    → length (erase_file f l) + 1 ≡ length l
unfolding erase_file
length-erase_file f [] h = absurd (ground arith)
length-erase_file f (g ∷ l) h = ground (arith, length-erase_file f l)

length-set_queue :
    (p q u v : ℕ) (l : List File) (k : ℕ → ℕ → List File)
    → length (set_queue q u l k p v) + (if (v == u) && (p == q) then length (k q u) else 0)
      ≡ length (k p v) + (if (v == u) && (p == q) then length l else 0)
unfolding set_queue
length-set_queue p q u v l k = elim (Bool-cases (p == q)) [
  | inr e ↦ rw e (go (v == u))
  | inl e ↦ elim (Bool-cases (v == u)) [
    | inr g ↦ rw (e, g) refl
    | inl g ↦ rw (e, g, (==_iff p q).0 e, (==_iff v u).0 g) (omega arith)
  ]
]
  where
    go :
        (b : Bool)
        → length (k p v) + (if b && false then length (k q u) else 0)
          ≡ length (k p v) + (if b && false then length l else 0)
    go true = refl
    go false = refl

-- How a list that is set counts in the files of a user.
length-items_from :
    (p n q u v : ℕ) (l : List File) (b : Bundle)
    → length (items_from p n v (record b { user_queue = set_queue q u l b.user_queue }))
        + (if (v == u) && (leb p q && ltb q (p + n)) then length (b.user_queue q u) else 0)
      ≡ length (items_from p n v b)
        + (if (v == u) && (leb p q && ltb q (p + n)) then length l else 0)
unfolding items_from
length-items_from p zero q u v l b = ground arith
length-items_from p (suc n) q u v l b =
    let k = set_queue q u l b.user_queue in
    joined (v == u) (length (items_from (p + 1) n v (record b { user_queue = k })))
      (length (items_from (p + 1) n v b)) (length (k p v)) (length (b.user_queue p v)) (length l)
      (length (b.user_queue q u)) _ _
      (length-append (k p v) (items_from (p + 1) n v (record b { user_queue = k })))
      (length-append (b.user_queue p v) (items_from (p + 1) n v b))
      (length-set_queue p q u v l b.user_queue) (length-items_from (p + 1) n q u v l b)
  where
    joined :
        (same : Bool) (r' r h' h m o t' t : ℕ)
        → t' ≡ h' + r'
        → t ≡ h + r
        → h' + (if same && (p == q) then o else 0) ≡ h + (if same && (p == q) then m else 0)
        → r' + (if same && (leb (p + 1) q && ltb q (p + 1 + n)) then o else 0)
          ≡ r + (if same && (leb (p + 1) q && ltb q (p + 1 + n)) then m else 0)
        → t' + (if same && (leb p q && ltb q (p + suc n)) then o else 0)
          ≡ t + (if same && (leb p q && ltb q (p + suc n)) then m else 0)
    joined same r' r h' h m o t' t a b c d = ground arith

-- The files of each user when one user's list is set.
length-get_items :
    (q u v : ℕ) (l : List File) (b : Bundle)
    → q < 7
    → length (get_items v (record b { user_queue = set_queue q u l b.user_queue }))
        + (if v == u then length (b.user_queue q u) else 0)
      ≡ length (get_items v b) + (if v == u then length l else 0)
unfolding get_items
length-get_items q u v l b h =
    within (v == u) (leb 0 q && ltb q (0 + 7)) _ _ _ _ (ground arith)
      (length-items_from 0 7 q u v l b)
  where
    within :
        (same inside : Bool) (x y m o : ℕ)
        → inside ≡ true
        → x + (if same && inside then o else 0) ≡ y + (if same && inside then m else 0)
        → x + (if same then o else 0) ≡ y + (if same then m else 0)
    within same inside x y m o e h = ground arith

-- What counting a file for a source does.
record IsCounted (u : ℕ) (ss : List BundleSource) (x : List BundleSource × Bool) : Type 0 where
  fine : IsSources x.0
  counts : (v : ℕ) → files_of v x.0 ≡ (if v == u then files_of v ss + 1 else files_of v ss)
  is_new : x.1 ≡ (files_of u ss == 0)

count_source-IsCounted :
    (f : File) (u : ℕ) (ss : List BundleSource)
    → IsSources ss
    → IsCounted u ss (count_source f u ss)
unfolding count_source
count_source-IsCounted f u ss k = elim (Option-cases (find_source u ss)) [
  | inl e ↦
      rw (count_source, e)
        (record {
          fine = append-IsSources ss _ k e (omega arith);
          counts = λ v. files_of-append v ss _ e ∙ first v (find_none u ss e);
          is_new = rw (find_none u ss e) refl;
        })
  | inr (t, e) ↦
      rw (count_source, e)
        (record {
          fine = change_source-IsSources (more_files f.file_size) u ss (λ s. refl) k;
          counts = λ v. files_of-more f.file_size u v ss t e;
          is_new = known t (find_some u ss t k e);
        })
]
  where
    first :
        (v : ℕ)
        → files_of u ss ≡ 0
        → (if v == u then 1 else files_of v ss)
          ≡ (if v == u then files_of v ss + 1 else files_of v ss)
    first v z = elim (Bool-cases (v == u)) [
      | inl g ↦ rw (g, (==_iff v u).0 g, z) (omega arith)
      | inr g ↦ rw g refl
    ]

    known :
        (t : BundleSource)
        → (files_of u ss ≡ t.files) × (0 < t.files)
        → false ≡ (files_of u ss == 0)
    known t h = ground (arith, h)

-- addUserQueue refines a count of the wanted files of each user: if the sources of a bundle and its
-- lists by priority both agree with a count and each user is a source once, then for a file of a
-- priority below 7 both agree with the count of one file more for this user, and the call reports a
-- new source exactly if the user had none.
pub add_user_queue-Represents :
    (alpha : File → File → Bool) (random : ℕ) (f : File) (u : ℕ) (is_bad : Bool) (b : Bundle)
    (s : Wanted)
    → f.file_priority < 7
    → Represents b s
    → Represents (add_user_queue alpha random f u is_bad b).0 (want u s).0
      × ((add_user_queue alpha random f u is_bad b).1 ≡ (want u s).1)
unfolding add_user_queue want get_items items_from
add_user_queue-Represents alpha random f u is_bad b s h r =
    let c = count_source-IsCounted f u b.bundle_sources r.sources_fine in
    let l = place_file alpha random b.seq_order f (b.user_queue f.file_priority u) in
    (
      record {
        sources_fine = c.fine;
        by_source = λ v. c.counts v ∙ ap (λ n. if v == u then n + 1 else n) (r.by_source v);
        by_queue = λ v.
            longer (v == u) _ _ _ _ (s v) (length-get_items f.file_priority u v l b h)
              (length-place_file alpha random b.seq_order f (b.user_queue f.file_priority u))
              (r.by_queue v);
      },
      c.is_new ∙ ap (λ n. n == 0) (r.by_source u),
    )
  where
    longer :
        (same : Bool) (x y o m w : ℕ)
        → x + (if same then o else 0) ≡ y + (if same then m else 0)
        → m ≡ o + 1
        → y ≡ w
        → x ≡ (if same then w + 1 else w)
    longer same x y o m w a b c = ground arith

-- What taking a file off a source does.
is_last-files_of :
    (u : ℕ) (ss : List BundleSource)
    → IsSources ss
    → 0 < files_of u ss
    → is_last u ss ≡ (files_of u ss == 1)
unfolding is_last
is_last-files_of u ss k h = elim (Option-cases (find_source u ss)) [
  | inl e ↦ absurd (omega (arith, find_none u ss e))
  | inr (t, e) ↦ rw (is_last, e) (let g = find_some u ss t k e in rw g.0 (one t.files g.1))
]
  where
    one : (n : ℕ) → 0 < n → (n - 1 == 0) ≡ (n == 1)
    one n h = ground arith

-- removeUserQueue refines the count of wanted files: for a file of a priority below 7 that stands
-- in the list of the user, sources and lists that agree with a count agree afterwards with the
-- count of one file less for this user, and the call reports that the source is gone exactly if it
-- was his last file, whatever the reason given.
pub remove_user_queue-Represents :
    (f : File) (u reason : ℕ) (b : Bundle) (s : Wanted)
    → f.file_priority < 7
    → any (λ (g : File). same_file g f) (b.user_queue f.file_priority u) ≡ true
    → Represents b s
    → Represents (remove_user_queue f u reason b).0 (unwant u s).0
      × ((remove_user_queue f u reason b).1 ≡ (unwant u s).1)
unfolding remove_user_queue unwant get_items items_from
remove_user_queue-Represents f u reason b s h m r =
    let gone =
      length-get_items f.file_priority u u (erase_file f (b.user_queue f.file_priority u)) b h in
    let less = length-erase_file f (b.user_queue f.file_priority u) m in
    if_cases {A = Bundle × Bool} (λ x. Represents x.0 (unwant u s).0 × (x.1 ≡ (s u == 1)))
      (length (b.user_queue f.file_priority u) == 0) _ _
      (λ e. absurd (omega (arith, less, (==_iff (length (b.user_queue f.file_priority u)) 0).0 e)))
      (λ e. (
        record {
          sources_fine =
              change_source-IsSources (fewer_files f.file_size) u b.bundle_sources (λ t. refl)
                r.sources_fine;
          by_source = λ v.
              files_of-fewer f.file_size u v b.bundle_sources r.sources_fine
              ∙ ap (λ n. if v == u then n - 1 else n) (r.by_source v);
          by_queue = λ v.
              shorter (v == u) _ _ _ _ (s v)
                (length-get_items f.file_priority u v
                  (erase_file f (b.user_queue f.file_priority u)) b h)
                less (r.by_queue v);
        },
        is_last-files_of u b.bundle_sources r.sources_fine
              (has_some _ _ _ _ (rw (==_refl u) at gone) less (r.by_queue u) (r.by_source u))
            ∙ ap (λ n. n == 1) (r.by_source u),
      ))
  where
    shorter :
        (same : Bool) (x y o m w : ℕ)
        → x + (if same then o else 0) ≡ y + (if same then m else 0)
        → m + 1 ≡ o
        → y ≡ w
        → x ≡ (if same then w - 1 else w)
    shorter same x y o m w a b c = ground arith

    has_some :
        (x y o m : ℕ)
        → x + o ≡ y + m
        → m + 1 ≡ o
        → y ≡ s u
        → files_of u b.bundle_sources ≡ s u
        → 0 < files_of u b.bundle_sources
    has_some x y o m a b c d = omega arith
