-- ===== src/Bundle/UserQueue/Listed.antt =====
-- A bundle stands in the list of a user exactly if the user is a source of it.
use airdcpp_core.Base.{
  ℕ, ◌+◌, ◌-◌, ◌<◌, ◌≡◌, refl, sym, ap, subst, ◌∙◌, inl, inr, Bool, true, false, not, ◌&&◌, some,
  List, [], ◌∷◌, arith, ◌==◌, if◌then◌else◌, ==_iff, ==_refl, Bool-cases, Option-cases, any,
  if_both, if_cases,
}
use airdcpp_core.Bundle.Types.{File, Bundle, same_file}
use airdcpp_core.Bundle.Users.{add_user_queue, remove_user_queue, is_bundle_source}
use airdcpp_core.Bundle.Users.Counts.{Represents, Wanted, want, unwant, files_of}
use airdcpp_core.Bundle.Users.Refines.{add_user_queue-Represents, remove_user_queue-Represents}
use airdcpp_core.Bundle.UserQueue.{
  Queued, UserQueue, Orders, set_at, token_place, erase_token, add_bundle, remove_bundle,
  add_to_bundle, add_qi, remove_qi, remove_prio, highest,
}

unfoldable pub count_of : ℕ → List ℕ → ℕ
count_of t [] = 0
count_of t (s ∷ ts) = (if s == t then 1 else 0) + count_of t ts

abbrev pub source_files : ℕ → Bundle → ℕ
source_files u b = files_of u b.bundle_sources

-- A bundle is in the list of a user once if he has files of it.
abbrev pub times_listed : (files : ℕ) → ℕ
times_listed n = if n == 0 then 0 else 1

-- The sources of each bundle are right, and the lists of the users say which bundles they are
-- sources of.
pub record IsListed (q : UserQueue) : Type 0 where
  pub fine : (t : ℕ) → Represents (q.bundles t) (λ u. source_files u (q.bundles t))
  pub listed :
      (u t : ℕ) → count_of t (q.bundle_queue u) ≡ times_listed (source_files u (q.bundles t))

count_of-token_place :
    (less : ℕ → ℕ → Bool) (t x : ℕ) (ts : List ℕ)
    → count_of x (token_place less t ts) ≡ count_of x ts + (if t == x then 1 else 0)
unfolding count_of token_place
count_of-token_place less t x [] = omega arith
count_of-token_place less t x (s ∷ ts) = elim (Bool-cases (less t s)) [
  | inl e ↦ rw e (omega arith)
  | inr e ↦ rw e (omega (arith, count_of-token_place less t x ts))
]

count_of-erase_token :
    (t x : ℕ) (ts : List ℕ)
    → count_of x (erase_token t ts) ≡ (if t == x then count_of x ts - 1 else count_of x ts)
unfolding count_of erase_token
count_of-erase_token t x [] = ground arith
count_of-erase_token t x (s ∷ ts) = elim (Bool-cases (s == t)) [
  | inl e ↦ rw e (ground arith)
  | inr e ↦ rw e (ground (arith, count_of-erase_token t x ts))
]

own_view : (b : Bundle) (w : Wanted) → Represents b w → Represents b (λ u. source_files u b)
own_view b w r = record {
  sources_fine = r.sources_fine;
  by_source = λ u. refl;
  by_queue = λ u. r.by_queue u ∙ sym (r.by_source u);
}

-- A bundle of a user changes, and with it the place of the bundle in his list.
abbrev IsTold : (t u files : ℕ) (q : UserQueue) (k : ℕ → List ℕ) → Type 0
IsTold t u files q k =
    (v x : ℕ)
    → count_of x (k v)
      ≡ (if (v == u) && (x == t) then times_listed files else count_of x (q.bundle_queue v))

change-IsListed :
    (q : UserQueue) (t u : ℕ) (b : Bundle) (w : Wanted) (k : ℕ → List ℕ) (n : ℕ → ℕ)
    → IsListed q
    → Represents b w
    → ((v : ℕ) → (v == u) ≡ false → w v ≡ source_files v (q.bundles t))
    → IsTold t u (w u) q k
    → IsListed (record q { queued_bytes = n; bundles = set_at t b q.bundles; bundle_queue = k })
unfolding set_at
change-IsListed q t u b w k n h r o c = record {
  fine = λ x.
      if_cases {A = Bundle} (λ y. Represents y (λ v. source_files v y)) (x == t) b (q.bundles x)
        (λ e. own_view b w r) (λ e. h.fine x);
  listed = λ v x.
      if_cases {A = Bundle} (λ y. count_of x (k v) ≡ times_listed (source_files v y)) (x == t) b
        (q.bundles x)
        (λ e.
          changed (v == u) (x == t) _ (count_of x (q.bundle_queue v)) (w u) (source_files v b) e
            (c v x) (λ g. sym (r.by_source v ∙ ap w ((==_iff v u).0 g)))
            (λ g.
              subst
                (λ y. count_of x (q.bundle_queue v) ≡ times_listed (source_files v (q.bundles y)))
                ((==_iff x t).0 e) (h.listed v x)
              ∙ ap times_listed (sym (r.by_source v ∙ o v g))))
        (λ e. kept (v == u) (x == t) _ _ (times_listed (w u)) e (c v x) ∙ h.listed v x);
}
  where
    kept : (a y : Bool) (n m z : ℕ) → y ≡ false → n ≡ (if a && y then z else m) → n ≡ m
    kept a y n m z e c = ground arith

    changed :
        (a y : Bool) (n m z f : ℕ)
        → y ≡ true
        → n ≡ (if a && y then times_listed z else m)
        → (a ≡ true → z ≡ f)
        → (a ≡ false → m ≡ times_listed f)
        → n ≡ times_listed f
    changed true y n m z f e c d g = c ∙ rw e (ap times_listed (d refl))
    changed false y n m z f e c d g = c ∙ g refl

-- The list changes or stays as the number of files does.
IsTold-token_place :
    (less : ℕ → ℕ → Bool) (t u n : ℕ) (q : UserQueue)
    → count_of t (q.bundle_queue u) ≡ 0
    → 0 < n
    → IsTold t u n q (set_at u (token_place less t (q.bundle_queue u)) q.bundle_queue)
unfolding set_at
IsTold-token_place less t u n q z h v x = elim (Bool-cases (v == u)) [
  | inr g ↦ rw g refl
  | inl g ↦
      rw (g, (==_iff v u).0 g, count_of-token_place less t x (q.bundle_queue u))
        (placed (λ y. count_of y (q.bundle_queue u)) z)
]
  where
    placed :
        (f : ℕ → ℕ)
        → f t ≡ 0
        → f x + (if t == x then 1 else 0) ≡ (if x == t then times_listed n else f x)
    placed f z = elim (Bool-cases (x == t)) [
      | inl e ↦ rw (e, (==_iff x t).0 e, ==_refl t, z) (ground arith)
      | inr e ↦ ground arith
    ]

IsTold-erase_token :
    (t u : ℕ) (q : UserQueue)
    → count_of t (q.bundle_queue u) ≡ 1
    → IsTold t u 0 q (set_at u (erase_token t (q.bundle_queue u)) q.bundle_queue)
unfolding set_at
IsTold-erase_token t u q z v x = elim (Bool-cases (v == u)) [
  | inr g ↦ rw g refl
  | inl g ↦
      rw (g, (==_iff v u).0 g, count_of-erase_token t x (q.bundle_queue u))
        (erased (λ y. count_of y (q.bundle_queue u)) z)
]
  where
    erased : (f : ℕ → ℕ) → f t ≡ 1 → (if t == x then f x - 1 else f x) ≡ (if x == t then 0 else f x)
    erased f z = elim (Bool-cases (x == t)) [
      | inl e ↦ rw (e, (==_iff x t).0 e, ==_refl t, z) refl
      | inr e ↦ ground arith
    ]

IsTold-same :
    (t u n : ℕ) (q : UserQueue)
    → count_of t (q.bundle_queue u) ≡ times_listed n
    → IsTold t u n q q.bundle_queue
IsTold-same t u n q z v x = elim (Bool-cases ((v == u) && (x == t))) [
  | inr e ↦ rw e refl
  | inl e ↦ rw e (
      subst (λ y. count_of x (q.bundle_queue y) ≡ times_listed n)
        (sym ((==_iff v u).0 (ground arith)))
        (subst (λ y. count_of y (q.bundle_queue u) ≡ times_listed n)
          (sym ((==_iff x t).0 (ground arith))) z))
]

-- The bundle of a file gets it for the user, and is listed if it is his first.
add_to_bundle-IsListed :
    (o : Orders) (f : Queued) (u : ℕ) (is_bad : Bool) (q : UserQueue)
    → f.file.file_priority < 7
    → IsListed q
    → IsListed (add_to_bundle o f u is_bad q)
unfolding add_to_bundle add_bundle want set_at
add_to_bundle-IsListed o f u is_bad q p h = elim (Option-cases f.bundle) [
  | inl e ↦ rw (add_to_bundle, e) h
  | inr (t, e) ↦
      rw (add_to_bundle, e)
        (let r =
            add_user_queue-Represents o.alpha_order o.random f.file u is_bad (q.bundles t)
              (λ v. source_files v (q.bundles t)) p (h.fine t) in
          let b = (add_user_queue o.alpha_order o.random f.file u is_bad (q.bundles t)).0 in
          if_cases {A = UserQueue} IsListed
            (add_user_queue o.alpha_order o.random f.file u is_bad (q.bundles t)).1 _ _
            (λ g. change-IsListed q t u b _ _ _ h r.0 (other t) (
              subst
                (λ m.
                  IsTold t u m q
                    (set_at u (token_place o.bundle_order t (q.bundle_queue u)) q.bundle_queue))
                (sym (wanted (source_files u (q.bundles t))))
                (IsTold-token_place o.bundle_order t u _ q
                  (h.listed u t ∙ ap times_listed ((==_iff _ 0).0 (sym r.1 ∙ g))) (omega arith))))
            (λ g. change-IsListed q t u b _ _ _ h r.0 (other t) (
              subst (λ m. IsTold t u m q q.bundle_queue)
                (sym (wanted (source_files u (q.bundles t))))
                (IsTold-same t u _ q (h.listed u t ∙ some_more _ (sym r.1 ∙ g))))))
]
  where
    other :
        (t v : ℕ)
        → (v == u) ≡ false
        → (if v == u then source_files v (q.bundles t) + 1 else source_files v (q.bundles t))
          ≡ source_files v (q.bundles t)
    other t v e = rw e refl

    wanted : (n : ℕ) → (if u == u then n + 1 else n) ≡ n + 1
    wanted n = rw (==_refl u) refl

    some_more : (n : ℕ) → (n == 0) ≡ false → times_listed n ≡ times_listed (n + 1)
    some_more n h = ground arith

-- addQI keeps, over all bundles and users, that the sources of a bundle agree with its lists by
-- priority, and that the list of a user holds a bundle once if he is a source of it and otherwise
-- not, for a file of a priority below 7.
pub add_qi-IsListed :
    (o : Orders) (f : Queued) (u : ℕ) (is_bad : Bool) (q : UserQueue)
    → f.file.file_priority < 7
    → IsListed q
    → IsListed (add_qi o f u is_bad q)
unfolding add_qi add_to_bundle add_bundle
add_qi-IsListed o f u is_bad q p h =
    if_both {A = UserQueue} (λ x. IsListed (add_to_bundle o f u is_bad x))
      (f.file.file_priority == highest) _ q
      (add_to_bundle-IsListed o f u is_bad _ p (record { fine = h.fine; listed = h.listed }))
      (add_to_bundle-IsListed o f u is_bad q p h)

remove_prio-IsListed :
    (f : Queued) (u : ℕ) (q : UserQueue) → IsListed q → IsListed (remove_prio f u q)
unfolding remove_prio
remove_prio-IsListed f u q h =
    if_both {A = UserQueue} IsListed (f.file.file_priority == highest) _ q
      (record { fine = h.fine; listed = h.listed }) h

-- The file is in the list of the user, in the bundle that it names.
abbrev pub InBundle : Queued → (user : ℕ) → UserQueue → Type 0
InBundle f u q =
    (t : ℕ)
    → f.bundle ≡ some t
    → any (λ (g : File). same_file g f.file) ((q.bundles t).user_queue f.file.file_priority u)
      ≡ true

-- removeQI keeps, over all bundles and users, that the sources of a bundle agree with its lists by
-- priority, and that the list of a user holds a bundle once if he is a source of it and otherwise
-- not, where the file has a priority below 7 and is in the list of the user in the bundle that it
-- names.
pub remove_qi-IsListed :
    (f : Queued) (u reason : ℕ) (q : UserQueue)
    → f.file.file_priority < 7
    → InBundle f u q
    → IsListed q
    → IsListed (remove_qi f u reason q)
unfolding remove_qi remove_bundle unwant set_at
remove_qi-IsListed f u reason q p m h = elim (Option-cases f.bundle) [
  | inl e ↦ rw (remove_qi, e) (remove_prio-IsListed f u q h)
  | inr (t, e) ↦
      rw (remove_qi, e)
        (let r =
            remove_user_queue-Represents f.file u reason (q.bundles t)
              (λ v. source_files v (q.bundles t)) p (m t e) (h.fine t) in
          if_both {A = UserQueue} IsListed (not (is_bundle_source u (q.bundles t))) q _ h (
            remove_prio-IsListed f u _ (
              if_cases {A = UserQueue} IsListed (remove_user_queue f.file u reason (q.bundles t)).1
                _ _
                (λ g. change-IsListed q t u _ _ _ _ h r.0 (other t) (
                  subst
                    (λ m.
                      IsTold t u m q (set_at u (erase_token t (q.bundle_queue u)) q.bundle_queue))
                    (sym (wanted (source_files u (q.bundles t)) ∙ last_one _ (sym r.1 ∙ g)))
                    (IsTold-erase_token t u q
                      (h.listed u t ∙ ap times_listed ((==_iff _ 1).0 (sym r.1 ∙ g))))))
                (λ g. change-IsListed q t u _ _ _ _ h r.0 (other t) (
                  subst (λ m. IsTold t u m q q.bundle_queue)
                    (sym (wanted (source_files u (q.bundles t))))
                    (IsTold-same t u _ q (h.listed u t ∙ one_less _ (sym r.1 ∙ g))))))))
]
  where
    other :
        (t v : ℕ)
        → (v == u) ≡ false
        → (if v == u then source_files v (q.bundles t) - 1 else source_files v (q.bundles t))
          ≡ source_files v (q.bundles t)
    other t v e = rw e refl

    wanted : (n : ℕ) → (if u == u then n - 1 else n) ≡ n - 1
    wanted n = rw (==_refl u) refl

    one_less : (n : ℕ) → (n == 1) ≡ false → times_listed n ≡ times_listed (n - 1)
    one_less n h = ground arith

    last_one : (n : ℕ) → (n == 1) ≡ true → n - 1 ≡ 0
    last_one n h = ground arith
