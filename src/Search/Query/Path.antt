-- ===== src/Search/Query/Path.antt =====
-- The matching of a path by its parts.
use airdcpp_core.Base.{
  ℕ, ◌≡◌, refl, sym, ap, subst, ◌∙◌, Bool, true, false, not, ◌&&◌, ◌||◌, Option, none, some, List,
  [], ◌∷◌, arith, ltb, ◌==◌, if◌then◌else◌, length, any, all, if_cases, All, Bytes,
}
use airdcpp_core.Text.Utf8.{to_lower}
use airdcpp_core.Text.StringSearch.{Pattern, is_some, match_all_lower}
use airdcpp_core.Search.Query.Types.{Points, Recursion, SearchQuery, is_npos}
use airdcpp_core.Search.Query.Recursion.{to_points, to_point_list, new_recursion, completes}
use airdcpp_core.Search.Query.Matching.{
  path_level, positions_complete, locate, path_loop, matches_adc_path,
}
use airdcpp_core.Search.Query.Places.{
  IsCounted, ShowsPlaces, locate-IsLocated, locate-cleared, occurring-match_all_lower,
}
use airdcpp_core.Search.Query.Covered.{complete_alone, complete_above}
use airdcpp_core.Search.Query.Above.{
  Shows, stands_in, either, Shows-to_points, AboveShows, AboveShows-nested, AboveShows-same,
  AboveShows-upper, none_stands,
}

-- All patterns hold once those of the last part are found.
all-match_all_lower :
    (text : Bytes) (g : Pattern → Bool) (ps : List Pattern)
    → All (λ p. g p ≡ false) ps
    → match_all_lower ps text ≡ all (either (stands_in text) g) ps
unfolding match_all_lower
all-match_all_lower text g [] h = refl
all-match_all_lower text g (p ∷ ps) h = ground (arith, h.0, all-match_all_lower text g ps h.1)

all_found_hold :
    (text : Bytes) (g : Pattern → Bool) (ps : List Pattern)
    → match_all_lower ps text ≡ true
    → all (either (stands_in text) g) ps ≡ true
unfolding match_all_lower
all_found_hold text g [] h = refl
all_found_hold text g (p ∷ ps) h = ground (arith, h, all_found_hold text g ps)

completes-all :
    (text : Bytes) (g : Pattern → Bool) (ps : List Pattern) (ts : List Points)
    (os : List (Option ℕ))
    → Shows g ps ts
    → ShowsPlaces text ps os
    → completes ts os ≡ all (either (stands_in text) g) ps
unfolding completes Shows ShowsPlaces is_npos is_some
completes-all text g [] [] os h k = refl
completes-all text g [] (t ∷ ts) os h k = absurd h
completes-all text g (p ∷ ps) [] os h k = absurd h
completes-all text g (p ∷ ps) (t ∷ ts) [] h k = absurd k
completes-all text g (p ∷ ps) (t ∷ ts) (o ∷ os) h k =
    one t.0 o (stands_in text p) (g p) _ _ h.0 k.0 (completes-all text g ps ts os h.1 k.1)
  where
    one :
        (a o : Option ℕ) (b e c d : Bool)
        → not (is_npos a) ≡ e
        → is_some o ≡ b
        → c ≡ d
        → (not (is_npos a && is_npos o) && c) ≡ ((b || e) && d)
    one none none b e c d f g h = ground arith
    one none (some i) b e c d f g h = ground arith
    one (some i) none b e c d f g h = ground arith
    one (some i) (some j) b e c d f g h = ground arith

-- The last part of a path.
complete_last :
    (text : Bytes) (q : SearchQuery) (g : Pattern → Bool)
    → IsCounted q
    → AboveShows g q.include q.recursion
    → positions_complete (locate true text q) ≡ all (either (stands_in text) g) q.include
unfolding AboveShows
complete_last text q g h a = go q.recursion refl a
  where
    shortcut :
        (x y d : Bool)
        → x ≡ match_all_lower q.include text
        → (match_all_lower q.include text ≡ true → d ≡ true)
        → y ≡ d
        → (if x then true else y) ≡ d
    shortcut true y d e f g = sym (f (sym e))
    shortcut false y d e f g = g

    number :
        ((locate true text q).last_matches == length (locate true text q).include)
        ≡ match_all_lower q.include text
    number =
        ap (λ x. (locate true text q).last_matches == length x.include)
          (locate-cleared true text q h)
        ∙ ap (λ n. n == length q.include) (locate-IsLocated text q h).number_found
        ∙ occurring-match_all_lower text q.include

    go :
        (o : Option Recursion)
        → q.recursion ≡ o
        → AboveShows g q.include o
        → positions_complete (locate true text q) ≡ all (either (stands_in text) g) q.include
    go none e b =
        let c = locate-cleared true text q h in
        complete_alone (locate true text q) (ap (λ x. x.recursion) c ∙ e)
        ∙ number
        ∙ all-match_all_lower text g q.include b
    go (some r) e b =
        let c = locate-cleared true text q h in
        complete_above (locate true text q) r (ap (λ x. x.recursion) c ∙ e)
        ∙ shortcut _ _ _ number (all_found_hold text g q.include)
            (completes-all text g q.include r.points _ b (locate-IsLocated text q h).places_shown)

-- What a part that is not the last leaves.
record IsBelow (f : Pattern → Bool) (q r : SearchQuery) : Type 0 where
  below_counted : IsCounted r
  below_include : r.include ≡ q.include
  below_shows : AboveShows f q.include r.recursion

module _ (towlower : ℕ → ℕ) where
  path_level-IsBelow :
      (s : Bytes) (q : SearchQuery) (g : Pattern → Bool)
      → IsCounted q
      → AboveShows g q.include q.recursion
      → IsBelow (either (stands_in (to_lower towlower s)) g) q (path_level towlower s q)
  unfolding path_level new_recursion to_point_list AboveShows
  path_level-IsBelow s q g h a =
      let text = to_lower towlower s in
      let l = locate-IsLocated text q h in
      let c = locate-cleared true text q h in
      let found = locate true text q in
      let inc = ap (λ x. x.include) c in
      let rec = subst (λ o. AboveShows g q.include o) (sym (ap (λ x. x.recursion) c)) a in
      record {
        below_counted = record {
          one_each = l.places_counted.one_each;
          counted = l.places_counted.counted;
        };
        below_include = inc;
        below_shows = AboveShows-upper (length s) (either (stands_in text) g) q.include _ (
            if_cases {A = Option Recursion} (AboveShows (either (stands_in text) g) q.include)
              (ltb 0 found.last_matches) _ _
              (λ e.
                (AboveShows-nested (stands_in text) g q.include (to_point_list s found)
                  found.recursion
                  (subst
                    (λ ps. Shows (stands_in text) q.include (to_points s ps found.last_positions))
                    (sym inc)
                    (Shows-to_points s text q.include found.last_positions l.places_shown))
                  rec))
              (λ e.
                AboveShows-same (stands_in text) g q.include found.recursion
                  (none_stands text q.include (sym l.number_found ∙ nothing found.last_matches e))
                  rec));
      }
    where
      nothing : (n : ℕ) → ltb 0 n ≡ false → n ≡ 0
      nothing n e = ground arith

  -- Whether a pattern stands in one of the parts.
  abbrev pub stands_in_parts : List Bytes → Pattern → Bool
  stands_in_parts sl p = any (λ s. stands_in (to_lower towlower s) p) sl

  all_same :
      (f g : Pattern → Bool) (ps : List Pattern) → ((p : Pattern) → f p ≡ g p) → all f ps ≡ all g ps
  all_same f g [] h = refl
  all_same f g (p ∷ ps) h = ground (arith, h p, all_same f g ps h)

  path_loop-positions_complete :
      (s : Bytes) (sl : List Bytes) (q : SearchQuery) (g : Pattern → Bool)
      → IsCounted q
      → AboveShows g q.include q.recursion
      → positions_complete (path_loop towlower s sl q)
        ≡ all (either (stands_in_parts (s ∷ sl)) g) q.include
  unfolding path_loop
  path_loop-positions_complete s [] q g h a =
      complete_last (to_lower towlower s) q g h a
      ∙ all_same _ _ q.include (λ p. last (stands_in (to_lower towlower s) p) (g p))
    where
      last : (a b : Bool) → (a || b) ≡ ((a || false) || b)
      last a b = ground arith
  path_loop-positions_complete s (t ∷ sl) q g h a =
      let b = path_level-IsBelow s q g h a in
      path_loop-positions_complete t sl (path_level towlower s q)
        (either (stands_in (to_lower towlower s)) g) b.below_counted
        (subst
          (λ ps.
            AboveShows (either (stands_in (to_lower towlower s)) g) ps
              (path_level towlower s q).recursion)
          (sym b.below_include) b.below_shows)
      ∙ ap
          (λ ps.
            all (either (stands_in_parts (t ∷ sl)) (either (stands_in (to_lower towlower s)) g)) ps)
          b.below_include
      ∙ all_same _ _ q.include
          (λ p. moved (stands_in (to_lower towlower s) p) (stands_in_parts (t ∷ sl) p) (g p))
    where
      moved : (a b c : Bool) → (b || (a || c)) ≡ ((a || b) || c)
      moved a b c = ground arith

  -- For a query whose places are counted and that has no directories above, matchesAdcPath accepts
  -- a path of one part at least exactly if each pattern is found in one of its lowered parts,
  -- whichever part that is, though the positions of one level at a time are kept and merged.
  pub matches_adc_path-stands_in_parts :
      (s : Bytes) (sl : List Bytes) (q : SearchQuery)
      → IsCounted q
      → q.recursion ≡ none
      → (matches_adc_path towlower (s ∷ sl) q).0 ≡ all (stands_in_parts (s ∷ sl)) q.include
  unfolding matches_adc_path AboveShows
  matches_adc_path-stands_in_parts s sl q h e =
      path_loop-positions_complete s sl q (λ p. false) h
        (subst (λ o. AboveShows (λ p. false) q.include o) (sym e) (nothing_above q.include))
      ∙ all_same _ _ q.include (λ p. alone (stands_in_parts (s ∷ sl) p))
    where
      nothing_above : (ps : List Pattern) → All (λ p. false ≡ false) ps
      nothing_above [] = tt
      nothing_above (p ∷ ps) = (refl, nothing_above ps)

      alone : (a : Bool) → (a || false) ≡ a
      alone a = ground arith
