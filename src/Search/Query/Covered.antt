-- ===== src/Search/Query/Covered.antt =====
-- The patterns that a name and the directories above it cover.
use airdcpp_core.Base.{
  ℕ, ◌≡◌, refl, sym, ap, subst, ◌∙◌, inl, inr, Bool, true, false, not, ◌&&◌, ◌||◌, Option, none,
  some, List, [], ◌∷◌, arith, ◌==◌, if◌then◌else◌, Option-cases, length, Bytes,
}
use airdcpp_core.Text.StringSearch.{Pattern, match_lower, is_some, match_all_lower}
use airdcpp_core.Search.Query.Types.{Points, Recursion, SearchQuery, is_npos}
use airdcpp_core.Search.Query.Recursion.{completes}
use airdcpp_core.Search.Query.Matching.{positions_complete, locate, has_recursion}
use airdcpp_core.Search.Query.Places.{
  IsCounted, ShowsPlaces, locate-IsLocated, locate-IsDecided, locate-cleared,
  occurring-match_all_lower,
}

-- The patterns that stand in the text or have a place above.
unfoldable pub covered : List Pattern → Bytes → List Points → Bool
unfolding is_some is_npos
covered [] text os = true
covered (p ∷ ps) text [] = is_some (match_lower p text 0) && covered ps text []
covered (p ∷ ps) text (o ∷ os) =
    (is_some (match_lower p text 0) || not (is_npos o.0)) && covered ps text os

pub completes-covered :
    (text : Bytes) (ps : List Pattern) (above : List Points) (os : List (Option ℕ))
    → length above ≡ length ps
    → ShowsPlaces text ps os
    → completes above os ≡ covered ps text above
unfolding completes covered ShowsPlaces is_npos is_some
completes-covered text [] [] os l h = refl
completes-covered text [] (a ∷ above) os l h = absurd (omega (arith, l))
completes-covered text (p ∷ ps) [] os l h = absurd (omega (arith, l))
completes-covered text (p ∷ ps) (a ∷ above) [] l h = absurd h
completes-covered text (p ∷ ps) (a ∷ above) (o ∷ os) l h =
    one a.0 o (is_some (match_lower p text 0)) _ _ h.0
      (completes-covered text ps above os (omega (arith, l)) h.1)
  where
    one :
        (a o : Option ℕ) (b c d : Bool)
        → is_some o ≡ b
        → c ≡ d
        → (not (is_npos a && is_npos o) && c) ≡ ((b || not (is_npos a)) && d)
    one none none b c d e f = ground arith
    one none (some i) b c d e f = ground arith
    one (some i) o b c d e f = ground arith

pub covered-all :
    (text : Bytes) (ps : List Pattern) (above : List Points)
    → match_all_lower ps text ≡ true
    → covered ps text above ≡ true
unfolding covered match_all_lower
covered-all text [] above h = refl
covered-all text (p ∷ ps) [] h = ground (arith, covered-all text ps [])
covered-all text (p ∷ ps) (a ∷ above) h = ground (arith, covered-all text ps above)

-- Each pattern stands in the name or in the directories above.
abbrev pub all_covered : Option Recursion → List Pattern → Bytes → Bool
all_covered none ps name = match_all_lower ps name
all_covered (some r) ps name = covered ps name r.points

-- The directories above were matched against the same patterns.
abbrev pub IsAbove : SearchQuery → Type 0
IsAbove q = (r : Recursion) → q.recursion ≡ some r → length r.points ≡ length q.include

pub record IsMatched (o : Option Recursion) (q : SearchQuery) (name : Bytes) (r : SearchQuery)
    : Type 0 where
  pub still_counted : IsCounted r
  pub complete : positions_complete r ≡ all_covered o q.include name

pub complete_alone :
    (q : SearchQuery)
    → q.recursion ≡ none
    → positions_complete q ≡ (q.last_matches == length q.include)
unfolding positions_complete
complete_alone q e = rw (positions_complete, e) (same (q.last_matches == length q.include))
  where
    same : (b : Bool) → (if b then true else false) ≡ b
    same true = refl
    same false = refl

pub complete_above :
    (q : SearchQuery) (r : Recursion)
    → q.recursion ≡ some r
    → positions_complete q
      ≡ (if q.last_matches == length q.include then true else completes r.points q.last_positions)
unfolding positions_complete
complete_above q r e = rw (positions_complete, e) refl

pub locate-IsMatched :
    (name : Bytes) (q : SearchQuery)
    → IsCounted q
    → IsAbove q
    → IsMatched q.recursion q name (locate (has_recursion q.recursion) name q)
locate-IsMatched name q h a = elim (Option-cases q.recursion) [
  | inl e ↦
      let d = locate-IsDecided name q h in
      let c = locate-cleared false name q h in
      subst (λ o. IsMatched o q name (locate (has_recursion o) name q)) (sym e)
        (record {
          still_counted = d.stays_counted;
          complete =
              complete_alone (locate false name q) (ap (λ x. x.recursion) c ∙ e)
              ∙ ap (λ x. (locate false name q).last_matches == length x.include) c
              ∙ d.all_found;
        })
  | inr (r, e) ↦
      let d = locate-IsLocated name q h in
      let c = locate-cleared true name q h in
      subst (λ o. IsMatched o q name (locate (has_recursion o) name q)) (sym e)
        (record {
          still_counted = d.places_counted;
          complete =
              complete_above (locate true name q) r (ap (λ x. x.recursion) c ∙ e)
              ∙ ap
                  (λ x.
                    if (locate true name q).last_matches == length x.include
                    then true
                    else completes r.points (locate true name q).last_positions)
                  c
              ∙ shortcut _ _ _
                  (ap (λ n. n == length q.include) d.number_found
                    ∙ occurring-match_all_lower name q.include)
                  (λ g. covered-all name q.include r.points g)
                  (completes-covered name q.include r.points _ (a r e) d.places_shown);
        })
]
  where
    shortcut :
        (x c d : Bool)
        → x ≡ match_all_lower q.include name
        → (match_all_lower q.include name ≡ true → d ≡ true)
        → c ≡ d
        → (if x then true else c) ≡ d
    shortcut true c d e f g = sym (f (sym e))
    shortcut false c d e f g = g
