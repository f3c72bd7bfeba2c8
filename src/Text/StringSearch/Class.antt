-- ===== src/Text/StringSearch/Class.antt =====
-- The list of patterns: how many match, and that the loop for one pattern ends.
use airdcpp_core.Base.{
  ℕ, zero, suc, ◌+◌, ◌-◌, ◌≤◌, ◌<◌, ◌≡◌, refl, sym, ap, ◌∙◌, inl, inr, Bool, true, false, Option,
  none, some, List, [], ◌∷◌, ◌++◌, arith, if◌then◌else◌, Option-cases, length, take, drop, All,
  All-append, Bytes,
}
use airdcpp_core.Text.Utf8.{to_lower, underscore}
use airdcpp_core.Text.Utf8.Texts.{IsLowering, to_lower_idem}
use airdcpp_core.Text.StringSearch.{
  Pattern, new_pattern, match_lower, is_some, add_string, match_all_lower, next_start, is_behind,
  place_loop, place, old_front, place_all, match_lower_all,
}
use airdcpp_core.Text.StringSearch.Shift.{IsPattern}
use airdcpp_core.Text.StringSearch.First.{first_from, match_lower-first_from}

-- Of a text that is lowered already, the constructor makes a pattern that can be searched for.
pub new_pattern-IsPattern :
    (towlower : ℕ → ℕ) (given : Bytes)
    → to_lower towlower given ≡ given
    → 0 < length given
    → length given < 65535
    → All (λ c. 0 < c) given
    → IsPattern (new_pattern towlower given)
unfolding new_pattern
new_pattern-IsPattern towlower given e s l z =
    rw e (record { noted = refl; some_byte = s; short = l; no_zero = z; own_table = refl })

-- Where the plain search finds something, it stands in the range.
first_from_range :
    (left pos : ℕ) (px tx : Bytes) (i : ℕ)
    → first_from left pos px tx ≡ some i
    → (pos ≤ i) × (i < pos + left)
unfolding first_from
first_from_range zero pos px tx i e = ground arith
first_from_range (suc left) pos px tx i e =
    ground (arith, first_from_range left (pos + 1) px (drop 1 tx) i)

pub match_lower_range :
    (p : Pattern) (text : Bytes) (start i : ℕ)
    → IsPattern p
    → match_lower p text start ≡ some i
    → (start ≤ i) × (i < length text)
match_lower_range p text start i h e =
    let r =
      first_from_range (length text + 1 - p.plen - start) start p.pattern (drop start text) i
        (sym (match_lower-first_from p text start h) ∙ e) in
    (r.0, omega (arith, r.1, r.0, h.noted, h.some_byte))

-- The rest of a round, after the search.
after : (fuel : ℕ) → Pattern → Bytes → (before add : Option ℕ) → Option ℕ → Option ℕ
after fuel p text before add none = add
after fuel p text before add (some cur) =
    if is_behind before cur then place_loop fuel p text before (some cur) else some cur

place_loop_step :
    (fuel : ℕ) (p : Pattern) (text : Bytes) (before add : Option ℕ)
    → place_loop (suc fuel) p text before add
      ≡ after fuel p text before add (match_lower p text (next_start add))
unfolding place_loop after
place_loop_step fuel p text before add = refl

is_some-if :
    (b : Bool) (o : Option ℕ) (c : ℕ) → is_some o ≡ true → is_some (if b then o else some c) ≡ true
unfolding is_some
is_some-if true o c h = h
is_some-if false o c h = refl

after-some :
    (fuel : ℕ) (p : Pattern) (text : Bytes) (before : Option ℕ) (c : ℕ) (found : Option ℕ)
    → ((cur : ℕ) → is_some (place_loop fuel p text before (some cur)) ≡ true)
    → is_some (after fuel p text before (some c) found) ≡ true
unfolding after is_some
after-some fuel p text before c none h = refl
after-some fuel p text before c (some cur) h =
    is_some-if (is_behind before cur) (place_loop fuel p text before (some cur)) cur (h cur)

place_loop-some :
    (fuel : ℕ) (p : Pattern) (text : Bytes) (before : Option ℕ) (c : ℕ)
    → is_some (place_loop fuel p text before (some c)) ≡ true
unfolding place_loop is_some
place_loop-some zero p text before c = refl
place_loop-some (suc fuel) p text before c = rw (place_loop_step fuel p text before (some c)) (
    after-some fuel p text before c (match_lower p text (c + 1))
      (λ cur. place_loop-some fuel p text before cur))

is_some-after :
    (fuel : ℕ) (p : Pattern) (text : Bytes) (before found : Option ℕ)
    → is_some (after fuel p text before none found) ≡ is_some found
unfolding after is_some
is_some-after fuel p text before none = refl
is_some-after fuel p text before (some cur) =
    is_some-if (is_behind before cur) (place_loop fuel p text before (some cur)) cur
      (place_loop-some fuel p text before cur)

is_some-place :
    (p : Pattern) (text : Bytes) (before : Option ℕ)
    → is_some (place p text before) ≡ is_some (match_lower p text 0)
unfolding place
is_some-place p text before =
    rw (fuel_one (length text), place_loop_step (length text) p text before none)
      (is_some-after (length text) p text before (match_lower p text 0))
  where
    fuel_one : (n : ℕ) → n + 1 ≡ suc n
    fuel_one n = omega arith

-- How many of the patterns stand in the text.
abbrev pub occurring : List Pattern → Bytes → ℕ
occurring [] text = 0
occurring (p ∷ ps) text =
    let rest = occurring ps text in if is_some (match_lower p text 0) then suc rest else rest

pub not_found :
    (p : Pattern) (text : Bytes) (before : Option ℕ)
    → place p text before ≡ none
    → is_some (match_lower p text 0) ≡ false
unfolding is_some
not_found p text before e = sym (is_some-place p text before) ∙ ap (λ o. is_some o) e

pub found :
    (p : Pattern) (text : Bytes) (before : Option ℕ) (at : ℕ)
    → place p text before ≡ some at
    → is_some (match_lower p text 0) ≡ true
unfolding is_some
found p text before at e = sym (is_some-place p text before) ∙ ap (λ o. is_some o) e

place_all_resume :
    (text : Bytes) (ps : List Pattern) (before : Option ℕ) (n : ℕ) (done old : List (Option ℕ))
    → (place_all true text ps before n done old).matches ≡ n + occurring ps text
unfolding place_all
place_all_resume text [] before n done old = omega arith
place_all_resume text (p ∷ ps) before n done old = elim (Option-cases (place p text before)) [
  | inl e ↦
      rw (place_all, e, not_found p text before e)
        (place_all_resume text ps (old_front old) n (done ++ take 1 old) (drop 1 old))
  | inr (at, e) ↦
      rw (place_all, e, found p text before at e)
        (place_all_resume text ps (some at) (n + 1) (done ++ (some at ∷ [])) (drop 1 old)
          ∙ omega arith)
]

place_all_stop :
    (text : Bytes) (ps : List Pattern) (before : Option ℕ) (n : ℕ) (done old : List (Option ℕ))
    → (place_all false text ps before n done old).matches
      ≡ (if match_all_lower ps text then n + length ps else 0)
unfolding place_all match_all_lower
place_all_stop text [] before n done old = omega arith
place_all_stop text (p ∷ ps) before n done old = elim (Option-cases (place p text before)) [
  | inl e ↦ rw (place_all, e, not_found p text before e) refl
  | inr (at, e) ↦
      rw (place_all, e, found p text before at e)
        (place_all_stop text ps (some at) (n + 1) (done ++ (some at ∷ [])) (drop 1 old)
          ∙ ap (λ m. if match_all_lower ps text then m else 0) (omega arith))
]

-- The search of all patterns counts the patterns that stand in the text, whatever positions it
-- prefers, and when it may stop at the first that does not, it counts all or none, as match_all
-- decides.
pub match_lower_all-match_all_lower :
    (ps : List Pattern) (text : Bytes) (results : List (Option ℕ))
    → ((match_lower_all true ps text results).matches ≡ occurring ps text)
      × ((match_lower_all false ps text results).matches
          ≡ (if match_all_lower ps text then length ps else 0))
unfolding match_lower_all
match_lower_all-match_all_lower ps text results = (
  place_all_resume text ps none 0 [] results ∙ omega arith,
  place_all_stop text ps none 0 [] results
      ∙ ap (λ m. if match_all_lower ps text then m else 0) (omega arith),
)

-- A string that is added becomes a pattern that the search with shifts is right for, whatever
-- length lowering gives it, if lowering twice is lowering once, and the lowered text is neither
-- empty nor of 65,535 bytes or more and holds no zero byte.
pub add_string-IsPattern :
    (towlower : ℕ → ℕ) (given : Bytes) (ps : List Pattern)
    → IsLowering towlower
    → towlower underscore ≡ underscore
    → 0 < length (to_lower towlower given)
    → length (to_lower towlower given) < 65535
    → All (λ c. 0 < c) (to_lower towlower given)
    → All IsPattern ps
    → All IsPattern (add_string towlower given ps)
unfolding add_string
add_string-IsPattern towlower [] ps l u s h z w = w
add_string-IsPattern towlower (c ∷ given) ps l u s h z w =
    All-append IsPattern ps (new_pattern towlower (to_lower towlower (c ∷ given)) ∷ []) w (
      new_pattern-IsPattern towlower (to_lower towlower (c ∷ given))
          (to_lower_idem towlower (c ∷ given) l u) s h z,
      tt,
    )
