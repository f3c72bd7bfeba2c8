-- ===== src/Bundle/Users/Choice.antt =====
-- Which file of a user is downloaded next.
use airdcpp_core.Base.{
  ℕ, zero, suc, ◌≤◌, ◌<◌, ◌≡◌, refl, ap, subst, ◌⊎◌, inl, inr, Bool, true, false, Option, none,
  some, List, [], ◌∷◌, ◌++◌, arith, dec_le, leb, leb→le, Bool-cases, Option-cases, if_cases, All,
}
use airdcpp_core.Bundle.Types.{File, Bundle}
use airdcpp_core.Bundle.Users.{first_usable, next_at, get_next_qi}

module _ (has_segment : File → Bool) where
  abbrev pub NoneUsable : List File → Type 0
  NoneUsable = All (λ f. has_segment f ≡ false)

  -- A file with something to download, with none in front of it in the list.
  pub record IsFirst (fs : List File) (f : File) : Type 0 where
    pub front : List File
    pub behind : List File
    pub stands : fs ≡ front ++ f ∷ behind
    pub usable : has_segment f ≡ true
    pub none_in_front : NoneUsable front

  first_usable-none : (fs : List File) → first_usable has_segment fs ≡ none → NoneUsable fs
  unfolding first_usable
  first_usable-none [] h = tt
  first_usable-none (g ∷ fs) h = (ground arith, first_usable-none fs (ground arith))

  first_usable-IsFirst :
      (fs : List File) (f : File) → first_usable has_segment fs ≡ some f → IsFirst fs f
  unfolding first_usable
  first_usable-IsFirst [] f h = absurd (ground arith)
  first_usable-IsFirst (g ∷ fs) f h = elim (Bool-cases (has_segment g)) [
    | inl e ↦
        subst (λ x. IsFirst (g ∷ fs) x) (same (rw e at h))
          (record { front = []; behind = fs; stands = refl; usable = e; none_in_front = tt })
    | inr e ↦
        let r = first_usable-IsFirst fs f (rw e at h) in
        record {
          front = g ∷ r.front;
          behind = r.behind;
          stands = ap (λ l. g ∷ l) r.stands;
          usable = r.usable;
          none_in_front = (e, r.none_in_front);
        }
  ]
    where
      same : {a b : File} → some a ≡ some b → a ≡ b
      same h = cc

  -- The priorities that are looked at.
  abbrev pub IsReached : (top least p : ℕ) → Type 0
  IsReached top least p = (p ≤ top) × ((least ≤ p) ⊎ (p ≡ top))

  abbrev pub NoneAt : (user : ℕ) → Bundle → ℕ → Type 0
  NoneAt u b p = NoneUsable (b.user_queue p u)

  pub record IsBest (top least u : ℕ) (b : Bundle) (f : File) : Type 0 where
    pub at : ℕ
    pub reached : IsReached top least at
    pub is_first : IsFirst (b.user_queue at u) f
    pub none_above : (q : ℕ) → at < q → q ≤ top → NoneAt u b q

  -- Up to the priority `top` the choice is the first usable file of the highest priority that has
  -- one; without a choice no priority that is looked at has one.
  unfoldable pub IsChoice : (top least user : ℕ) → Bundle → Option File → Type 0
  IsChoice top least u b none = (p : ℕ) → IsReached top least p → NoneAt u b p
  IsChoice top least u b (some f) = IsBest top least u b f

  IsChoice-lower :
      (top least u : ℕ) (b : Bundle) (o : Option File)
      → NoneAt u b (suc top)
      → least ≤ top
      → IsChoice top least u b o
      → IsChoice (suc top) least u b o
  unfolding IsChoice
  IsChoice-lower top least u b none e l h = λ p r. elim (dec_le p top) [
    | yes q ↦ h p (q, still p q r.1)
    | no q ↦ subst (λ x. NoneAt u b x) (equal p q r.0) e
  ]
    where
      still : (p : ℕ) → p ≤ top → (least ≤ p) ⊎ (p ≡ suc top) → (least ≤ p) ⊎ (p ≡ top)
      still p q (inl c) = inl c
      still p q (inr c) = absurd (omega arith)

      equal : (p : ℕ) → ¬ (p ≤ top) → p ≤ suc top → suc top ≡ p
      equal p q c = omega arith
  IsChoice-lower top least u b (some f) e l h = record {
    at = h.at;
    reached = (omega (arith, h.reached.0), inl (under h.at h.reached.1));
    is_first = h.is_first;
    none_above = λ q k c. elim (dec_le q top) [
      | yes d ↦ h.none_above q k d
      | no d ↦ subst (λ x. NoneAt u b x) (equal q d c) e
    ];
  }
    where
      under : (p : ℕ) → (least ≤ p) ⊎ (p ≡ top) → least ≤ p
      under p (inl c) = c
      under p (inr c) = omega arith

      equal : (p : ℕ) → ¬ (p ≤ top) → p ≤ suc top → suc top ≡ p
      equal p q c = omega arith

  -- Nothing above the top, and the choice there is taken.
  IsChoice-top :
      (top least u : ℕ) (b : Bundle) (f : File)
      → first_usable has_segment (b.user_queue top u) ≡ some f
      → IsChoice top least u b (some f)
  unfolding IsChoice
  IsChoice-top top least u b f e = record {
    at = top;
    reached = (omega arith, inr refl);
    is_first = first_usable-IsFirst (b.user_queue top u) f e;
    none_above = λ q k c. absurd (omega arith);
  }

  IsChoice-none :
      (top least u : ℕ) (b : Bundle)
      → NoneAt u b top
      → (top ≡ 0) ⊎ (top ≤ least)
      → IsChoice top least u b none
  unfolding IsChoice
  IsChoice-none top least u b e l = λ p r. subst (λ x. NoneAt u b x) (only p l r.0 r.1) e
    where
      only : (p : ℕ) → (top ≡ 0) ⊎ (top ≤ least) → p ≤ top → (least ≤ p) ⊎ (p ≡ top) → top ≡ p
      only p l a b = ground arith

  next_at-IsChoice :
      (top least u : ℕ) (b : Bundle) → IsChoice top least u b (next_at has_segment top least u b)
  unfolding next_at
  next_at-IsChoice zero least u b =
      elim (Option-cases (first_usable has_segment (b.user_queue 0 u))) [
        | inl e ↦ rw e (IsChoice-none 0 least u b (first_usable-none _ e) (inl refl))
        | inr (f, e) ↦ rw e (IsChoice-top 0 least u b f e)
      ]
  next_at-IsChoice (suc top) least u b =
      elim (Option-cases (first_usable has_segment (b.user_queue (suc top) u))) [
        | inr (f, e) ↦ rw (next_at, e) (IsChoice-top (suc top) least u b f e)
        | inl e ↦
            rw (next_at, e)
              (if_cases (IsChoice (suc top) least u b) (leb least top) _ none
                (λ l.
                  IsChoice-lower top least u b _ (first_usable-none _ e) (leb→le least top l)
                    (next_at-IsChoice top least u b))
                (λ l.
                  IsChoice-none (suc top) least u b (first_usable-none _ e) (inr (ground arith))))
      ]

  -- getNextQI gives a file with something to download that stands in the list of the user behind
  -- files without, at the highest priority that has one, among the highest priority and those not
  -- below the least one asked for; where it gives none, no file of the user at such a priority has
  -- something to download.
  pub get_next_qi-IsChoice :
      (least u : ℕ) (b : Bundle) → IsChoice 6 least u b (get_next_qi has_segment least u b)
  unfolding get_next_qi
  get_next_qi-IsChoice least u b = next_at-IsChoice 6 least u b
