-- ===== src/Search/Query/Ruled.antt =====
-- Which extensions hasExt leaves where both lists are in ascending order.
use airdcpp_core.Base.{
  ◌≡◌, refl, sym, ap, ap₂, subst, ◌∙◌, ◌⊎◌, inl, inr, Bool, true, false, not, ◌&&◌, ◌||◌, List, [],
  ◌∷◌, arith, if◌then◌else◌, Bool-cases, any, if_both, if_cases, All, Bytes,
}
use airdcpp_core.Search.Query.Extensions.{less_bytes, drop_below, set_difference, same_bytes}

-- Each text comes before those behind it.
unfoldable pub Ascending : List Bytes → Type 0
Ascending [] = Unit
Ascending (x ∷ xs) = All (λ y. less_bytes x y ≡ true) xs × Ascending xs

abbrev pub is_in : Bytes → List Bytes → Bool
is_in e ys = any (λ y. same_bytes e y) ys

same_bytes-eq : (a b : Bytes) → same_bytes a b ≡ true → a ≡ b
unfolding same_bytes
same_bytes-eq [] [] h = refl
same_bytes-eq (c ∷ a) [] h = absurd (ground arith)
same_bytes-eq [] (d ∷ b) h = absurd (ground arith)
same_bytes-eq (c ∷ a) (d ∷ b) h =
    let tails : same_bytes a b ≡ true = ground arith in
    ap₂ (λ x xs. x ∷ xs) (ground arith) (same_bytes-eq a b tails)

same_bytes_refl : (a : Bytes) → same_bytes a a ≡ true
unfolding same_bytes
same_bytes_refl [] = refl
same_bytes_refl (c ∷ a) = ground (arith, same_bytes_refl a)

less_bytes_irrefl : (a : Bytes) → less_bytes a a ≡ false
unfolding less_bytes
less_bytes_irrefl [] = refl
less_bytes_irrefl (c ∷ a) = ground (arith, less_bytes_irrefl a)

less_bytes_asym : (a b : Bytes) → less_bytes a b ≡ true → less_bytes b a ≡ false
unfolding less_bytes
less_bytes_asym a [] h = absurd (ground arith)
less_bytes_asym [] (d ∷ b) h = refl
less_bytes_asym (c ∷ a) (d ∷ b) h = ground (arith, less_bytes_asym a b)

less_bytes_total :
    (a b : Bytes) → less_bytes a b ≡ false → less_bytes b a ≡ false → same_bytes a b ≡ true
unfolding less_bytes same_bytes
less_bytes_total [] [] h k = refl
less_bytes_total (c ∷ a) [] h k = absurd (ground arith)
less_bytes_total [] (d ∷ b) h k = absurd (ground arith)
less_bytes_total (c ∷ a) (d ∷ b) h k = ground (arith, less_bytes_total a b)

-- What comes before or behind is another text.
less-differs : (a b : Bytes) → less_bytes a b ≡ true → same_bytes a b ≡ false
less-differs a b h = elim (Bool-cases (same_bytes a b)) [
  | inr e ↦ e
  | inl e ↦
      absurd (off (sym (less_bytes_irrefl a) ∙ ap (λ x. less_bytes a x) (same_bytes-eq a b e) ∙ h))
]
  where
    off : ¬ (false ≡ true)
    off e = cc

more-differs : (a b : Bytes) → less_bytes b a ≡ true → same_bytes a b ≡ false
more-differs a b h = elim (Bool-cases (same_bytes a b)) [
  | inr e ↦ e
  | inl e ↦
      absurd (off (sym (less_bytes_irrefl a) ∙ ap (λ x. less_bytes x a) (same_bytes-eq a b e) ∙ h))
]
  where
    off : ¬ (false ≡ true)
    off e = cc

-- What drop_below drops is before `x`, and so no text that is not.
is_in-drop_below :
    (e x : Bytes) (ys : List Bytes)
    → less_bytes e x ≡ false
    → is_in e (drop_below x ys) ≡ is_in e ys
unfolding drop_below
is_in-drop_below e x [] h = refl
is_in-drop_below e x (y ∷ ys) h = elim (Bool-cases (less_bytes y x)) [
  | inr k ↦ rw k refl
  | inl k ↦ rw k (is_in-drop_below e x ys h ∙ sym (not_first (Bool-cases (same_bytes e y)) k))
]
  where
    off : ¬ (false ≡ true)
    off e = cc

    not_first :
        (same_bytes e y ≡ true) ⊎ (same_bytes e y ≡ false)
        → less_bytes y x ≡ true
        → (same_bytes e y || is_in e ys) ≡ is_in e ys
    not_first (inr d) k = rw d refl
    not_first (inl d) k = absurd (off (sym h ∙ ap (λ z. less_bytes z x) (same_bytes-eq e y d) ∙ k))

drop_below-Ascending : (x : Bytes) (ys : List Bytes) → Ascending ys → Ascending (drop_below x ys)
unfolding drop_below Ascending
drop_below-Ascending x [] h = tt
drop_below-Ascending x (y ∷ ys) h =
    if_both Ascending (less_bytes y x) (drop_below x ys) (y ∷ ys) (drop_below-Ascending x ys h.1) h

-- The first that is left is not before `x`.
abbrev IsFrom : Bytes → List Bytes → Type 0
IsFrom x [] = Unit
IsFrom x (y ∷ ys) = less_bytes y x ≡ false

drop_below-IsFrom : (x : Bytes) (ys : List Bytes) → IsFrom x (drop_below x ys)
unfolding drop_below
drop_below-IsFrom x [] = tt
drop_below-IsFrom x (y ∷ ys) =
    if_cases (IsFrom x) (less_bytes y x) (drop_below x ys) (y ∷ ys) (λ e. drop_below-IsFrom x ys)
      (λ e. e)

not_in_behind :
    (x y : Bytes) (zs : List Bytes)
    → less_bytes x y ≡ true
    → All (λ z. less_bytes y z ≡ true) zs
    → is_in x zs ≡ false
not_in_behind x y [] h k = refl
not_in_behind x y (z ∷ zs) h k =
    ground (arith, other (Bool-cases (same_bytes x z)), not_in_behind x y zs h k.1)
  where
    off : ¬ (false ≡ true)
    off e = cc

    other : (same_bytes x z ≡ true) ⊎ (same_bytes x z ≡ false) → same_bytes x z ≡ false
    other (inr d) = d
    other (inl d) =
        absurd
          (off (sym (less_bytes_asym x y h) ∙ ap (λ w. less_bytes y w) (same_bytes-eq x z d) ∙ k.0))

-- Two lists rule out the same of some texts.
any_ruled :
    (p : Bytes → Bool) (rs bs xs : List Bytes)
    → All (λ e. is_in e rs ≡ is_in e bs) xs
    → any (λ e. p e && not (is_in e rs)) xs ≡ any (λ e. p e && not (is_in e bs)) xs
any_ruled p rs bs [] h = refl
any_ruled p rs bs (x ∷ xs) h =
    rw h.0 (ap (λ b. (p x && not (is_in x bs)) || b) (any_ruled p rs bs xs h.1))

none_ruled : (p : Bytes → Bool) (xs : List Bytes) → any p xs ≡ any (λ e. p e && not (is_in e [])) xs
none_ruled p [] = refl
none_ruled p (x ∷ xs) = rw (← none_ruled p xs) (same (p x) (any p xs))
  where
    same : (a b : Bool) → (a || b) ≡ ((a && true) || b)
    same a b = ground arith

-- The texts behind `x` are not `y`, which is `x`.
not_front :
    (x y : Bytes) (zs xs : List Bytes)
    → x ≡ y
    → All (λ e. less_bytes x e ≡ true) xs
    → All (λ e. is_in e zs ≡ is_in e (y ∷ zs)) xs
not_front x y zs [] s h = tt
not_front x y zs (e ∷ xs) s h = (
  rw (more-differs e y (subst (λ w. less_bytes w e ≡ true) s h.0)) refl,
  not_front x y zs xs s h.1,
)

-- One text against what is left of those that are ruled out.
any-step :
    (p : Bytes → Bool) (x : Bytes) (xs l : List Bytes)
    → ((zs : List Bytes)
        → Ascending zs
        → any p (set_difference xs zs) ≡ any (λ e. p e && not (is_in e zs)) xs)
    → All (λ e. less_bytes x e ≡ true) xs
    → IsFrom x l
    → Ascending l
    → any p (elim l [
      | [] ↦ x ∷ xs
      | y ∷ zs ↦ if less_bytes x y then x ∷ set_difference xs (y ∷ zs) else set_difference xs zs
    ])
      ≡ any (λ e. p e && not (is_in e l)) (x ∷ xs)
unfolding Ascending
any-step p x xs [] ih hx f h = none_ruled p (x ∷ xs)
any-step p x xs (y ∷ zs) ih hx f h = elim (Bool-cases (less_bytes x y)) [
  | inl e ↦ rw (e, less-differs x y e, not_in_behind x y zs e h.0) (kept (p x) _ _ (ih (y ∷ zs) h))
  | inr e ↦
      let s = less_bytes_total x y e f in
      rw (e, s)
        (ih zs h.1
          ∙ any_ruled p zs (y ∷ zs) xs (not_front x y zs xs (same_bytes-eq x y s) hx)
          ∙ gone (p x) _)
]
  where
    kept : (a b c : Bool) → b ≡ c → (a || b) ≡ ((a && true) || c)
    kept a b c h = ground arith

    gone : (a b : Bool) → b ≡ ((a && false) || b)
    gone a b = ground arith

same_behind :
    (x : Bytes) (ys xs : List Bytes)
    → All (λ e. less_bytes x e ≡ true) xs
    → All (λ e. is_in e (drop_below x ys) ≡ is_in e ys) xs
same_behind x ys [] h = tt
same_behind x ys (e ∷ xs) h =
    (is_in-drop_below e x ys (less_bytes_asym x e h.0), same_behind x ys xs h.1)

-- Of lists in ascending order the difference has exactly the texts that the second has not.
pub any-set_difference :
    (p : Bytes → Bool) (xs ys : List Bytes)
    → Ascending xs
    → Ascending ys
    → any p (set_difference xs ys) ≡ any (λ e. p e && not (is_in e ys)) xs
unfolding set_difference Ascending
any-set_difference p [] ys h k = refl
any-set_difference p (x ∷ xs) ys h k =
    any-step p x xs (drop_below x ys) (λ zs z. any-set_difference p xs zs h.1 z) h.0
      (drop_below-IsFrom x ys) (drop_below-Ascending x ys k)
    ∙ any_ruled p (drop_below x ys) ys (x ∷ xs)
        (is_in-drop_below x x ys (less_bytes_irrefl x), same_behind x ys xs h.0)
