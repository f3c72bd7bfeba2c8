-- ===== src/Queue/Parts/Needed.antt =====
-- When `isNeededPart` says that a source has nothing new.
use airdcpp_core.Base.{
  ℕ, ◌+◌, ◌*◌, ◌≤◌, ◌<◌, ◌≡◌, ◌↔◌, ◌⊎◌, inl, inr, refl, true, false, List, [], ◌∷◌, leb, Bool-cases,
  arith,
}
use airdcpp_core.Queue.Segment.{Segment, end_of}
use airdcpp_core.Queue.Finished.Merge.{Gapped, Gapped-le}
use airdcpp_core.Queue.Parts.{skip_before, holds, is_needed_part}

-- The bytes from `low` to `high` lie in one downloaded segment.
abbrev pub Held : ℕ → ℕ → List Segment → Type 0
Held low high [] = ⊥
Held low high (d ∷ ds) = ((d.start ≤ low) × (high ≤ end_of d)) ⊎ Held low high ds

-- Ranges of indices in order, none empty.
abbrev pub IsOrdered : ℕ → List (ℕ × ℕ) → Type 0
IsOrdered from [] = Unit {0}
IsOrdered from ((low, high) ∷ ps) = (from ≤ low) × (low < high) × IsOrdered high ps

abbrev pub AllHeld : ℕ → List Segment → List (ℕ × ℕ) → Type 0
AllHeld block done [] = Unit {0}
AllHeld block done ((low, high) ∷ ps) =
    Held (low * block) (high * block) done × AllHeld block done ps

-- A range behind `pos` is held by the segments that end behind `pos`.
skip_before-Held :
    (pos low high : ℕ) (ds : List Segment)
    → pos ≤ low
    → low < high
    → Held low high ds ↔ Held low high (skip_before pos ds)
unfolding skip_before
skip_before-Held pos low high [] h k = (λ x. x, λ x. x)
skip_before-Held pos low high (d ∷ ds) h k = elim (Bool-cases (leb (end_of d) pos)) [
  | inl e ↦
      let (there, back) = skip_before-Held pos low high ds h k in
      rw e (
        (λ (x : ((d.start ≤ low) × (high ≤ end_of d)) ⊎ Held low high ds).
            there (elim x [ inl y ↦ absurd (ground arith) | inr y ↦ y ])),
        λ x. inr (back x),
      )
  | inr e ↦ rw e (λ x. x, λ x. x)
]

skip_before-Gapped :
    (pos lo : ℕ) (ds : List Segment) → Gapped lo ds → Gapped lo (skip_before pos ds)
unfolding skip_before
skip_before-Gapped pos lo [] g = tt
skip_before-Gapped pos lo (d ∷ ds) g =
    ground (arith, skip_before-Gapped pos lo ds (Gapped-le ds (omega arith) g.2))

-- Segments that start behind `low` do not hold it.
not-Held-Gapped : (low high g : ℕ) (ds : List Segment) → Gapped g ds → low < g → ¬ Held low high ds
not-Held-Gapped low high g [] gap h x = x
not-Held-Gapped low high g (d ∷ ds) gap h (inl x) = absurd (omega arith)
not-Held-Gapped low high g (d ∷ ds) gap h (inr x) =
    not-Held-Gapped low high (end_of d + 1) ds gap.2 (omega arith) x

holds-Held :
    (low high lo : ℕ) (ds : List Segment)
    → Gapped lo ds
    → low < high
    → (holds (skip_before low ds) low high ≡ true) ↔ Held low high ds
unfolding skip_before
holds-Held low high lo [] g h = (λ x. cc, λ x. absurd x)
holds-Held low high lo (d ∷ ds) g h = elim (Bool-cases (leb (end_of d) low)) [
  | inl e ↦
      let (there, back) = holds-Held low high (end_of d + 1) ds g.2 h in
      rw e (
        λ x. inr (there x),
        λ (x : ((d.start ≤ low) × (high ≤ end_of d)) ⊎ Held low high ds).
            back (elim x [ inl y ↦ absurd (ground arith) | inr y ↦ y ]),
      )
  | inr e ↦ rw e (
    λ x. inl (ground arith, ground arith),
    λ (x : ((d.start ≤ low) × (high ≤ end_of d)) ⊎ Held low high ds). elim x [
      | inl y ↦ ground arith
      | inr y ↦ absurd (not-Held-Gapped low high (end_of d + 1) ds g.2 (ground arith) y)
    ],
  )
]

mul-lt : (m n b : ℕ) → 0 < b → m < n → m * b < n * b
mul-lt m n b h k = grind arith

mul-le : (m n b : ℕ) → m ≤ n → m * b ≤ n * b
mul-le m n b k = grind arith

AllHeld-skip :
    (block pos from : ℕ) (ps : List (ℕ × ℕ)) (ds : List Segment)
    → 0 < block
    → pos ≤ from * block
    → IsOrdered from ps
    → AllHeld block ds ps ↔ AllHeld block (skip_before pos ds) ps
AllHeld-skip block pos from [] ds b h o = (λ x. x, λ x. x)
AllHeld-skip block pos from ((low, high) ∷ ps) ds b h o =
    let (there, back) =
      skip_before-Held pos (low * block) (high * block) ds
        (omega (arith, mul-le from low block o.0)) (mul-lt low high block b o.1) in
    let (there', back') =
      AllHeld-skip block pos high ps ds b
        (omega (arith, mul-le from low block o.0, mul-lt low high block b o.1)) o.2 in
    (λ x. (there x.0, there' x.1), λ x. (back x.0, back' x.1))

-- For a set with gaps and parts in order, isNeededPart is false exactly if every part lies in a
-- downloaded segment, though the iterator is never set back.
pub is_needed_part-AllHeld :
    (block lo from : ℕ) (ps : List (ℕ × ℕ)) (done : List Segment)
    → 0 < block
    → Gapped lo done
    → IsOrdered from ps
    → (is_needed_part block ps done ≡ false) ↔ AllHeld block done ps
unfolding is_needed_part
is_needed_part-AllHeld block lo from [] done b g o = (λ x. tt, λ x. refl)
is_needed_part-AllHeld block lo from ((low, high) ∷ ps) done b g o =
    let later = skip_before (low * block) done in
    let (first, first') =
      holds-Held (low * block) (high * block) lo done g (mul-lt low high block b o.1) in
    let (rest, rest') =
      is_needed_part-AllHeld block lo high ps later b (skip_before-Gapped (low * block) lo done g)
        o.2 in
    let (skip, skip') =
      AllHeld-skip block (low * block) high ps done b (omega (arith, mul-lt low high block b o.1))
        o.2 in
    (
      λ x. (first (ground arith), skip' (rest (ground arith))),
      λ x. rw (first' x.0) (rest' (skip x.1)),
    )
