-- ===== src/Text/StringSearch/Shift.antt =====
-- What the table of shifts holds.
use airdcpp_core.Base.{
  ℕ, zero, suc, ◌+◌, ◌-◌, ◌≤◌, ◌<◌, ◌≡◌, refl, [], ◌∷◌, arith, length, take, drop, take-length, All,
  Bytes,
}
use airdcpp_core.Text.Utf8.{byte_at}
use airdcpp_core.Text.StringSearch.{Pattern, u16, fill_delta1, init_delta1}

-- A table that is low enough stays so.
fill_delta1_le :
    (m x i : ℕ) (p : Bytes) (delta : ℕ → ℕ) (c : ℕ)
    → delta c ≤ m
    → x - i ≤ m
    → fill_delta1 x i p delta c ≤ m
unfolding fill_delta1
fill_delta1_le m x i [] delta c h k = h
fill_delta1_le m x i (d ∷ p) delta c h k =
    fill_delta1_le m x (i + 1) p _ c (ground arith) (omega arith)

fill_delta1_positive :
    (x i : ℕ) (p : Bytes) (delta : ℕ → ℕ) (c : ℕ)
    → x < 65536
    → i + length p ≤ x
    → 0 < delta c
    → 0 < fill_delta1 x i p delta c
unfolding fill_delta1
fill_delta1_positive x i [] delta c h k l = l
fill_delta1_positive x i (d ∷ p) delta c h k l =
    fill_delta1_positive x (i + 1) p _ c h (omega arith) (ground arith)

-- The shift of a byte is at most the distance of any of its places from the end.
fill_delta1_place :
    (x i j : ℕ) (p : Bytes) (delta : ℕ → ℕ)
    → x < 65536
    → j < length p
    → fill_delta1 x i p delta (byte_at (drop j p)) ≤ x - (i + j)
unfolding fill_delta1
fill_delta1_place x i j [] delta h k = absurd (omega arith)
fill_delta1_place x i zero (d ∷ p) delta h k =
    fill_delta1_le (x - (i + 0)) x (i + 1) p _ d (ground arith) (omega arith)
fill_delta1_place x i (suc j) (d ∷ p) delta h k =
    omega (arith, fill_delta1_place x (i + 1) j p _ h (omega arith))

-- A pattern that can be searched for: neither empty nor as long as 65,535 bytes, without a zero
-- byte, of the length that was noted, and with its own table.
pub record IsPattern (p : Pattern) : Type 0 where
  pub noted : p.plen ≡ length p.pattern
  pub some_byte : 0 < length p.pattern
  pub short : length p.pattern < 65535
  pub no_zero : All (λ c. 0 < c) p.pattern
  pub own_table : p.delta1 ≡ init_delta1 p.pattern

take_all : (n : ℕ) (p : Bytes) → n ≡ length p → take n p ≡ p
take_all n p e = rw e (take-length p)

init_delta1-fill :
    (p : Bytes) → length p < 65535 → init_delta1 p ≡ fill_delta1 (length p) 0 p (λ b. length p + 1)
unfolding init_delta1
init_delta1-fill p h =
    rw (take_all (u16 (u16 (length p + 1) + 65535)) p (omega arith))
      (go (u16 (u16 (length p + 1) + 65535)) (u16 (length p + 1)) (omega arith) (omega arith))
  where
    go :
        (y x : ℕ)
        → y ≡ length p
        → x ≡ length p + 1
        → fill_delta1 y 0 p (λ b. x) ≡ fill_delta1 (length p) 0 p (λ b. length p + 1)
    go y x e f = rw (e, f) refl

pub delta1_positive : (p : Pattern) (c : ℕ) → IsPattern p → 0 < p.delta1 c
delta1_positive p c h =
    rw (h.own_table, init_delta1-fill p.pattern h.short)
      (fill_delta1_positive (length p.pattern) 0 p.pattern _ c (omega (arith, h.short))
        (omega arith) (omega arith))

pub delta1_le : (p : Pattern) (c : ℕ) → IsPattern p → p.delta1 c ≤ p.plen + 1
delta1_le p c h =
    rw (h.own_table, h.noted, init_delta1-fill p.pattern h.short)
      (fill_delta1_le (length p.pattern + 1) (length p.pattern) 0 p.pattern _ c (omega arith)
        (omega arith))

pub delta1_place :
    (p : Pattern) (j : ℕ)
    → IsPattern p
    → j < p.plen
    → p.delta1 (byte_at (drop j p.pattern)) ≤ p.plen - j
delta1_place p j h k =
    rw (h.own_table, h.noted, init_delta1-fill p.pattern h.short)
      (omega (
        arith,
        fill_delta1_place (length p.pattern) 0 j p.pattern (λ b. length p.pattern + 1)
            (omega (arith, h.short)) (omega (arith, h.noted)),
      ))
