-- ===== src/Hash/Merkle/Levels.antt =====
-- Doublings and products: the numbers behind the split of airdcpp/hash/value/MerkleTree.h.
use airdcpp_core.Base.{
  ℕ, zero, suc, ◌+◌, ◌-◌, ◌*◌, ◌≤◌, ◌<◌, ◌≡◌, refl, ap, ap₂, ◌∙◌, true, false, ltb, leb, arith,
  Bool-cases, inl, inr, ◌⊎◌, ltb→lt,
}
use native.Mathlib.Nat.{mul-sub}
use airdcpp_core.Hash.Merkle.Binary.{raised_size}
use airdcpp_core.Hash.Merkle.Reference.{raised_size-double}

pub raised_size-mul : (t l b : ℕ) → raised_size t (l * b) ≡ raised_size t l * b
raised_size-mul zero l b = refl
raised_size-mul (suc t) l b = ap (raised_size t) (swap l b) ∙ raised_size-mul t (l * 2) b
  where
    swap : (l b : ℕ) → l * b * 2 ≡ l * 2 * b
    swap l b = grind arith

abbrev pub levels : ℕ → ℕ → ℕ
levels zero t = t
levels (suc k) t = suc (levels k t)

pub raised_size-levels : (k t l : ℕ) → raised_size t (raised_size k l) ≡ raised_size (levels k t) l
raised_size-levels zero t l = refl
raised_size-levels (suc k) t l = raised_size-levels k t (l * 2)

pub never_below : (c : ℕ) → ¬ (c < c)
never_below c h = omega (arith, h)

pub level_grows : (t l : ℕ) → 0 < l → t < raised_size t l
level_grows zero l h = h
level_grows (suc t) l h = omega (arith, raised_size-double t l, level_grows t l h)

-- How many doublings stay below a length.
pub find_level :
    (n l c : ℕ)
    → 0 < l
    → l < c
    → c ≤ l + n
    → (t : ℕ) × ((raised_size t l < c) × (c ≤ raised_size t l * 2))
find_level zero l c p x y = elim (never_below c (omega (arith, x, y))) [ ]
find_level (suc n) l c p x y =
    go (Bool-cases (ltb (l * 2) c)) (find_level n (l * 2) c (omega (arith, p)))
  where
    go :
        (ltb (l * 2) c ≡ true) ⊎ (ltb (l * 2) c ≡ false)
        → (l * 2 < c
            → c ≤ l * 2 + n
            → (t : ℕ) × ((raised_size t (l * 2) < c) × (c ≤ raised_size t (l * 2) * 2)))
        → (t : ℕ) × ((raised_size t l < c) × (c ≤ raised_size t l * 2))
    go (inl e) ih = let (t, r) = ih (ltb→lt (l * 2) c e) (omega (arith, p, y)) in (suc t, r)
    go (inr e) ih = (zero, (x, ground (arith, e)))

pub one_leaf : (a c s : ℕ) → 0 < c → c ≤ s → c ≡ a * s → c ≡ s
one_leaf zero c s p le e = omega (arith, e, p)
one_leaf (suc zero) c s p le e = omega (arith, e)
one_leaf (suc (suc a)) c s p le e = omega (arith, e, p, le, two_more a s)
  where
    two_more : (a s : ℕ) → suc (suc a) * s ≡ s + s + a * s
    two_more a s = grind arith

pub le→leb : (a b : ℕ) → a ≤ b → leb a b ≡ true
le→leb a b h = ground (arith, h)

pub leb_no : (a b : ℕ) → leb a b ≡ false → b < a
leb_no a b h = ground (arith, h)

pub one_times : (n : ℕ) → n ≡ 1 * n
one_times n = omega arith

pub mul_mono : (a b c : ℕ) → a ≤ b → a * c ≤ b * c
mul_mono a b c h = grind (arith, h)

pub times_base : (q s base : ℕ) → q * (s * base) ≡ q * s * base
times_base q s base = grind arith

pub below_mul : (b c base len : ℕ) → b < c → c * base < len + base → b * base < len
below_mul b c base len h k = omega (arith, mul_mono (suc b) c base h, next b base, k)
  where
    next : (b base : ℕ) → suc b * base ≡ b * base + base
    next b base = grind arith

pub sums : (b c r d : ℕ) → c ≡ b + r → b ≡ d → d + r ≡ c
sums b c r d s e = omega (arith, s, e)

pub twice : (a b : ℕ) → a * 2 * b ≡ a * b * 2
twice a b = grind arith

pub sub_mul : (a c s : ℕ) → (a - c) * s ≡ a * s - c * s
sub_mul a c s = turn (a - c) s ∙ mul-sub s a c ∙ ap₂ (λ x y. x - y) (turn s a) (turn s c)
  where
    turn : (x y : ℕ) → x * y ≡ y * x
    turn x y = grind arith

pub long_part :
    (leaf half base len : ℕ) → leaf ≤ half → half * base < len → leb len (leaf * base) ≡ false
long_part leaf half base len h l = ground (arith, mul_mono leaf half base h, l)
