-- ===== src/Flood/Rate.antt =====
-- The rate that `FloodCounter` of airdcpp/core/classes/FloodCounter.cpp reports.
use airdcpp_core.Base.{
  ℕ, ◌+◌, ◌-◌, ◌*◌, ◌≤◌, ◌≡◌, refl, Bool, true, false, List, [], ◌∷◌, ltb, ◌==◌, if◌then◌else◌,
  arith, Bool-cases, inl, inr, All, min, max,
}
use airdcpp_core.Flood.{
  Entry, FloodCounter, FloodLimits, erase_expired, prune, count_of, get_flood_status, tick_range,
  rate_of, get_rate,
}

-- The number of attempts is that of the entries of the address.
pub get_rate_attempts :
    (ip : ℕ) (c : FloodCounter) → (get_rate ip c).attempts ≡ count_of ip c.flood_ips
unfolding get_rate
get_rate_attempts ip c = go c.flood_ips
  where
    go : (es : List Entry) → (rate_of ip es).attempts ≡ count_of ip es
    go [] = refl
    go (e ∷ es) = elim (Bool-cases (e.ip == ip)) [
      | inl b ↦ rw (b) refl
      | inr b ↦ rw (b) omega (arith, go es)
    ]

-- Ticks between two bounds.
abbrev pub Between : ℕ → ℕ → List Entry → Type 0
Between a b es = All (λ e. (a ≤ e.tick) × (e.tick ≤ b)) es

-- A range in order between the bounds.
abbrev pub InBounds : ℕ → ℕ → ℕ × ℕ → Type 0
InBounds a b (lo, hi) = (a ≤ lo) × ((lo ≤ hi) × (hi ≤ b))

tick_range-InBounds :
    (ip a b : ℕ) (es : List Entry) (r : ℕ × ℕ)
    → Between a b es
    → InBounds a b r
    → InBounds a b (tick_range ip es r)
unfolding tick_range
tick_range-InBounds ip a b [] r h x = x
tick_range-InBounds ip a b (e ∷ es) (lo, hi) ((u, v), h) (x, (y, z)) =
    tick_range-InBounds ip a b es (if e.ip == ip then (min lo e.tick, max hi e.tick) else (lo, hi))
      h (go (e.ip == ip))
  where
    go : (w : Bool) → InBounds a b (if w then (min lo e.tick, max hi e.tick) else (lo, hi))
    go true = (omega (arith, x, u), (omega (arith, y), omega (arith, z, v)))
    go false = (x, (y, z))

rate_of_within : (ip a b : ℕ) (es : List Entry) → Between a b es → (rate_of ip es).period_ms ≤ b - a
unfolding rate_of
rate_of_within ip a b [] h = omega arith
rate_of_within ip a b (e ∷ es) ((u, v), h) = elim (Bool-cases (e.ip == ip)) [
  | inl w ↦
      rw (w) omega (arith, tick_range-InBounds ip a b es (e.tick, e.tick) h (u, (omega arith, v)))
  | inr w ↦ rw (w) (rate_of_within ip a b es h)
]

erase_expired-Between :
    (period now : ℕ) (es : List Entry)
    → All (λ e. e.tick ≤ now) es
    → Between (now - period * 1000) now (erase_expired period now es)
unfolding erase_expired
erase_expired-Between period now [] h = h
erase_expired-Between period now (e ∷ es) (x, h) =
    elim (Bool-cases (ltb (e.tick + period * 1000) now)) [
      | inl b ↦ rw (b) (erase_expired-Between period now es h)
      | inr b ↦ rw (b) ((ground (arith, b), x), erase_expired-Between period now es h)
    ]

-- Once the status of an address was asked for, the rate of an address is over no more than the
-- period, if no entry is from the future.
pub get_rate-get_flood_status :
    (now ip : ℕ) (limits : FloodLimits) (c : FloodCounter)
    → All (λ e. e.tick ≤ now) c.flood_ips
    → (get_rate ip (get_flood_status now ip limits c).0).period_ms ≤ c.flood_period * 1000
unfolding get_rate get_flood_status prune
get_rate-get_flood_status now ip limits c h = omega (
  arith,
  rate_of_within ip (now - c.flood_period * 1000) now (erase_expired c.flood_period now c.flood_ips)
      (erase_expired-Between c.flood_period now c.flood_ips h),
)
