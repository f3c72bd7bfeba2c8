-- ===== src/Flood.antt =====
-- `FloodCounter` of airdcpp/core/classes/FloodCounter.cpp: how many requests an address has made within
-- the period. The clock is an argument of each call.
use airdcpp_core.Base.{
  ℕ, ◌+◌, ◌-◌, ◌*◌, Bool, true, false, List, [], ◌∷◌, ◌++◌, ltb, leb, ◌==◌, ◌&&◌, if◌then◌else◌,
  min, max,
}
mod Tests
pub mod History
pub mod Rate

-- An entry of the multimap; addresses are only compared.
pub record Entry : Type 0 where
  pub ip : ℕ
  pub tick : ℕ

pub record FloodCounter : Type 0 where
  pub flood_ips : List Entry
  pub flood_period : ℕ

pub data FloodType : Type 0 where
  ok flood_minor flood_severe : FloodType

pub record FloodResult : Type 0 where
  pub flood_type : FloodType
  pub hit_limit : Bool

pub record FloodLimits : Type 0 where
  pub minor_count : ℕ
  pub severe_count : ℕ

-- `std::erase_if` with the test of `prune`.
unfoldable pub erase_expired : ℕ → ℕ → List Entry → List Entry
erase_expired period now [] = []
erase_expired period now (e ∷ es) =
    let rest = erase_expired period now es in
    if ltb (e.tick + period * 1000) now then rest else e ∷ rest

unfoldable pub prune : ℕ → FloodCounter → FloodCounter
unfolding erase_expired
prune now c = record c { flood_ips = erase_expired c.flood_period now c.flood_ips }

unfoldable pub count_of : ℕ → List Entry → ℕ
count_of ip [] = 0
count_of ip (e ∷ es) = (if e.ip == ip then 1 else 0) + count_of ip es

-- The tests on the count.
abbrev pub grade : ℕ → FloodLimits → FloodResult
grade count limits =
    if leb limits.severe_count count
    then record { flood_type = flood_severe; hit_limit = count == limits.severe_count }
    else if leb limits.minor_count count
    then record { flood_type = flood_minor; hit_limit = count == limits.minor_count }
    else record { flood_type = ok; hit_limit = false }

unfoldable pub get_flood_status : ℕ → ℕ → FloodLimits → FloodCounter → FloodCounter × FloodResult
unfolding prune count_of
get_flood_status now ip limits c =
    let c' = prune now c in (c', grade (count_of ip c'.flood_ips) limits)

unfoldable pub add_request : ℕ → ℕ → FloodCounter → FloodCounter
add_request now ip c = record c { flood_ips = c.flood_ips ++ record { ip = ip; tick = now } ∷ [] }

-- Both locks of the call are taken at the same tick.
unfoldable pub handle_request : ℕ → ℕ → FloodLimits → FloodCounter → FloodCounter × FloodResult
unfolding get_flood_status add_request
handle_request now ip limits c =
    let (c', result) = get_flood_status now ip limits c in (add_request now ip c', result)

pub record FloodRate : Type 0 where
  pub attempts : ℕ
  pub period_ms : ℕ

-- The least and the greatest tick of the entries of an address, from those of the first.
unfoldable pub tick_range : ℕ → List Entry → ℕ × ℕ → ℕ × ℕ
tick_range ip [] r = r
tick_range ip (e ∷ es) (lo, hi) =
    tick_range ip es (if e.ip == ip then (min lo e.tick, max hi e.tick) else (lo, hi))

unfoldable pub rate_of : ℕ → List Entry → FloodRate
unfolding count_of tick_range
rate_of ip [] = record { attempts = 0; period_ms = 0 }
rate_of ip (e ∷ es) =
    let rest = rate_of ip es in
    let (lo, hi) = tick_range ip es (e.tick, e.tick) in
    if e.ip == ip then record { attempts = 1 + count_of ip es; period_ms = hi - lo } else rest

unfoldable pub get_rate : ℕ → FloodCounter → FloodRate
unfolding rate_of
get_rate ip c = rate_of ip c.flood_ips
