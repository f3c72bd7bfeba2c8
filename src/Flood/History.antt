-- ===== src/Flood/History.antt =====
-- What `FloodCounter` of airdcpp/core/classes/FloodCounter.cpp answers, over a history of requests.
use airdcpp_core.Base.{
  ℕ, ◌+◌, ◌*◌, ◌≤◌, ◌≡◌, refl, ap, ◌∙◌, List, [], ◌∷◌, ◌++◌, ltb, ◌==◌, if◌then◌else◌, arith,
  Bool-cases, inl, inr, All,
}
use airdcpp_core.Flood.{
  Entry, FloodCounter, FloodLimits, erase_expired, prune, count_of, grade, get_flood_status,
  add_request, handle_request,
}

-- The requests of an address in a history that are no older than the period at a given time.
abbrev pub recent : ℕ → ℕ → ℕ → List Entry → ℕ
recent period now ip [] = 0
recent period now ip (e ∷ es) =
    (if ltb (e.tick + period * 1000) now then 0 else if e.ip == ip then 1 else 0)
    + recent period now ip es

count_of-erase_expired :
    (period now ip : ℕ) (es : List Entry)
    → count_of ip (erase_expired period now es) ≡ recent period now ip es
unfolding erase_expired count_of
count_of-erase_expired period now ip [] = refl
count_of-erase_expired period now ip (e ∷ es) =
    elim (Bool-cases (ltb (e.tick + period * 1000) now)) [
      | inl b ↦ rw (b) omega (arith, count_of-erase_expired period now ip es)
      | inr b ↦ rw (b) omega (arith, count_of-erase_expired period now ip es)
    ]

zero_plus : (w : ℕ) → 0 + w ≡ w
zero_plus w = omega arith

-- What was erased before does not count later.
recent-erase_expired :
    (period before now ip : ℕ) (es : List Entry)
    → before ≤ now
    → recent period now ip (erase_expired period before es) ≡ recent period now ip es
unfolding erase_expired
recent-erase_expired period before now ip [] le = refl
recent-erase_expired period before now ip (e ∷ es) le =
    elim (Bool-cases (ltb (e.tick + period * 1000) before)) [
      | inl b ↦ rw (b) ground (arith, b, le, recent-erase_expired period before now ip es le)
      | inr b ↦ rw (b) omega (arith, recent-erase_expired period before now ip es le)
    ]

recent-append :
    (period now ip : ℕ) (xs ys : List Entry)
    → recent period now ip (xs ++ ys) ≡ recent period now ip xs + recent period now ip ys
recent-append period now ip [] ys = omega arith
recent-append period now ip (x ∷ xs) ys = omega (arith, recent-append period now ip xs ys)

-- The requests handled one after the other.
abbrev pub handle_all : FloodLimits → List Entry → FloodCounter → FloodCounter
handle_all limits [] c = c
handle_all limits (e ∷ es) c = handle_all limits es (handle_request e.tick e.ip limits c).0

handle_all-period :
    (limits : FloodLimits) (es : List Entry) (c : FloodCounter)
    → (handle_all limits es c).flood_period ≡ c.flood_period
handle_all-period limits [] c = refl
handle_all-period limits (e ∷ es) c =
    handle_all-period limits es _ ∙ unfold handle_request get_flood_status add_request prune in refl

handle_all-recent :
    (limits : FloodLimits) (now ip : ℕ) (es : List Entry) (c : FloodCounter)
    → All (λ e. e.tick ≤ now) es
    → recent c.flood_period now ip (handle_all limits es c).flood_ips
      ≡ recent c.flood_period now ip c.flood_ips + recent c.flood_period now ip es
unfolding handle_request get_flood_status add_request prune
handle_all-recent limits now ip [] c h = omega arith
handle_all-recent limits now ip (e ∷ es) c (x, h) =
    let kept = erase_expired c.flood_period e.tick c.flood_ips in
    omega (
      arith,
      handle_all-recent limits now ip es (handle_request e.tick e.ip limits c).0 h,
      recent-append c.flood_period now ip kept (e ∷ []),
      recent-erase_expired c.flood_period e.tick now ip c.flood_ips x,
    )

-- Over any requests handled before and no later than now, getFloodStatus grades exactly the number
-- of the requests of the address within the period: no entry is erased that would count.
pub get_flood_status_history :
    (period now ip : ℕ) (limits limits' : FloodLimits) (es : List Entry)
    → All (λ e. e.tick ≤ now) es
    → (get_flood_status now ip limits
        (handle_all limits' es (record { flood_ips = []; flood_period = period }))).1
      ≡ grade (recent period now ip es) limits
unfolding get_flood_status prune
get_flood_status_history period now ip limits limits' es h =
    let c0 : FloodCounter = record { flood_ips = []; flood_period = period } in
    let c = handle_all limits' es c0 in
    ap (λ k. grade k limits)
      (count_of-erase_expired c.flood_period now ip c.flood_ips
        ∙ ap (λ k. recent k now ip c.flood_ips) (handle_all-period limits' es c0)
        ∙ handle_all-recent limits' now ip es c0 h
        ∙ zero_plus (recent period now ip es))
