-- ===== src/Flood/Tests.antt =====
-- The theorems of the flood counter at inputs that meet their hypotheses.
use airdcpp_core.Base.{◌≡◌, refl, true, List, [], ◌∷◌, arith}
use airdcpp_core.Flood.{
  Entry, FloodCounter, FloodLimits, flood_minor, get_flood_status, grade, handle_request,
}
use airdcpp_core.Flood.History.{handle_all, recent, get_flood_status_history}

abbrev limits : FloodLimits
limits = record { minor_count = 2; severe_count = 5 }

abbrev requests : List Entry
requests =
    record { ip = 1; tick = 100 }
    ∷ record { ip = 1; tick = 20000 }
    ∷ record { ip = 2; tick = 21000 }
    ∷ record { ip = 1; tick = 22000 }
    ∷ []

abbrev fresh : FloodCounter
fresh = record { flood_ips = []; flood_period = 15 }

-- The request of tick 100 is over, the two others of the address reach the limit.
reaches_limit :
    (get_flood_status 23000 1 limits (handle_all limits requests fresh)).1
    ≡ record { flood_type = flood_minor; hit_limit = true }
unfolding get_flood_status handle_request
reaches_limit = refl

get_flood_status_history_example :
    (get_flood_status 23000 1 limits (handle_all limits requests fresh)).1
    ≡ grade (recent 15 23000 1 requests) limits
get_flood_status_history_example =
    get_flood_status_history 15 23000 1 limits limits requests
      (omega arith, (omega arith, (omega arith, (omega arith, tt))))
