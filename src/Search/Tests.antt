-- ===== src/Search/Tests.antt =====
-- The theorems of the search modules at inputs that meet their hypotheses, and tests of the queue.
use airdcpp_core.Base.{◌≡◌, refl, [], ◌∷◌, ◌==◌, none, some, arith}
use airdcpp_core.Queue.Item.{normal, high, low}
use airdcpp_core.Search.Types.{Search}
use airdcpp_core.Search.Queue.{SearchQueue, add, queue_time}
use airdcpp_core.Search.Queue.Order.{IsValid, add-IsValid}
use airdcpp_core.Search.Queue.Timing.{wait, wait-queue_time}

abbrev first : Search
first = record { token = 1; priority = high; owner = some 7; min_size = none; max_size = none }

abbrev second : Search
second = record { token = 2; priority = low; owner = some 8; min_size = none; max_size = none }

abbrev third : Search
third = record { token = 3; priority = normal; owner = some 7; min_size = none; max_size = none }

abbrev two_waiting : SearchQueue
two_waiting = record { queue = first ∷ second ∷ []; last_tick = 1000; min_interval = 0 }

-- The owner's older search goes, and the new one comes before that of low priority.
replaces_older :
    (add 3000 third two_waiting) ≡ (record two_waiting { queue = third ∷ second ∷ [] }, some 8000)
unfolding add
replaces_older = refl

two_waiting-IsValid : IsValid two_waiting
two_waiting-IsValid = (((omega arith, tt), (tt, tt)), λ o. ground arith)

add-IsValid_example : IsValid (add 3000 third two_waiting).0
add-IsValid_example = add-IsValid 3000 third two_waiting two_waiting-IsValid

wait-queue_time_example :
    wait 2 3000 0 (λ s. s.token == 2) two_waiting ≡ queue_time 3000 (λ s. s.token == 2) two_waiting
wait-queue_time_example = wait-queue_time 2 3000 (λ s. s.token == 2) two_waiting (omega arith)
