-- ===== src/Tests/Circuits.antt =====
-- The theorems on circuits, latencies and comparators, at concrete histories.
use router_x.Base.{
  ℕ, ◌+◌, ◌<◌, String, Bool, true, false, List, [], ◌∷◌, ◌++◌, ◌≡◌, refl, arith, length, replicate,
  keep_last, leb, insert, lookup,
}
use router_x.Router.Types.{RouterState, circuit_of}
use router_x.Router.Circuit.{fresh, allow}
use router_x.Router.Circuit.Window.{run, outcomes, IsFailing, run-fresh_allow}
use router_x.Router.Circuit.Recovery.{outage, recovery_is_slow}
use router_x.Router.Latency.{
  LatencyTracker, new_latency_tracker, samples_of, record_latency, average,
}
use router_x.Router.Sorting.{IsStrictWeak, less_default}
use router_x.Router.Sorting.Health.{less_default_not_weak}
use router_x.Tests.Data.{provider}

abbrev history : List (ℕ × Bool)
history = (10, true) ∷ (20, false) ∷ []

run-fresh_allow_example :
    let recent = keep_last 20 (outcomes (history ++ (30, false) ∷ [])) in
    (IsFailing fresh.threshold recent
      → allow 40 (run fresh (history ++ (30, false) ∷ [])) ≡ leb (30 + 30_000_000_000) 40)
    × (¬ IsFailing fresh.threshold recent
        → allow 40 (run fresh (history ++ (30, false) ∷ [])) ≡ allow 40 (run fresh history))
run-fresh_allow_example = run-fresh_allow history 30 40 false

abbrev outage_times : List ℕ
outage_times = replicate 20 5

abbrev up : List ℕ
up = 50 ∷ []

recovery_is_slow_example :
    let before = outage history outage_times up in
    let after = run fresh (outage history outage_times (up ++ 60 ∷ [])) in
    (length up < 10 → after.open_until ≡ 60 + 30_000_000_000)
    × (length up ≡ 10 → after.open_until ≡ (run fresh before).open_until)
recovery_is_slow_example = recovery_is_slow history outage_times up 60 refl

-- Two calls of "a", one of "b", none of "c".
abbrev known : LatencyTracker
known = record_latency (record_latency (record_latency (new_latency_tracker 50) "a" 4) "a" 6) "b" 9

abbrev measured : RouterState
measured = record { circuits = []; latency = known }

a_is_faster :
    (0 < average known "a") × (average known "a" < average known "b") × (average known "c" ≡ 0)
unfolding average record_latency samples_of insert lookup new_latency_tracker
a_is_faster = (omega arith, omega arith, refl)

same_health : (p q : String) → allow 0 (circuit_of measured p) ≡ allow 0 (circuit_of measured q)
unfolding allow circuit_of lookup
same_health p q = refl

less_default_not_weak_example : ¬ IsStrictWeak (less_default 0 measured)
less_default_not_weak_example =
    less_default_not_weak 0 measured (provider "a") (provider "c") (provider "b")
      (same_health "a" "c") (same_health "c" "b") a_is_faster.0 a_is_faster.1 a_is_faster.2
