-- ===== src/Router/Latency.antt =====
-- `LatencyTracker` of backend/internal/router/router.go: recent latencies of each provider, in
-- nanoseconds. Go's `map` gives the empty slice for a provider that it does not hold.
use router_x.Base.{
  ℕ, ◌+◌, ◌-◌, ◌*◌, ◌/◌, ◌≤◌, ◌<◌, ◌≡◌, String, Option, none, some, List, [], ◌∷◌, ◌++◌, arith,
  Assoc, lookup, insert, lookup-insert, str_eq, length, drop, keep_last, keep_last_short, ltb, All,
  if◌then◌else◌, ◌==◌,
}

pub record LatencyTracker : Type 0 where
  pub samples : Assoc (List ℕ)
  pub window : ℕ

-- `NewLatencyTracker`
unfoldable pub new_latency_tracker : ℕ → LatencyTracker
new_latency_tracker window = record { samples = []; window = window }

abbrev or_nil : Option (List ℕ) → List ℕ
or_nil none = []
or_nil (some s) = s

unfoldable pub samples_of : LatencyTracker → String → List ℕ
samples_of lt provider_id = or_nil (lookup provider_id lt.samples)

-- `Record(providerID, d)`
unfoldable pub record_latency : LatencyTracker → String → ℕ → LatencyTracker
unfolding samples_of
record_latency lt provider_id d =
    let s = samples_of lt provider_id ++ d ∷ [] in
    let kept = if ltb lt.window (length s) then drop (length s - lt.window) s else s in
    record lt { samples = insert provider_id kept lt.samples }

unfoldable pub total : List ℕ → ℕ
total [] = 0
total (d ∷ ds) = total ds + d

-- `Average(providerID)`: 0 stands for a provider with no samples.
unfoldable pub average : LatencyTracker → String → ℕ
unfolding samples_of total
average lt provider_id =
    let s = samples_of lt provider_id in if length s == 0 then 0 else total s / length s

-- Recording for one provider keeps its last `window` latencies and changes no other provider's.
pub samples_of-record_latency :
    (lt : LatencyTracker) (p q : String) (d : ℕ)
    → samples_of (record_latency lt p d) q
      ≡ (if str_eq p q then keep_last lt.window (samples_of lt p ++ d ∷ []) else samples_of lt q)
unfolding record_latency
samples_of-record_latency lt p q d = ground (
  arith,
  lookup-insert p q (keep_last lt.window (samples_of lt p ++ d ∷ [])) lt.samples,
  lookup-insert p q (samples_of lt p ++ d ∷ []) lt.samples,
  keep_last_short lt.window (samples_of lt p ++ d ∷ []),
)

total_bounds :
    (lo hi : ℕ) (ds : List ℕ)
    → All (λ d. (lo ≤ d) × (d ≤ hi)) ds
    → (lo * length ds ≤ total ds) × (total ds ≤ hi * length ds)
unfolding total
total_bounds lo hi [] a = omega arith
total_bounds lo hi (d ∷ ds) a = omega (arith, total_bounds lo hi ds a.1)

-- The average of a provider with samples lies between any bounds of its samples.
pub average_bounds :
    (lt : LatencyTracker) (p : String) (lo hi : ℕ)
    → 0 < length (samples_of lt p)
    → All (λ d. (lo ≤ d) × (d ≤ hi)) (samples_of lt p)
    → (lo ≤ average lt p) × (average lt p ≤ hi)
unfolding average
average_bounds lt p lo hi h a =
    let n : ℕ = length (samples_of lt p) in
    let t : ℕ = total (samples_of lt p) in
    let b = total_bounds lo hi (samples_of lt p) a in
    let lower : lo ≤ t / n = grind arith in let upper : t / n ≤ hi = grind arith in ground arith
