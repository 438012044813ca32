-- ===== src/Router/Circuit.antt =====
-- `CircuitState` of backend/internal/router/router.go: the sliding window of outcomes of one
-- provider and the time until which it is shut off. Times are nanoseconds as numbers; the zero
-- `time.Time` is 0. The float threshold is a fraction: the only one that the code builds is 0.5, and
-- `float64(fail)/float64(n) >= 0.5` agrees with the exact comparison for counts of samples, since
-- rounding is monotone and 0.5 is a float.
pub mod Window
pub mod Recovery
use router_x.Base.{
  ℕ, ◌+◌, ◌-◌, ◌*◌, Bool, true, false, List, [], ◌∷◌, ◌++◌, length, drop, ltb, leb, if◌then◌else◌,
}

pub record Threshold : Type 0 where
  pub num : ℕ
  pub den : ℕ

pub record CircuitState : Type 0 where
  pub samples : List Bool
  pub open_until : ℕ
  pub window_size : ℕ
  pub threshold : Threshold
  pub cooldown : ℕ

abbrev pub second : ℕ
second = 1_000_000_000

-- The circuit that `circuitFor` makes for a provider it has not seen.
abbrev pub fresh : CircuitState
fresh = record {
  samples = [];
  open_until = 0;
  window_size = 20;
  threshold = record { num = 1; den = 2 };
  cooldown = 30 * second;
}

-- `!time.Now().Before(c.OpenUntil)`
unfoldable pub allow : ℕ → CircuitState → Bool
allow now c = if ltb now c.open_until then false else true

unfoldable pub failures : List Bool → ℕ
failures [] = 0
failures (ok ∷ rest) = failures rest + (if ok then 0 else 1)

-- The retained window, from a slice of the samples.
unfoldable pub trim : ℕ → List Bool → List Bool
trim window s = if ltb window (length s) then drop (length s - window) s else s

-- The test at the end of `Record`: at least ten samples, and the failure rate at the threshold.
unfoldable pub should_open : Threshold → List Bool → Bool
should_open t s = if leb 10 (length s) then leb (t.num * length s) (failures s * t.den) else false

-- `Record(ok)` at time `now`.
unfoldable pub record_outcome : ℕ → CircuitState → Bool → CircuitState
unfolding trim should_open
record_outcome now c ok =
    let s = trim c.window_size (c.samples ++ ok ∷ []) in
    if should_open c.threshold s
    then record c { samples = s; open_until = now + c.cooldown }
    else record c { samples = s }
