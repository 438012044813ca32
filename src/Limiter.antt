-- ===== src/Limiter.antt =====
-- backend/internal/limiter/limiter.go over a Redis server, which is the parameter `Redis`: a state
-- `R` and the commands that the code sends. The formatted second of `time.Now()` is an argument.
pub mod Rate
pub mod Slots
pub mod Refinement
use Prim.Native.String.{◌++◌}
use router_x.Base.Int.{ℤ, pos, ltb_ℤ}
use router_x.Base.{ℕ, zero, suc, String, Bool, true, false, Result, ok, err, if◌then◌else◌}

-- The commands as the code sends them: with the context of the request, of which the state is to say
-- whether it is done, as after a client that hangs up. Then a command may not be sent.
pub record Redis (R : Type 0) : Type 0 where
  -- `INCR key`
  pub incr : String → R → Result ℤ × R
  -- `DECR key`, the result dropped
  pub decr : String → R → R
  -- `EXPIRE key seconds`, the result dropped
  pub expire : String → ℕ → R → R
  -- `MULTI; INCR key; EXPIRE key seconds; EXEC`
  pub incr_expire : String → ℕ → R → Result ℤ × R

pub record Limiter : Type 0 where
  pub qps : ℕ
  pub conc : ℕ

abbrev pub qps_key : String → String → String
qps_key tenant_id now = ("qps:" ++ tenant_id) ++ (":" ++ now)

abbrev pub conc_key : String → String
conc_key tenant_id = "conc:" ++ tenant_id

-- The result of a command that counts, against a limit: `int(val) > limit` refuses.
abbrev pub within : ℕ → Result ℤ → Result Bool
within limit (err e) = err e
within limit (ok v) = ok (if ltb_ℤ (pos limit) v then false else true)

abbrev pub is_one : ℤ → Bool
is_one (pos (suc zero)) = true
is_one v = false

module _ {R : Type 0} (redis : Redis R) (l : Limiter) where
  -- `Allow`, in the second `now`
  unfoldable pub allow : String → String → R → Result Bool × R
  allow tenant_id now r =
      let (v, r') = redis.incr_expire (qps_key tenant_id now) 2 r in (within l.qps v, r')

  abbrev pub settle : String → Result ℤ × R → Result Bool × R
  settle key (err e, r) = (err e, r)
  settle key (ok v, r) =
      let r' = if is_one v then redis.expire key 60 r else r in
      if ltb_ℤ (pos l.conc) v then (ok false, redis.decr key r') else (ok true, r')

  -- `Acquire`
  unfoldable pub acquire : String → R → Result Bool × R
  acquire tenant_id r = settle (conc_key tenant_id) (redis.incr (conc_key tenant_id) r)

  -- `Release`
  unfoldable pub release : String → R → R
  release tenant_id r = redis.decr (conc_key tenant_id) r
