-- ===== src/Limiter/Rate.antt =====
-- The rate limit: how many requests of a tenant pass in one second.
use router_x.Base.Int.{pos}
use router_x.Base.{ℕ, zero, suc, ◌+◌, ◌-◌, ◌≡◌, ◌∙◌, ap, String, Bool, true, Result, ok, arith}
use Prim.Native.Nat.{min}
use router_x.Limiter.{Redis, Limiter, allow, qps_key}

-- What is relied on: a server that answers, and counts a key up by one for each call.
pub record Counts {R : Type 0} (redis : Redis R) (count : R → String → ℕ) : Type 0 where
  pub answers :
      (key : String) (seconds : ℕ) (r : R)
      → (redis.incr_expire key seconds r).0 ≡ ok (pos (count r key + 1))
  pub counts :
      (key : String) (seconds : ℕ) (r : R)
      → count (redis.incr_expire key seconds r).1 key ≡ count r key + 1

abbrev passes : Result Bool → ℕ
passes (ok true) = 1
passes _ = 0

module _ {R : Type 0} (redis : Redis R) (l : Limiter) where
  -- How many of `n` requests in the same second pass.
  unfoldable pub passed : String → String → ℕ → R → ℕ
  passed tenant_id now zero r = 0
  passed tenant_id now (suc n) r =
      let (b, r') = allow redis l tenant_id now r in passes b + passed tenant_id now n r'

module _ {R : Type 0} (redis : Redis R) (l : Limiter) (count : R → String → ℕ)
    (c : Counts redis count) where
  passed_from :
      (tenant_id now : String) (n k : ℕ) (r : R)
      → count r (qps_key tenant_id now) ≡ k
      → passed redis l tenant_id now n r ≡ min n (l.qps - k)
  unfolding passed allow
  passed_from tenant_id now zero k r e = omega arith
  passed_from tenant_id now (suc n) k r e =
      let key = qps_key tenant_id now in
      let r' = (redis.incr_expire key 2 r).1 in
      rw (c.answers key 2 r) (
        ground
          (arith, passed_from tenant_id now n (k + 1) r' (c.counts key 2 r ∙ ap (λ m. m + 1) e)))

  -- Of any number of requests of a tenant in one second, from a counter that starts at zero, exactly
  -- the first `qps` pass.
  pub passed-eq-min :
      (tenant_id now : String) (n : ℕ) (r : R)
      → count r (qps_key tenant_id now) ≡ 0
      → passed redis l tenant_id now n r ≡ min n l.qps
  passed-eq-min tenant_id now n r e = omega (arith, passed_from tenant_id now n 0 r e)
