-- ===== src/Store/Stats/Recent.antt =====
-- The buckets of `recent` in `GetTenantRequestSummary`.
use router_x.Base.Float.{Float64}
use router_x.Base.{
  ℕ, zero, suc, ◌+◌, ◌-◌, ◌*◌, ◌/◌, ◌%◌, ◌≤◌, ◌==◌, ◌≡◌, refl, List, [], ◌∷◌, All, arith, map, ap,
  String, Result, ok, err, IfOk,
}
use router_x.Store.Db.{Db, find_row}
use router_x.Store.Stats.{
  TenantDayUsage, TenantRequestSummary, Orders, nanos, bucket_of, one_day, found_or_empty,
  fill_recent, and_then, get_tenant_request_summary,
}

-- Buckets that follow each other from one to the next.
unfoldable pub buckets_from : ℕ → ℕ → List ℕ
buckets_from first zero = []
buckets_from first (suc n) = first ∷ buckets_from (first + 10_800) n

seconds-add : (t i : ℕ) → (t + i * (10_800 * nanos)) / nanos ≡ t / nanos + i * 10_800
seconds-add t i = omega arith

floor-add : (s i : ℕ) → s + i * 10_800 - (s + i * 10_800) % 10_800 ≡ s - s % 10_800 + i * 10_800
floor-add s i = omega arith

bucket_of-add : (t i : ℕ) → bucket_of (t + i * (10_800 * nanos)) ≡ bucket_of t + i * 10_800
bucket_of-add t i = rw (seconds-add t i) (floor-add (t / nanos) i)

buckets_from-below :
    (first n top : ℕ)
    → first + n * 10_800 ≤ top
    → All (λ k. k + 10_800 ≤ top) (buckets_from first n)
unfolding buckets_from
buckets_from-below first zero top h = tt
buckets_from-below first (suc n) top h =
    (omega arith, buckets_from-below (first + 10_800) n top (omega arith))

-- The days of a series.
unfoldable pub days_of : {F : Type 0} → List (TenantDayUsage F) → List ℕ
days_of recent = map (λ (d : TenantDayUsage _). d.day) recent

-- The eight buckets that end where the bucket of the present begins.
abbrev pub IsRecent : ℕ → List ℕ → Type 0
IsRecent now days =
    (days ≡ buckets_from (bucket_of now - 86_400) 8) × All (λ k. k + 10_800 ≤ bucket_of now) days

module _ {F : Type 0} ⦃fl : Float64 F⦄ (sum : F → F → F) where
  found-day :
      (day : ℕ) (rows : List (TenantDayUsage F))
      → (found_or_empty sum day (find_row (λ d. d.day == day) rows)).day ≡ day
  unfolding find_row
  found-day day [] = refl
  found-day day (d ∷ ds) = ground (arith, found-day day ds)

  fill_recent-days :
      (rows : List (TenantDayUsage F)) (start i n : ℕ)
      → map (λ (d : TenantDayUsage F). d.day) (fill_recent sum rows start i n)
        ≡ buckets_from (bucket_of start + i * 10_800) n
  unfolding fill_recent buckets_from
  fill_recent-days rows start i zero = refl
  fill_recent-days rows start i (suc n) =
      let key = bucket_of (start + i * (10_800 * nanos)) in
      rw (found-day key rows, bucket_of-add start i, fill_recent-days rows start (i + 1) n)
        (ap (λ k. (bucket_of start + i * 10_800) ∷ buckets_from k n) (omega arith))

  and_then-IfOk :
      {A B : Type 0}
      → (P : B → Type 0) (x : Result A × Db F) (next : A → Db F → Result B × Db F)
      → ((a : A) (db : Db F) → IfOk P (next a db).0)
      → IfOk P (and_then x next).0
  unfolding and_then
  and_then-IfOk P (ok a, db) next h = h a db
  and_then-IfOk P (err e, db) next h = tt

  filled-IsRecent :
      (rows : List (TenantDayUsage F)) (now : ℕ)
      → one_day ≤ now
      → IsRecent now (days_of (fill_recent sum rows (now - one_day) 0 8))
  unfolding days_of
  filled-IsRecent rows now h =
      let first : bucket_of (now - one_day) + 0 * 10_800 ≡ bucket_of now - 86_400 = omega arith in
      rw (fill_recent-days rows (now - one_day) 0 8, first)
        (refl, buckets_from-below (bucket_of now - 86_400) 8 (bucket_of now) (omega arith))

  -- The recent usage in the summary of a tenant is about the eight buckets of three hours that end
  -- where the bucket of the present begins: in order, none missing, whatever the rows are, and whether
  -- or not there is usage in them. No entry is about the present bucket, although the statement asks
  -- for its rows too.
  pub recent_days :
      (orders : Orders F) (sql_now now : ℕ) (id : String) (db : Db F)
      → one_day ≤ now
      → IfOk
          (λ (s : TenantRequestSummary F). IsRecent now (days_of s.recent))
          (get_tenant_request_summary sum orders sql_now now id db).0
  unfolding get_tenant_request_summary
  recent_days orders sql_now now id db h =
      let P = λ (s : TenantRequestSummary F). IsRecent now (days_of s.recent) in
      and_then-IfOk P _ _ λ total db1. and_then-IfOk P _ _ λ daily db2.
        and_then-IfOk P _ _ λ rows db3. and_then-IfOk P _ _ λ models db4. filled-IsRecent rows now h
