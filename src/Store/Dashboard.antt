-- ===== src/Store/Dashboard.antt =====
-- `GetAdminDashboardStats` of backend/internal/store/store.go, which drops the errors of its single
-- rows. `sum` is `SUM` of a `NUMERIC` column; times are nanoseconds, and hours are in seconds.
use router_x.Base.Int.{ℤ, pos}
use router_x.Base.Float.{Float64}
use router_x.Base.{
  ℕ, zero, suc, ◌+◌, ◌-◌, ◌*◌, ◌/◌, ◌%◌, ◌==◌, leb, ltb, Bool, Option, none, some, List, [], ◌∷◌,
  Result, ok, err, filterb, length, map, if◌then◌else◌,
}
use router_x.Store.Types.{Tenant}
use router_x.Store.Db.{RequestLog, Tables, Db, query_row, find_row, upsert_row}
use router_x.Store.Stats.{nanos, one_day, is_recent, sum_tokens, sum_costs}

pub record HourlyBucket : Type 0 where
  pub hour : ℕ
  pub requests : ℕ
  pub errors : ℕ

pub record AdminDashboardStats (F : Type 0) : Type 0 where
  pub total_tenants : ℕ
  pub active_tenants : ℕ
  pub requests_24h : ℕ
  pub errors_24h : ℕ
  pub error_rate : F
  pub avg_latency_ms : F
  pub p95_latency_ms : F
  pub cost_24h : F
  pub tokens_24h : ℤ
  pub hourly_series : List HourlyBucket
  pub total_requests_all_time : ℕ
  pub total_tokens_all_time : ℤ
  pub total_cost_all_time : F
  pub total_revenue_all_time : F

-- The aggregates of PostgreSQL
pub record Aggregates (F : Type 0) : Type 0 where
  pub sum : F → F → F
  -- `COALESCE(AVG(latency_ms), 0)`
  pub average : List ℕ → F
  -- `COALESCE(PERCENTILE_CONT(0.95) WITHIN GROUP (ORDER BY latency_ms), 0)`
  pub p95 : List ℕ → F

-- `date_trunc('hour', created_at)` and `Truncate(time.Hour)`
abbrev pub hour_of : ℕ → ℕ
hour_of at = at / nanos - (at / nanos) % 3_600

abbrev pub one_if : Bool → ℕ
one_if b = if b then 1 else 0

-- `status_code >= 400`
abbrev pub is_failed : {F : Type 0} → RequestLog F → Bool
is_failed l = leb 400 l.status_code

-- `GROUP BY hour`
unfoldable pub group_by_hour : {F : Type 0} → List (RequestLog F) → List HourlyBucket
group_by_hour [] = []
group_by_hour (l ∷ ls) =
    let hour = hour_of l.created_at in
    upsert_row (λ (b : HourlyBucket). b.hour == hour)
      (λ b. record b { requests = b.requests + 1; errors = b.errors + one_if (is_failed l) })
      (record { hour = hour; requests = 1; errors = one_if (is_failed l) }) (group_by_hour ls)

abbrev pub bucket_or_empty : ℕ → Option HourlyBucket → HourlyBucket
bucket_or_empty hour none = record { hour = hour; requests = 0; errors = 0 }
bucket_or_empty hour (some b) = b

-- The loop that counts `i` down to zero; `rows` is `hourMap`.
unfoldable pub fill_hours : List HourlyBucket → ℕ → ℕ → List HourlyBucket
fill_hours rows now zero = []
fill_hours rows now (suc i) =
    let hour = hour_of (now - i * (3_600 * nanos)) in
    bucket_or_empty hour (find_row (λ (b : HourlyBucket). b.hour == hour) rows)
    ∷ fill_hours rows now i

-- `_ = row.Scan(...)`
abbrev pub scan_or {ℓ} : {A : Type ℓ} → A → Result A → A
scan_or zeros (err e) = zeros
scan_or zeros (ok a) = a

abbrev pub hours_or_none : ℕ → Result (List HourlyBucket) → List HourlyBucket
hours_or_none now (err e) = []
hours_or_none now (ok rows) = fill_hours rows now 24

-- `last_active >= NOW() - interval '24 hours'`
abbrev pub is_active : {F : Type 0} → ℕ → Tenant F → Bool
is_active sql_now t = elim t.last_active [
  | none ↦ Bool.false
  | some at ↦ leb (sql_now - one_day) at
]

module _ {F : Type 0} ⦃fl : Float64 F⦄ (agg : Aggregates F) where
  unfoldable pub sum_topups : List (Tenant F) → F
  sum_topups [] = fl.zero_f
  sum_topups (t ∷ ts) = agg.sum t.total_topup_usd (sum_topups ts)

  abbrev pub logs_24h : ℕ → Tables F → List (RequestLog F)
  logs_24h sql_now db = filterb (is_recent sql_now) db.request_logs

  -- The row of the statement on the last 24 hours.
  pub record DayRow : Type 0 where
    pub requests : ℕ
    pub errors : ℕ
    pub average_ms : F
    pub p95_ms : F
    pub cost : F
    pub tokens : ℤ

  abbrev pub day_row : List (RequestLog F) → DayRow
  day_row logs = record {
    requests = length logs;
    errors = length (filterb is_failed logs);
    average_ms = agg.average (map (λ (l : RequestLog F). l.latency_ms) logs);
    p95_ms = agg.p95 (map (λ (l : RequestLog F). l.latency_ms) logs);
    cost = sum_costs agg.sum logs;
    tokens = sum_tokens logs;
  }

  abbrev pub no_day : DayRow
  no_day = record {
    requests = 0;
    errors = 0;
    average_ms = fl.zero_f;
    p95_ms = fl.zero_f;
    cost = fl.zero_f;
    tokens = pos 0;
  }

  abbrev pub error_rate_of : DayRow → F
  error_rate_of d =
      if ltb 0 d.requests
      then fl.mul (fl.div (fl.of_int (pos d.errors)) (fl.of_int (pos d.requests)))
          (fl.of_int (pos 100))
      else fl.zero_f

  -- `GetAdminDashboardStats`: its error is always nil.
  unfoldable pub get_admin_dashboard_stats : ℕ → ℕ → Db F → AdminDashboardStats F × Db F
  get_admin_dashboard_stats sql_now now db =
      let (tenants, db1) = query_row (λ (t : Tables F). some (length t.tenants)) db in
      let (active, db2) =
        query_row (λ (t : Tables F). some (length (filterb (is_active sql_now) t.tenants))) db1 in
      let (day, db3) = query_row (λ t. some (day_row (logs_24h sql_now t))) db2 in
      let (ever, db4) = query_row (λ (t : Tables F). some (day_row t.request_logs)) db3 in
      let (revenue, db5) = query_row (λ (t : Tables F). some (sum_topups t.tenants)) db4 in
      let (hours, db6) = query_row (λ t. some (group_by_hour (logs_24h sql_now t))) db5 in
      let last = scan_or no_day day in
      let all = scan_or no_day ever in
      (
        record {
          total_tenants = scan_or 0 tenants;
          active_tenants = scan_or 0 active;
          requests_24h = last.requests;
          errors_24h = last.errors;
          error_rate = error_rate_of last;
          avg_latency_ms = last.average_ms;
          p95_latency_ms = last.p95_ms;
          cost_24h = last.cost;
          tokens_24h = last.tokens;
          hourly_series = hours_or_none now hours;
          total_requests_all_time = all.requests;
          total_tokens_all_time = all.tokens;
          total_cost_all_time = all.cost;
          total_revenue_all_time = scan_or fl.zero_f revenue;
        },
        db6,
      )
