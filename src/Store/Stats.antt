-- ===== src/Store/Stats.antt =====
-- `GetTenantRequestSummary` and `ListModelUsage` of backend/internal/store/store.go. Times are
-- nanoseconds, and the start of a day or of a bucket is in seconds. `sum` is `SUM` of a `NUMERIC` column,
-- and `sort` the `ORDER BY` of a statement; a statement reads the time `sql_now`.
pub mod Recent
pub mod Daily
use router_x.Base.Int.{ℤ, pos, ltb_ℤ, ◌+ℤ◌}
use router_x.Base.Float.{Float64}
use router_x.Base.{
  ℕ, zero, suc, ◌+◌, ◌-◌, ◌*◌, ◌/◌, ◌%◌, ◌==◌, leb, String, Bool, ◌&&◌, Option, none, some, List,
  [], ◌∷◌, Result, ok, err, str_eq, filterb, length,
}
use router_x.Store.Db.{RequestLog, Tables, Db, query_row, find_row, upsert_row}

pub record TenantDayUsage (F : Type 0) : Type 0 where
  pub day : ℕ
  pub requests : ℕ
  pub tokens : ℤ
  pub cost_usd : F

pub record TenantRecentModelUsage : Type 0 where
  pub model : String
  pub bucket : ℕ
  pub tokens : ℤ

pub record TenantRequestSummary (F : Type 0) : Type 0 where
  pub total_requests : ℕ
  pub total_tokens : ℤ
  pub total_cost_usd : F
  pub daily : List (TenantDayUsage F)
  pub recent : List (TenantDayUsage F)
  pub recent_models : List TenantRecentModelUsage

pub record ModelUsageSummary (F : Type 0) : Type 0 where
  pub model : String
  pub provider : String
  pub tokens : ℤ
  pub cost_usd : F
  pub requests : ℕ

abbrev pub nanos : ℕ
nanos = 1_000_000_000

-- `floor(extract(epoch from created_at) / 10800) * 10800`, and `key` of a time
abbrev pub bucket_of : ℕ → ℕ
bucket_of at = at / nanos - (at / nanos) % 10_800

-- `DATE(created_at)`
abbrev pub day_of : ℕ → ℕ
day_of at = at / nanos - (at / nanos) % 86_400

-- Twenty-four hours
abbrev pub one_day : ℕ
one_day = 86_400 * nanos

unfoldable pub sum_tokens : {F : Type 0} → List (RequestLog F) → ℤ
sum_tokens [] = pos 0
sum_tokens (l ∷ ls) = l.tokens +ℤ sum_tokens ls

module _ {F : Type 0} where
  -- `status_code=200 AND tokens > 0`
  abbrev pub is_billed : RequestLog F → Bool
  is_billed l = l.status_code == 200 && ltb_ℤ (pos 0) l.tokens

  abbrev pub billed_of : String → Tables F → List (RequestLog F)
  billed_of id db = filterb (λ l. str_eq l.tenant_id id && is_billed l) db.request_logs

  -- `created_at >= NOW() - interval '24 hours'`
  abbrev pub is_recent : ℕ → RequestLog F → Bool
  is_recent sql_now l = leb (sql_now - one_day) l.created_at

module _ {F : Type 0} ⦃fl : Float64 F⦄ (sum : F → F → F) where
  unfoldable pub sum_costs : List (RequestLog F) → F
  sum_costs [] = fl.zero_f
  sum_costs (l ∷ ls) = sum l.cost_usd (sum_costs ls)

  abbrev pub add_to_day : RequestLog F → TenantDayUsage F → TenantDayUsage F
  add_to_day l d = record d {
    requests = d.requests + 1;
    tokens = d.tokens +ℤ l.tokens;
    cost_usd = sum d.cost_usd l.cost_usd;
  }

  -- `COUNT(*), SUM(tokens), SUM(cost_usd) ... GROUP BY`
  unfoldable pub group_by_day : (ℕ → ℕ) → List (RequestLog F) → List (TenantDayUsage F)
  group_by_day key [] = []
  group_by_day key (l ∷ ls) =
      let day = key l.created_at in
      upsert_row (λ d. d.day == day) (add_to_day l)
        (record { day = day; requests = 1; tokens = l.tokens; cost_usd = l.cost_usd })
        (group_by_day key ls)

  abbrev pub empty_day : ℕ → TenantDayUsage F
  empty_day day = record { day = day; requests = 0; tokens = pos 0; cost_usd = fl.zero_f }

  abbrev pub found_or_empty : ℕ → Option (TenantDayUsage F) → TenantDayUsage F
  found_or_empty day none = empty_day day
  found_or_empty day (some d) = d

  -- The loop over the eight buckets from time `start`, of which `n` are left; `rows` is `recentMap`.
  unfoldable pub fill_recent : List (TenantDayUsage F) → ℕ → ℕ → ℕ → List (TenantDayUsage F)
  fill_recent rows start i zero = []
  fill_recent rows start i (suc n) =
      let key = bucket_of (start + i * (10_800 * nanos)) in
      found_or_empty key (find_row (λ d. d.day == key) rows) ∷ fill_recent rows start (i + 1) n

-- `GROUP BY model, bucket_start`
unfoldable pub group_by_model : {F : Type 0} → List (RequestLog F) → List TenantRecentModelUsage
group_by_model [] = []
group_by_model (l ∷ ls) =
    let bucket = bucket_of l.created_at in
    upsert_row (λ (u : TenantRecentModelUsage). str_eq u.model l.model && u.bucket == bucket)
      (λ u. record u { tokens = u.tokens +ℤ l.tokens })
      (record { model = l.model; bucket = bucket; tokens = l.tokens }) (group_by_model ls)

-- What follows a statement that may fail.
unfoldable pub and_then :
    {F A B : Type 0} → Result A × Db F → (A → Db F → Result B × Db F) → Result B × Db F
and_then (err e, db) next = (err e, db)
and_then (ok a, db) next = next a db

-- The three `ORDER BY`.
pub record Orders (F : Type 0) : Type 0 where
  pub by_day : List (TenantDayUsage F) → List (TenantDayUsage F)
  pub by_bucket : List TenantRecentModelUsage → List TenantRecentModelUsage
  pub by_cost : List (ModelUsageSummary F) → List (ModelUsageSummary F)

module _ {F : Type 0} ⦃fl : Float64 F⦄ (sum : F → F → F) (orders : Orders F) where
  abbrev totals : String → Tables F → ℕ × (ℤ × F)
  totals id db = let logs = billed_of id db in (length logs, (sum_tokens logs, sum_costs sum logs))

  abbrev daily_rows : String → Tables F → List (TenantDayUsage F)
  daily_rows id db = orders.by_day (group_by_day sum day_of (billed_of id db))

  abbrev recent_logs : ℕ → String → Tables F → List (RequestLog F)
  recent_logs sql_now id db = filterb (is_recent sql_now) (billed_of id db)

  abbrev recent_rows : ℕ → String → Tables F → List (TenantDayUsage F)
  recent_rows sql_now id db = group_by_day sum bucket_of (recent_logs sql_now id db)

  -- `GetTenantRequestSummary`, at the time `now` of the process
  unfoldable pub get_tenant_request_summary :
      ℕ → ℕ → String → Db F → Result (TenantRequestSummary F) × Db F
  get_tenant_request_summary sql_now now id db =
      and_then (query_row (λ t. some (totals id t)) db) λ total db1.
        and_then (query_row (λ t. some (daily_rows id t)) db1) λ daily db2.
          and_then (query_row (λ t. some (recent_rows sql_now id t)) db2) λ rows db3.
            and_then
              (query_row (λ t. some (orders.by_bucket (group_by_model (recent_logs sql_now id t))))
                db3)
              λ models db4. (
                ok (record {
                  total_requests = total.0;
                  total_tokens = total.1.0;
                  total_cost_usd = total.1.1;
                  daily = daily;
                  recent = fill_recent sum rows (now - one_day) 0 8;
                  recent_models = models;
                }),
                db4,
              )

  -- `GROUP BY model, provider`
  unfoldable pub group_usage : List (RequestLog F) → List (ModelUsageSummary F)
  group_usage [] = []
  group_usage (l ∷ ls) =
      upsert_row
        (λ (m : ModelUsageSummary F). str_eq m.model l.model && str_eq m.provider l.provider)
        (λ m. record m {
          requests = m.requests + 1;
          tokens = m.tokens +ℤ l.tokens;
          cost_usd = sum m.cost_usd l.cost_usd;
        })
        (record {
          model = l.model;
          provider = l.provider;
          tokens = l.tokens;
          cost_usd = l.cost_usd;
          requests = 1;
        })
        (group_usage ls)

  -- `ListModelUsage`
  unfoldable pub list_model_usage : Db F → Result (List (ModelUsageSummary F)) × Db F
  list_model_usage =
      query_row λ t. some (orders.by_cost (group_usage (filterb is_billed t.request_logs)))
