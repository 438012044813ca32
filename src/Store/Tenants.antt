-- ===== src/Store/Tenants.antt =====
-- The methods of `Store` on tenants, their balances and their usage. `numeric` is what a column
-- `NUMERIC(12,4)` keeps of a float.
use router_x.Base.Int.{ℤ, pos, ◌+ℤ◌}
use router_x.Base.Float.{Float64}
use router_x.Base.{
  ℕ, ◌+◌, ◌/◌, String, Bool, ◌&&◌, Option, none, some, [], ◌∷◌, ◌++◌, Result, ok, err, str_eq, ◌==◌,
}
use router_x.Store.Types.{Tenant, ApiKey}
use router_x.Store.Db.{
  UsageRow, RequestLog, Tables, Db, exec, query_row, find_row, update_rows, upsert_row,
}

abbrev pub has_id : {F : Type 0} → String → Tenant F → Bool
has_id id t = str_eq t.id id

abbrev pub nanos_per_day : ℕ
nanos_per_day = 86_400_000_000_000

module _ {F : Type 0} ⦃fl : Float64 F⦄ where
  -- The columns that `GetTenantByAPIKey` selects; the struct's other fields stay zero.
  abbrev pub selected_by_key : Tenant F → Tenant F
  selected_by_key t = record t { rate_limit_rpm = pos 0; spend_limit_usd = fl.zero_f }

  abbrev pub join_tenant : Tables F → Option ApiKey → Option (Tenant F)
  join_tenant db none = none
  join_tenant db (some k) = elim (find_row (has_id k.tenant_id) db.tenants) [
    | none ↦ none
    | some t ↦ some (selected_by_key t)
  ]

  -- `GetTenantByAPIKey`
  unfoldable pub get_tenant_by_api_key : String → Db F → Result (Tenant F) × Db F
  get_tenant_by_api_key key =
      query_row λ db. join_tenant db (find_row (λ (k : ApiKey). str_eq k.key key) db.api_keys)

module _ {F : Type 0} where
  -- `GetTenantByID`
  unfoldable pub get_tenant_by_id : String → Db F → Result (Tenant F) × Db F
  get_tenant_by_id id = query_row λ db. find_row (has_id id) db.tenants

  unfoldable pub change_tenant : String → (Tenant F → Tenant F) → Tables F → Tables F
  change_tenant id f db = record db { tenants = update_rows (has_id id) f db.tenants }

  -- `UpdateTenantBalance`
  unfoldable pub update_tenant_balance : (F → F) → String → F → Db F → Result (Unit {0}) × Db F
  update_tenant_balance numeric id balance =
      exec (change_tenant id λ t. record t { balance_usd = numeric balance })

  -- `UpdateTenantLastActive`
  unfoldable pub update_tenant_last_active : String → ℕ → Db F → Result (Unit {0}) × Db F
  update_tenant_last_active id at = exec (change_tenant id λ t. record t { last_active = some at })

  -- `SuspendTenant`
  unfoldable pub suspend_tenant : String → Bool → Db F → Result (Unit {0}) × Db F
  suspend_tenant id suspended = exec (change_tenant id λ t. record t { suspended = suspended })

  -- `UpdateTenantLimits`
  unfoldable pub update_tenant_limits : (F → F) → String → ℤ → F → Db F → Result (Unit {0}) × Db F
  update_tenant_limits numeric id rpm limit =
      exec
        (change_tenant id λ t. record t { rate_limit_rpm = rpm; spend_limit_usd = numeric limit })

  -- `RecordTransaction`
  unfoldable pub record_transaction :
      (F → F) → String → String → F → F → String → Db F → Result (Unit {0}) × Db F
  record_transaction numeric id type amount after description = exec λ db. record db {
    transactions =
        db.transactions
        ++ record {
          tenant_id = id;
          type = type;
          amount_usd = numeric amount;
          balance_after = numeric after;
          description = description;
        }
          ∷ [];
  }

  -- `InsertRequestLog`; the column of the serial number is not among those that the statement names.
  unfoldable pub insert_request_log : (F → F) → RequestLog F → Db F → Result (Unit {0}) × Db F
  insert_request_log numeric log = exec λ db. record db {
    request_logs =
        db.request_logs ++ record log { id = db.next_log; cost_usd = numeric log.cost_usd } ∷ [];
    next_log = db.next_log + 1;
  }

module _ {F : Type 0} ⦃fl : Float64 F⦄ (numeric : F → F) where
  abbrev same_usage : UsageRow F → UsageRow F → Bool
  same_usage new u =
      str_eq u.tenant_id new.tenant_id
      && (str_eq u.provider new.provider && (str_eq u.model new.model && u.day == new.day))

  abbrev add_usage : UsageRow F → Tables F → Tables F
  add_usage new db = record db {
    usage_daily =
        upsert_row (same_usage new)
          (λ u. record u {
            tokens = u.tokens +ℤ new.tokens;
            cost_usd = numeric (fl.add u.cost_usd new.cost_usd);
          })
          new db.usage_daily;
  }

  abbrev then_spent : String → F → Result (Unit {0}) × Db F → Result (Unit {0}) × Db F
  then_spent id cost (err e, db) = (err e, db)
  then_spent id cost (ok u, db) =
      exec
        (change_tenant id
          λ t. record t { total_spent_usd = numeric (fl.add t.total_spent_usd cost) })
        db

  -- `RecordUsageDaily`
  unfoldable pub record_usage_daily :
      String → String → String → ℤ → ℕ → Db F → Result (Unit {0}) × Db F
  record_usage_daily id provider model tokens at = exec (
      add_usage (record {
        tenant_id = id;
        provider = provider;
        model = model;
        day = at / nanos_per_day;
        tokens = tokens;
        cost_usd = fl.zero_f;
      }))

  -- `AddUsageCost`: the second statement runs only if the first succeeded.
  unfoldable pub add_usage_cost :
      String → String → String → ℤ → F → ℕ → Db F → Result (Unit {0}) × Db F
  unfolding exec
  add_usage_cost id provider model tokens cost at db = then_spent id cost (
      exec
        (add_usage (record {
          tenant_id = id;
          provider = provider;
          model = model;
          day = at / nanos_per_day;
          tokens = tokens;
          cost_usd = numeric cost;
        }))
        db)

  -- The statement of `TenantTopup` and `AdminAdjustBalance` on `total_topup_usd`.
  unfoldable pub add_topup : String → F → Db F → Result (Unit {0}) × Db F
  add_topup id amount = exec (
      change_tenant id
        λ t. record t { total_topup_usd = numeric (fl.add t.total_topup_usd amount) })
