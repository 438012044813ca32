-- ===== src/Api/Tenants.antt =====
-- Handlers of backend/internal/api/handlers.go that change a tenant: top-ups, adjustments of the
-- balance, suspension, limits, API keys and prices; and `WithAPIKey` of
-- backend/internal/middleware/auth.go. A body that does not decode is `none`.
pub mod Balance
use router_x.Base.Int.{ℤ}
use router_x.Base.Float.{Float64}
use router_x.Base.{
  ℕ, String, true, false, Option, none, some, List, Result, ok, err, is_empty, if◌then◌else◌,
}
use router_x.Store.Types.{Tenant}
use router_x.Store.Db.{Db}
use router_x.Store.Tenants.{
  get_tenant_by_api_key, get_tenant_by_id, update_tenant_balance, update_tenant_last_active,
  suspend_tenant, update_tenant_limits, record_transaction, add_topup,
}
use router_x.Store.Keys.{create_api_key, delete_api_key}
use router_x.Store.Pricing.{upsert_model_pricing}

pub data TenantBody (F : Type 0) : Type 0 where
  message : String → TenantBody F
  status_ok : TenantBody F
  balance : F → TenantBody F
  status_and_balance : F → TenantBody F
  key_created : String → ℕ → TenantBody F

pub record Answer (F : Type 0) : Type 0 where
  pub status : ℕ
  pub body : TenantBody F

abbrev pub reject : {F : Type 0} → ℕ → String → Answer F
reject status text = record { status = status; body = message text }

abbrev pub accept : {F : Type 0} → TenantBody F → Answer F
accept body = record { status = 200; body = body }

-- The answer to a statement that either succeeds or is reported with status 500.
abbrev pub report :
    {F : Type 0} → String → TenantBody F → Result (Unit {0}) × Db F → Answer F × Db F
report text body (ok u, db) = (accept body, db)
report text body (err e, db) = (reject 500 text, db)

-- The payload of `AdminAdjustBalance`.
pub record Adjustment (F : Type 0) : Type 0 where
  pub balance_usd : F
  pub description : String

-- The payload of `AdminUpdateTenantLimits`.
pub record Limits (F : Type 0) : Type 0 where
  pub rate_limit_rpm : ℤ
  pub spend_limit_usd : F

-- The payload of `TenantCreateAPIKey`.
pub record NewKey : Type 0 where
  pub key : String
  pub name : String
  pub allowed_models : List String

-- The payload of `AdminUpsertModelPricing`.
pub record NewPrice (F : Type 0) : Type 0 where
  pub model : String
  pub price_per_1k_usd : F

-- `describe_topup` and `describe_adjustment` are the two `fmt.Sprintf` of the ledger.
module _ {F : Type 0} ⦃fl : Float64 F⦄ (numeric : F → F) (describe_topup : F → String) where
  -- After the balance was written.
  abbrev pub topped_up : String → F → F → Result (Unit {0}) × Db F → Answer F × Db F
  topped_up id amount new (err e, db) = (reject 500 "failed to update balance", db)
  topped_up id amount new (ok u, db) =
      let db1 = (add_topup numeric id amount db).1 in
      let db2 = (record_transaction numeric id "topup" amount new (describe_topup amount) db1).1 in
      (accept (balance new), db2)

  abbrev pub top_up : String → F → Result (Tenant F) × Db F → Answer F × Db F
  top_up id amount (err e, db) = (reject 500 "failed to load tenant", db)
  top_up id amount (ok t, db) =
      let new = fl.add t.balance_usd amount in
      topped_up id amount new (update_tenant_balance numeric id new db)

  -- `TenantTopup`, for the tenant of the token, if there is one.
  unfoldable pub tenant_topup : Option String → Option F → Db F → Answer F × Db F
  tenant_topup none payload db = (reject 401 "missing tenant", db)
  tenant_topup (some id) none db = (reject 400 "invalid json", db)
  tenant_topup (some id) (some amount) db =
      if fl.le amount fl.zero_f
      then (reject 400 "amount must be positive", db)
      else top_up id amount (get_tenant_by_id id db)

module _ {F : Type 0} ⦃fl : Float64 F⦄ (numeric : F → F)
    (describe_adjustment : F → F → String) where
  abbrev pub adjusted : String → Adjustment F → F → Result (Unit {0}) × Db F → Answer F × Db F
  adjusted id p old (err e, db) = (reject 500 "failed to update balance", db)
  adjusted id p old (ok u, db) =
      let diff = fl.sub p.balance_usd old in
      let text =
        if is_empty p.description then describe_adjustment old p.balance_usd else p.description in
      let db1 = if fl.lt fl.zero_f diff then (add_topup numeric id diff db).1 else db in
      let db2 = (record_transaction numeric id "adjustment" diff p.balance_usd text db1).1 in
      (accept (status_and_balance p.balance_usd), db2)

  abbrev pub adjust : String → Adjustment F → Result (Tenant F) × Db F → Answer F × Db F
  adjust id p (err e, db) = (reject 404 "tenant not found", db)
  adjust id p (ok t, db) =
      adjusted id p t.balance_usd (update_tenant_balance numeric id p.balance_usd db)

  -- `AdminAdjustBalance`
  unfoldable pub admin_adjust_balance : String → Option (Adjustment F) → Db F → Answer F × Db F
  admin_adjust_balance id none db =
      if is_empty id then (reject 400 "missing tenant id", db) else (reject 400 "invalid json", db)
  admin_adjust_balance id (some p) db =
      if is_empty id
      then (reject 400 "missing tenant id", db)
      else adjust id p (get_tenant_by_id id db)

module _ {F : Type 0} where
  -- `AdminSuspendTenant`
  unfoldable pub admin_suspend_tenant : String → Db F → Answer F × Db F
  admin_suspend_tenant id db =
      if is_empty id
      then (reject 400 "missing tenant id", db)
      else report "failed to suspend tenant" status_ok (suspend_tenant id true db)

  -- `AdminUnsuspendTenant`
  unfoldable pub admin_unsuspend_tenant : String → Db F → Answer F × Db F
  admin_unsuspend_tenant id db =
      if is_empty id
      then (reject 400 "missing tenant id", db)
      else report "failed to unsuspend tenant" status_ok (suspend_tenant id false db)

  -- `AdminUpdateTenantLimits`
  unfoldable pub admin_update_tenant_limits :
      (F → F) → String → Option (Limits F) → Db F → Answer F × Db F
  admin_update_tenant_limits numeric id none db =
      if is_empty id then (reject 400 "missing tenant id", db) else (reject 400 "invalid json", db)
  admin_update_tenant_limits numeric id (some p) db =
      if is_empty id
      then (reject 400 "missing tenant id", db)
      else report "failed to update limits" status_ok
          (update_tenant_limits numeric id p.rate_limit_rpm p.spend_limit_usd db)

  -- `TenantCreateAPIKey` at time `now`; `ksuid` is the text of a new identifier.
  unfoldable pub tenant_create_api_key :
      ℕ → String → Option String → Option NewKey → Db F → Answer F × Db F
  tenant_create_api_key now fresh_key none payload db = (reject 401 "missing tenant", db)
  tenant_create_api_key now fresh_key (some id) none db = (reject 400 "invalid json", db)
  tenant_create_api_key now fresh_key (some id) (some p) db =
      let key = if is_empty p.key then fresh_key else p.key in
      report "failed to create api key" (key_created key now) (
        create_api_key now
          (record {
            key = key;
            tenant_id = id;
            name = p.name;
            allowed_models = p.allowed_models;
            created_at = now;
          })
          db)

  -- `TenantDeleteAPIKey`
  unfoldable pub tenant_delete_api_key : Option String → String → Db F → Answer F × Db F
  tenant_delete_api_key none key db = (reject 401 "missing tenant", db)
  tenant_delete_api_key (some id) key db =
      if is_empty key
      then (reject 400 "missing api key", db)
      else report "failed to delete api key" status_ok (delete_api_key id key db)

  -- `AdminUpsertModelPricing`
  unfoldable pub admin_upsert_model_pricing : (F → F) → Option (NewPrice F) → Db F → Answer F × Db F
  admin_upsert_model_pricing numeric6 none db = (reject 400 "invalid json", db)
  admin_upsert_model_pricing numeric6 (some p) db =
      if is_empty p.model
      then (reject 400 "model required", db)
      else report "failed to upsert pricing" status_ok
          (upsert_model_pricing numeric6 p.model p.price_per_1k_usd db)

-- What `WithAPIKey` hands to the next handler: the tenant, or else the text of a 401.
module _ {F : Type 0} ⦃fl : Float64 F⦄ where
  abbrev with_tenant : ℕ → Result (Tenant F) × Db F → Result (Tenant F) × Db F
  with_tenant now (err e, db) = (err "invalid api key", db)
  with_tenant now (ok t, db) = (ok t, (update_tenant_last_active t.id now db).1)

  -- `WithAPIKey`, on the key of the `Authorization` header, if it starts with `Bearer `.
  unfoldable pub with_api_key : ℕ → Option String → Db F → Result (Tenant F) × Db F
  with_api_key now none db = (err "missing api key", db)
  with_api_key now (some key) db = with_tenant now (get_tenant_by_api_key key db)
