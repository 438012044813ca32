-- ===== src/Api/Listings.antt =====
-- Handlers of backend/internal/api/handlers.go that show what the store lists. `sort` is the `ORDER BY`
-- of their statement.
use router_x.Base.Int.{ℤ, pos, ltb_ℤ}
use router_x.Base.Float.{Float64}
use router_x.Base.{
  ℕ, String, Bool, Option, none, some, List, Result, ok, err, is_empty, map, if◌then◌else◌,
}
use router_x.Store.Types.{
  Tenant, ApiKey, Provider, RoutingRule, ModelPricing, BalanceTransaction, TenantUser, Webhook,
}
use router_x.Store.Db.{Db, RequestLog}
use router_x.Store.Tenants.{get_tenant_by_id}
use router_x.Store.Listings.{
  ModelInfo, list_providers, list_routing_rules, list_routing_rules_by_tenant, list_tenants,
  list_api_keys_by_tenant, list_request_logs, list_model_pricing, list_models_by_provider_type,
  list_transactions, list_webhooks, list_all_models,
}

-- The answer is a text with its status, or what is shown.
pub data Listing (A : Type 0) : Type 0 where
  rejected : ℕ → String → Listing A
  shown : A → Listing A

module _ {F A : Type 0} where
  abbrev pub show_rows : ℕ → String → Result A × Db F → Listing A × Db F
  show_rows status text (err e, db) = (rejected status text, db)
  show_rows status text (ok rows, db) = (shown rows, db)

-- The JSON of a provider does not have its key.
abbrev without_key : Provider → Provider
without_key p = record p { api_key = "" }

-- An entry of `ListModels`; its object and its time are constants.
pub record ModelObject : Type 0 where
  pub id : String
  pub owned_by : String

-- The values of `TenantProfile`.
pub record Profile (F : Type 0) : Type 0 where
  pub tenant_id : String
  pub name : String
  pub username : String
  pub balance_usd : F
  pub suspended : Bool
  pub total_topup_usd : F
  pub total_spent_usd : F

abbrev profile_of : {F : Type 0} → TenantUser → Tenant F → Profile F
profile_of user t = record {
  tenant_id = t.id;
  name = t.name;
  username = user.username;
  balance_usd = t.balance_usd;
  suspended = t.suspended;
  total_topup_usd = t.total_topup_usd;
  total_spent_usd = t.total_spent_usd;
}

module _ {F : Type 0} where
  abbrev show_providers : Result (List Provider) × Db F → Listing (List Provider) × Db F
  show_providers (err e, db) = (rejected 500 "failed to list providers", db)
  show_providers (ok ps, db) = (shown (map without_key ps), db)

  -- `AdminProviders`
  unfoldable pub admin_providers : Db F → Listing (List Provider) × Db F
  admin_providers db = show_providers (list_providers db)

  -- `AdminTenants`
  unfoldable pub admin_tenants :
      (List (Tenant F) → List (Tenant F)) → Db F → Listing (List (Tenant F)) × Db F
  admin_tenants sort db = show_rows 500 "failed to list tenants" (list_tenants sort db)

  -- `AdminRequests`
  unfoldable pub admin_requests :
      (List (RequestLog F) → List (RequestLog F)) → Db F → Listing (List (RequestLog F)) × Db F
  admin_requests sort db = show_rows 500 "failed to list requests" (list_request_logs sort 100 db)

  -- `AdminListModelPricing`
  unfoldable pub admin_list_model_pricing :
      (List (ModelPricing F) → List (ModelPricing F))
      → Db F
      → Listing (List (ModelPricing F)) × Db F
  admin_list_model_pricing sort db =
      show_rows 500 "failed to list pricing" (list_model_pricing sort db)

  -- `AdminListModels`
  unfoldable pub admin_list_models :
      (List String → List String) → String → Db F → Listing (List String) × Db F
  admin_list_models sort type db =
      if is_empty type
      then (rejected 400 "provider_type required", db)
      else show_rows 500 "failed to list models" (list_models_by_provider_type sort type db)

  -- `AdminRoutingRules`
  unfoldable pub admin_routing_rules :
      (List RoutingRule → List RoutingRule) → String → Db F → Listing (List RoutingRule) × Db F
  admin_routing_rules sort tenant_id db = show_rows 500 "failed to list rules" (
      if is_empty tenant_id
      then list_routing_rules db
      else list_routing_rules_by_tenant sort tenant_id db)

  -- `AdminTenantDetail`
  unfoldable pub admin_tenant_detail : String → Db F → Listing (Tenant F) × Db F
  admin_tenant_detail id db =
      if is_empty id
      then (rejected 400 "missing tenant id", db)
      else show_rows 404 "tenant not found" (get_tenant_by_id id db)

  -- `AdminTenantTransactions`; `limit` is what `strconv.Atoi` makes of the parameter, its error dropped.
  unfoldable pub admin_tenant_transactions :
      (List (BalanceTransaction F) → List (BalanceTransaction F))
      → String
      → ℤ
      → Db F
      → Listing (List (BalanceTransaction F)) × Db F
  admin_tenant_transactions sort id limit db =
      if is_empty id
      then (rejected 400 "missing tenant id", db)
      else show_rows 500 "failed to list transactions"
          (list_transactions sort id (if ltb_ℤ (pos 0) limit then limit else pos 100) db)

  -- `AdminListWebhooks`
  unfoldable pub admin_list_webhooks :
      (List Webhook → List Webhook) → Db F → Listing (List Webhook) × Db F
  admin_list_webhooks sort db = show_rows 500 "failed to list webhooks" (list_webhooks sort db)

  -- `TenantAPIKeys`
  unfoldable pub tenant_api_keys :
      (List ApiKey → List ApiKey) → Option TenantUser → Db F → Listing (List ApiKey) × Db F
  tenant_api_keys sort none db = (rejected 401 "missing tenant", db)
  tenant_api_keys sort (some user) db =
      show_rows 500 "failed to list api keys" (list_api_keys_by_tenant sort user.tenant_id db)

  abbrev show_profile : TenantUser → Result (Tenant F) × Db F → Listing (Profile F) × Db F
  show_profile user (err e, db) = (rejected 500 "failed to load tenant", db)
  show_profile user (ok t, db) = (shown (profile_of user t), db)

  -- `TenantProfile`
  unfoldable pub tenant_profile : Option TenantUser → Db F → Listing (Profile F) × Db F
  tenant_profile none db = (rejected 401 "missing tenant", db)
  tenant_profile (some user) db = show_profile user (get_tenant_by_id user.tenant_id db)

module _ {F : Type 0} ⦃fl : Float64 F⦄ where
  abbrev model_object : ModelInfo F → ModelObject
  model_object m = record { id = m.model; owned_by = m.provider_type }

  abbrev show_models : Result (List (ModelInfo F)) × Db F → Listing (List ModelObject) × Db F
  show_models (err e, db) = (rejected 500 "failed to list models", db)
  show_models (ok items, db) = (shown (map model_object items), db)

  -- `ListModels`
  unfoldable pub list_models :
      (List (ModelInfo F) → List (ModelInfo F)) → Db F → Listing (List ModelObject) × Db F
  list_models sort db = show_models (list_all_models sort db)
