-- ===== src/Store/Listings.antt =====
-- The methods of `Store` that list the rows of a table. `sort` is the `ORDER BY` of the statement.
use router_x.Base.Int.{ℤ, pos, ltb_ℤ, pos_part}
use router_x.Base.Float.{Float64}
use router_x.Base.{
  ℕ, String, Option, none, some, List, Result, str_eq, filterb, map, take, if◌then◌else◌,
}
use router_x.Store.Types.{
  Tenant, ApiKey, Provider, RoutingRule, ModelPricing, ModelCatalog, BalanceTransaction, Webhook,
}
use router_x.Store.Db.{Db, RequestLog, query_row, find_row}
use router_x.Store.Providers.{get_providers}
use router_x.Store.Logs.{selected_columns}

pub record ModelInfo (F : Type 0) : Type 0 where
  pub model : String
  pub provider_type : String
  pub price_per_1k : F

abbrev price_or : {F : Type 0} → F → Option (ModelPricing F) → F
price_or zero none = zero
price_or zero (some m) = m.price_per_1k_usd

abbrev with_price : {F : Type 0} → F → List (ModelPricing F) → ModelCatalog → ModelInfo F
with_price zero prices m = record {
  model = m.model;
  provider_type = m.provider_type;
  price_per_1k = price_or zero (find_row (λ (p : ModelPricing _). str_eq p.model m.model) prices);
}

abbrev pub limit_or_100 : ℤ → ℕ
limit_or_100 n = if ltb_ℤ (pos 0) n then pos_part n else 100

module _ {F : Type 0} where
  -- `ListProviders`
  unfoldable pub list_providers : Db F → Result (List Provider) × Db F
  unfolding get_providers
  list_providers = get_providers

  -- `ListRoutingRules`
  unfoldable pub list_routing_rules : Db F → Result (List RoutingRule) × Db F
  list_routing_rules = query_row λ db. some db.routing_rules

  -- `ListRoutingRulesByTenant`
  unfoldable pub list_routing_rules_by_tenant :
      (List RoutingRule → List RoutingRule) → String → Db F → Result (List RoutingRule) × Db F
  list_routing_rules_by_tenant sort id =
      query_row
        λ db. some (sort (filterb (λ (r : RoutingRule). str_eq r.tenant_id id) db.routing_rules))

  -- `ListTenants`
  unfoldable pub list_tenants :
      (List (Tenant F) → List (Tenant F)) → Db F → Result (List (Tenant F)) × Db F
  list_tenants sort = query_row λ db. some (sort db.tenants)

  -- `ListAPIKeysByTenant`
  unfoldable pub list_api_keys_by_tenant :
      (List ApiKey → List ApiKey) → String → Db F → Result (List ApiKey) × Db F
  list_api_keys_by_tenant sort id =
      query_row λ db. some (sort (filterb (λ (k : ApiKey). str_eq k.tenant_id id) db.api_keys))

  -- `ListRequestLogs`, for a limit that is not negative.
  unfoldable pub list_request_logs :
      (List (RequestLog F) → List (RequestLog F)) → ℕ → Db F → Result (List (RequestLog F)) × Db F
  list_request_logs sort limit =
      query_row λ db. some (map selected_columns (take limit (sort db.request_logs)))

  -- `ListModelPricing`
  unfoldable pub list_model_pricing :
      (List (ModelPricing F) → List (ModelPricing F)) → Db F → Result (List (ModelPricing F)) × Db F
  list_model_pricing sort = query_row λ db. some (sort db.model_pricing)

  -- `ListModelsByProviderType`
  unfoldable pub list_models_by_provider_type :
      (List String → List String) → String → Db F → Result (List String) × Db F
  list_models_by_provider_type sort type = query_row λ db. some (
      sort (
        map (λ (m : ModelCatalog). m.model)
          (filterb (λ (m : ModelCatalog). str_eq m.provider_type type) db.model_catalog)))

  -- `ListTransactions`
  unfoldable pub list_transactions :
      (List (BalanceTransaction F) → List (BalanceTransaction F))
      → String
      → ℤ
      → Db F
      → Result (List (BalanceTransaction F)) × Db F
  list_transactions sort id limit = query_row λ db. some (
      take (limit_or_100 limit)
        (sort (filterb (λ (t : BalanceTransaction F). str_eq t.tenant_id id) db.transactions)))

  -- `ListWebhooks`
  unfoldable pub list_webhooks : (List Webhook → List Webhook) → Db F → Result (List Webhook) × Db F
  list_webhooks sort = query_row λ db. some (sort db.webhooks)

module _ {F : Type 0} ⦃fl : Float64 F⦄ where
  -- `ListAllModels`
  unfoldable pub list_all_models :
      (List (ModelInfo F) → List (ModelInfo F)) → Db F → Result (List (ModelInfo F)) × Db F
  list_all_models sort =
      query_row λ db. some (sort (map (with_price fl.zero_f db.model_pricing) db.model_catalog))
