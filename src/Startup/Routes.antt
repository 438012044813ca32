-- ===== src/Startup/Routes.antt =====
-- The routes of `main` in backend/cmd/server/main.go, and which handler a request reaches. Package chi
-- is the parameter `pick`; what CORS and the tracing of requests add is left out.
pub mod Guarded
use Prim.Native.String.{◌++◌}
use router_x.Base.Float.{Float64}
use router_x.Base.{ℕ, String, Option, none, some, List, [], ◌∷◌, Result, ok, err, map}
use router_x.Store.Types.{Tenant, TenantUser}
use router_x.Store.Db.{Db}
use router_x.Api.Tenants.{with_api_key}
use router_x.Auth.Tokens.{Jwt, admin_auth, tenant_user_auth}
use mathlib.Core.List

-- The methods of `api.Server` that are registered, and the handler of Prometheus.
pub data Handler : Type 0 where
  health list_models chat_completions embeddings metrics : Handler
  admin_login auth_login auth_register tenant_login : Handler
  admin_dashboard_stats admin_providers admin_create_provider admin_update_provider : Handler
  admin_clear_provider_key admin_provider_health admin_tenants admin_tenant_detail : Handler
  admin_adjust_balance admin_suspend_tenant admin_unsuspend_tenant : Handler
  admin_update_tenant_limits admin_tenant_transactions admin_requests_paginated : Handler
  admin_export_requests_csv admin_delete_request admin_get_generation admin_model_usage : Handler
  admin_list_models admin_add_model admin_delete_model admin_list_model_pricing : Handler
  admin_upsert_model_pricing admin_routing_rules admin_create_routing_rule : Handler
  admin_update_routing_rule admin_delete_routing_rule admin_list_webhooks : Handler
  admin_create_webhook admin_delete_webhook : Handler
  tenant_profile tenant_usage tenant_summary tenant_api_keys tenant_create_api_key : Handler
  tenant_delete_api_key tenant_topup : Handler

-- The middleware of a group.
pub data Guard : Type 0 where
  unguarded api_key admin tenant_user : Guard

pub record Route : Type 0 where
  pub method : String
  pub pattern : String
  pub guard : Guard
  pub handler : Handler

abbrev pub route : String → String → Handler → Route
route method pattern handler = record {
  method = method;
  pattern = pattern;
  guard = unguarded;
  handler = handler;
}

-- `r.Group` with `r.Use`
abbrev pub group : Guard → List Route → List Route
group guard routes = map (λ (r : Route). record r { guard = guard }) routes

-- `router.Route`
abbrev pub mount : String → List Route → List Route
mount prefix routes = map (λ (r : Route). record r { pattern = prefix ++ r.pattern }) routes

abbrev pub admin_routes : List Route
admin_routes =
    route "GET" "/stats" admin_dashboard_stats
    ∷ route "GET" "/providers" admin_providers
    ∷ route "POST" "/providers" admin_create_provider
    ∷ route "PUT" "/providers/{id}" admin_update_provider
    ∷ route "DELETE" "/providers/{id}/api-key" admin_clear_provider_key
    ∷ route "GET" "/provider-health" admin_provider_health
    ∷ route "GET" "/tenants" admin_tenants
    ∷ route "GET" "/tenants/{id}" admin_tenant_detail
    ∷ route "POST" "/tenants/{id}/balance" admin_adjust_balance
    ∷ route "POST" "/tenants/{id}/suspend" admin_suspend_tenant
    ∷ route "POST" "/tenants/{id}/unsuspend" admin_unsuspend_tenant
    ∷ route "PUT" "/tenants/{id}/limits" admin_update_tenant_limits
    ∷ route "GET" "/tenants/{id}/transactions" admin_tenant_transactions
    ∷ route "GET" "/requests" admin_requests_paginated
    ∷ route "GET" "/requests/export" admin_export_requests_csv
    ∷ route "DELETE" "/requests/{id}" admin_delete_request
    ∷ route "GET" "/generation/{id}" admin_get_generation
    ∷ route "GET" "/model-usage" admin_model_usage
    ∷ route "GET" "/models" admin_list_models
    ∷ route "POST" "/models" admin_add_model
    ∷ route "DELETE" "/models/{model}" admin_delete_model
    ∷ route "GET" "/model-pricing" admin_list_model_pricing
    ∷ route "POST" "/model-pricing" admin_upsert_model_pricing
    ∷ route "GET" "/routing-rules" admin_routing_rules
    ∷ route "POST" "/routing-rules" admin_create_routing_rule
    ∷ route "PUT" "/routing-rules/{id}" admin_update_routing_rule
    ∷ route "DELETE" "/routing-rules/{id}" admin_delete_routing_rule
    ∷ route "GET" "/webhooks" admin_list_webhooks
    ∷ route "POST" "/webhooks" admin_create_webhook
    ∷ route "DELETE" "/webhooks/{id}" admin_delete_webhook
    ∷ []

abbrev pub user_routes : List Route
user_routes =
    route "GET" "/profile" tenant_profile
    ∷ route "GET" "/usage" tenant_usage
    ∷ route "GET" "/summary" tenant_summary
    ∷ route "GET" "/api-keys" tenant_api_keys
    ∷ route "POST" "/api-keys" tenant_create_api_key
    ∷ route "DELETE" "/api-keys/{key}" tenant_delete_api_key
    ∷ route "POST" "/topup" tenant_topup
    ∷ []

-- The calls on `router`, in their order. An empty method stands for every method.
unfoldable pub routes : List Route
routes = List.◌++◌ (route "GET" "/health" health ∷ route "" "/metrics" metrics ∷ []) (
    List.◌++◌
      (mount "/v1" (
        route "GET" "/models" list_models
        ∷ group api_key (
            route "POST" "/chat/completions" chat_completions
            ∷ route "POST" "/embeddings" embeddings
            ∷ [])))
      (List.◌++◌ (mount "/admin" (route "POST" "/login" admin_login ∷ group admin admin_routes)) (
        List.◌++◌
          (mount "/auth"
            (route "POST" "/login" auth_login ∷ route "POST" "/register" auth_register ∷ []))
          (mount "/user" (route "POST" "/login" tenant_login ∷ group tenant_user user_routes)))))

-- What the middleware puts into the context of a request.
pub record Context (F : Type 0) : Type 0 where
  pub tenant : Option (Tenant F)
  pub user : Option TenantUser

abbrev pub no_context : {F : Type 0} → Context F
no_context = record { tenant = none; user = none }

-- How a request is answered: chi finds no route, the middleware refuses, or a handler runs.
pub data Arrival (F : Type 0) : Type 0 where
  not_found : Arrival F
  unauthorized : String → Arrival F
  reached : Handler → Context F → Arrival F

module _ {F : Type 0} ⦃fl : Float64 F⦄ (jwt : Jwt) (secret : String) where
  abbrev pub with_key : Result (Tenant F) × Db F → Result (Context F) × Db F
  with_key (err e, db) = (err e, db)
  with_key (ok t, db) = (ok (record no_context { tenant = some t }), db)

  abbrev pub as_admin : Result (Unit {0}) → Result (Context F)
  as_admin (err e) = err e
  as_admin (ok u) = ok no_context

  abbrev pub as_user : Result TenantUser × Db F → Result (Context F) × Db F
  as_user (err e, db) = (err e, db)
  as_user (ok u, db) = (ok (record no_context { user = some u }), db)

  -- The middleware at a time, on the `Authorization` header: the context, or the text of a 401.
  unfoldable pub pass : Guard → ℕ → String → Db F → Result (Context F) × Db F
  pass unguarded now header db = (ok no_context, db)
  pass api_key now header db = with_key (with_api_key now (jwt.bearer header) db)
  pass admin now header db = (as_admin (admin_auth jwt secret now header), db)
  pass tenant_user now header db = as_user (tenant_user_auth jwt secret now header db)

  abbrev pub after_pass : Handler → Result (Context F) × Db F → Arrival F × Db F
  after_pass h (err e, db) = (unauthorized e, db)
  after_pass h (ok c, db) = (reached h c, db)

  abbrev pub serve_route : ℕ → String → Option Route → Db F → Arrival F × Db F
  serve_route now header none db = (not_found, db)
  serve_route now header (some r) db = after_pass r.handler (pass r.guard now header db)

  -- The server up to the handler: `pick` is chi's choice among the routes for a method and a path.
  unfoldable pub serve :
      (String → String → List Route → Option Route)
      → ℕ
      → String
      → String
      → String
      → Db F
      → Arrival F × Db F
  unfolding pass routes
  serve pick now method path header db = serve_route now header (pick method path routes) db
