-- ===== src/Api/Stats.antt =====
-- Handlers of backend/internal/api/handlers.go that show statistics and the health of providers.
use router_x.Base.Int.{pos, ltb_ℤ}
use router_x.Base.Float.{Float64}
use router_x.Base.{
  ℕ, String, Bool, not, ◌&&◌, ◌||◌, ◌≡◌, refl, ap, Option, none, some, List, [], ◌∷◌, Result, ok,
  err, lookup, map, take, filterb, str_eq,
}
use router_x.Store.Types.{Provider, TenantUser}
use router_x.Store.Db.{UsageRow, Tables, Db, query_row, healthy}
use router_x.Store.Providers.{loaded, get_providers}
use router_x.Store.Listings.{list_providers}
use router_x.Store.Stats.{
  TenantRequestSummary, ModelUsageSummary, Orders, get_tenant_request_summary, list_model_usage,
}
use router_x.Store.Dashboard.{AdminDashboardStats, Aggregates, get_admin_dashboard_stats}
use router_x.Router.Types.{RouterState, circuit_of}
use router_x.Router.Circuit.{allow}
use router_x.Router.Reports.{
  get_provider_latencies, get_circuit_states, or_false, or_zero, get_circuit_states-circuit_of,
  get_provider_latencies-average, known_average,
}
use router_x.Api.Listings.{Listing, rejected, shown, show_rows}

module _ {F : Type 0} ⦃fl : Float64 F⦄ where
  -- `tokens > 0 OR cost_usd > 0`
  abbrev is_used : UsageRow F → Bool
  is_used u = ltb_ℤ (pos 0) u.tokens || fl.lt fl.zero_f u.cost_usd

  -- `TenantUsage`, for the user of the token, if there is one; `sort` is `ORDER BY day DESC`.
  unfoldable pub tenant_usage :
      (List (UsageRow F) → List (UsageRow F))
      → Option TenantUser
      → Db F
      → Listing (List (UsageRow F)) × Db F
  tenant_usage sort none db = (rejected 401 "missing tenant", db)
  tenant_usage sort (some user) db = show_rows 500 "failed to list usage" (
      query_row
        (λ (t : Tables F). some (
          take 30 (
            sort (
              filterb (λ (u : UsageRow F). str_eq u.tenant_id user.tenant_id && is_used u)
                t.usage_daily))))
        db)

  -- `TenantSummary`
  unfoldable pub tenant_summary :
      (F → F → F)
      → Orders F
      → ℕ
      → ℕ
      → Option TenantUser
      → Db F
      → Listing (TenantRequestSummary F) × Db F
  tenant_summary sum orders sql_now now none db = (rejected 401 "missing tenant", db)
  tenant_summary sum orders sql_now now (some user) db =
      show_rows 500 "failed to load summary"
        (get_tenant_request_summary sum orders sql_now now user.tenant_id db)

  -- `AdminModelUsage`
  unfoldable pub admin_model_usage :
      (F → F → F) → Orders F → Db F → Listing (List (ModelUsageSummary F)) × Db F
  admin_model_usage sum orders db =
      show_rows 500 "failed to list model usage" (list_model_usage sum orders db)

  abbrev show_stats : AdminDashboardStats F × Db F → Listing (AdminDashboardStats F) × Db F
  show_stats (stats, db) = (shown stats, db)

  -- `AdminDashboardStats`
  unfoldable pub admin_dashboard_stats :
      Aggregates F → ℕ → ℕ → Db F → Listing (AdminDashboardStats F) × Db F
  admin_dashboard_stats agg sql_now now db =
      show_stats (get_admin_dashboard_stats agg sql_now now db)

pub record ProviderHealthStatus : Type 0 where
  pub provider_id : String
  pub provider_name : String
  pub type : String
  pub enabled : Bool
  pub health_status : String
  pub circuit_open : Bool
  pub avg_latency_ms : ℕ

abbrev pub or_unknown : Option String → String
or_unknown none = "unknown"
or_unknown (some status) = status

-- One turn of the loop of `AdminProviderHealth`. `noted` is `Redis.Get` of the provider's note: `none`
-- where there is no client, no note or an error.
abbrev pub health_of : ℕ → RouterState → (String → Option String) → Provider → ProviderHealthStatus
health_of now st noted p = record {
  provider_id = p.id;
  provider_name = p.name;
  type = p.type;
  enabled = p.enabled;
  health_status = or_unknown (noted p.id);
  circuit_open = or_false (lookup p.id (get_circuit_states now st));
  avg_latency_ms = or_zero (lookup p.id (get_provider_latencies st));
}

module _ {F : Type 0} (now : ℕ) (st : RouterState) (noted : String → Option String) where
  abbrev show_health : Result (List Provider) × Db F → Listing (List ProviderHealthStatus) × Db F
  show_health (err e, db) = (rejected 500 "failed to list providers", db)
  show_health (ok ps, db) = (shown (map (health_of now st noted) ps), db)

  -- `AdminProviderHealth`
  unfoldable pub admin_provider_health : Db F → Listing (List ProviderHealthStatus) × Db F
  admin_provider_health db = show_health (list_providers db)

-- What the page says of a provider, by the circuit and the latencies that routing itself asks.
abbrev pub reported_of :
    ℕ → RouterState → (String → Option String) → Provider → ProviderHealthStatus
reported_of now st noted p = record {
  provider_id = p.id;
  provider_name = p.name;
  type = p.type;
  enabled = p.enabled;
  health_status = or_unknown (noted p.id);
  circuit_open = not (allow now (circuit_of st p.id));
  avg_latency_ms = known_average st p.id (lookup p.id st.circuits);
}

health_of-reported :
    (now : ℕ) (st : RouterState) (noted : String → Option String) (p : Provider)
    → health_of now st noted p ≡ reported_of now st noted p
health_of-reported now st noted p =
    rw (get_circuit_states-circuit_of now st p.id, get_provider_latencies-average st p.id) refl

map-same :
    {A B : Type 0} → (f g : A → B) (xs : List A) → ((a : A) → f a ≡ g a) → map f xs ≡ map g xs
map-same f g [] h = refl
map-same f g (x ∷ xs) h = rw (h x, map-same f g xs h) refl

-- On a database that answers, the page on the health of the providers has one entry for each row, in
-- the order of the rows: its circuit is shown as open exactly when the guard of an attempt, `Allow`, would
-- refuse a call at that time, also for a provider that has no circuit yet, and its latency is the
-- average that routing compares, in milliseconds, or zero before its first circuit. Whether the
-- provider is enabled or capable is not part of that.
pub admin_provider_health_exact :
    {F : Type 0}
    → (now : ℕ) (st : RouterState) (noted : String → Option String) (tb : Tables F)
    → admin_provider_health now st noted (healthy tb)
      ≡ (shown (map (reported_of now st noted) (map loaded tb.providers)), healthy tb)
unfolding admin_provider_health list_providers get_providers query_row
admin_provider_health_exact now st noted tb =
    ap (λ ps. (shown ps, healthy tb))
      (map-same (health_of now st noted) (reported_of now st noted) (map loaded tb.providers)
        (health_of-reported now st noted))
