-- ===== src/Tests/Stats.antt =====
-- The theorems on statistics, at the log of one tenant.
use mathlib.Core.List.Permᴰ
use router_x.Base.Int.{pos, ◌+ℤ◌}
use router_x.Base.Float.{Micros, micros_float}
use router_x.Base.{ℕ, false, some, [], ◌∷◌, ◌≡◌, IfOk, arith, map}
use router_x.Store.Db.{RequestLog, Tables, healthy}
use router_x.Store.Providers.{loaded}
use router_x.Store.Stats.{TenantRequestSummary, Orders, get_tenant_request_summary}
use router_x.Store.Stats.Recent.{IsRecent, days_of, recent_days}
use router_x.Store.Stats.Daily.{all_requests, all_tokens, daily_totals}
use router_x.Router.Types.{new_router}
use router_x.Api.Listings.{shown}
use router_x.Api.Stats.{admin_provider_health, reported_of, admin_provider_health_exact}
use router_x.Tests.Data.{working, broken}
use router_x.Tests.Chat.{tables}

-- 1 January 2026, half past ten.
abbrev at_half_past_ten : ℕ
at_half_past_ten = 1_767_263_400_000_000_000

abbrev row : RequestLog Micros
row = record {
  tenant_id = "acme";
  provider = "working";
  model = "gpt-4o";
  latency_ms = 100;
  ttft_ms = 10;
  tokens = pos 12;
  cost_usd = pos 3;
  id = 0;
  prompt_hash = "";
  fallback_used = false;
  status_code = 200;
  error_code = "";
  user_id = "";
  app_title = "";
  app_referer = "";
  created_at = at_half_past_ten;
}

abbrev logged : Tables Micros
logged = record tables { request_logs = row ∷ row ∷ [] }

abbrev orders : Orders Micros
orders = record { by_day = λ ds. ds; by_bucket = λ us. us; by_cost = λ ms. ms }

recent_days_example :
    IfOk
      (λ (s : TenantRequestSummary Micros). IsRecent at_half_past_ten (days_of s.recent))
      (get_tenant_request_summary ◌+ℤ◌ orders at_half_past_ten at_half_past_ten "acme"
        (healthy logged)).0
recent_days_example =
    recent_days ◌+ℤ◌ orders at_half_past_ten at_half_past_ten "acme" (healthy logged) (omega arith)

daily_totals_example :
    IfOk
      (λ (s : TenantRequestSummary Micros).
        (all_requests s.daily ≡ s.total_requests) × (all_tokens s.daily ≡ s.total_tokens))
      (get_tenant_request_summary ◌+ℤ◌ orders at_half_past_ten at_half_past_ten "acme"
        (healthy logged)).0
daily_totals_example =
    daily_totals ◌+ℤ◌ orders at_half_past_ten at_half_past_ten "acme" logged (λ ds. Permᴰ.refl ds)

admin_provider_health_exact_example :
    let db = healthy (record tables { providers = working ∷ broken ∷ [] }) in
    admin_provider_health 5 new_router (λ id. some "healthy") db ≡ (
      shown (
          map
            (reported_of 5 new_router (λ id. some "healthy"))
            (map loaded (working ∷ broken ∷ []))),
      db,
    )
admin_provider_health_exact_example =
    admin_provider_health_exact 5 new_router (λ id. some "healthy")
      (record tables { providers = working ∷ broken ∷ [] })
