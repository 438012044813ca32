-- ===== src/Api/Billing.antt =====
-- The second half of `ChatCompletions` of backend/internal/api/handlers.go: the cost of a routed
-- request, its log row and its charge.
use router_x.Base.Int.{ℤ, pos, ltb_ℤ}
use router_x.Base.Float.{Float64}
use router_x.Base.{
  ℕ, ◌-◌, ◌/◌, String, Bool, true, false, ◌&&◌, Option, none, some, ok, err, if◌then◌else◌,
}
use router_x.Models.{ChatCompletionRequest}
use router_x.Store.Types.{Tenant}
use router_x.Store.Db.{Db, RequestLog}
use router_x.Store.Tenants.{
  insert_request_log, add_usage_cost, update_tenant_balance, record_transaction,
}
use router_x.Store.Pricing.{get_model_price}
use router_x.Router.Types.{Attempt, RouteError, RouteOptions}
use router_x.Router.Pricing.{cost_at, estimate_cost_usd}
use router_x.Api.Http.{Services}

abbrev pub is_positive : ℤ → Bool
is_positive tokens = ltb_ℤ (pos 0) tokens

abbrev pub is_nil : {X : Type 0} → Option X → Bool
is_nil none = true
is_nil (some e) = false

-- `errCode`
abbrev pub err_code : {X : Type 0} → Option X → String
err_code none = ""
err_code (some e) = "upstream_failed"

abbrev pub millis : ℕ → ℕ
millis d = d / 1_000_000

-- What is known of a request when it is routed.
pub record Job (F : Type 0) : Type 0 where
  pub tenant : Tenant F
  pub request : ChatCompletionRequest F
  pub free_mode : Bool
  pub prompt_hash : String
  pub options : RouteOptions
  pub started : ℕ

module _ {F : Type 0} ⦃fl : Float64 F⦄ where
  -- What the routed request costs its tenant: `:free` costs nothing.
  abbrev pub due : Job F → F → F
  due job cost = if job.free_mode then fl.zero_f else cost

  -- `tenant.SpendLimitUSD > 0 && tenant.TotalSpentUSD >= tenant.SpendLimitUSD`
  abbrev pub over_limit : Tenant F → Bool
  over_limit t = fl.lt fl.zero_f t.spend_limit_usd && fl.le t.spend_limit_usd t.total_spent_usd

module _ {F E : Type 0} ⦃fl : Float64 F⦄ (services : Services F E) where
  open services use {
    now, allow, acquire, release, cache_get, cache_set, route, fire, texts, numeric,
  }

  -- The price of the tokens: from the table of the database, or else built in.
  unfoldable pub cost_of : String → ℤ → Db F → F × Db F
  cost_of model tokens db =
      if is_positive tokens
      then (let (price, db') = get_model_price model db in
          (elim price [ ok p ↦ cost_at p tokens | err e ↦ estimate_cost_usd model tokens ], db'))
      else (fl.zero_f, db)

  -- The three statements of a charge. Their errors are dropped.
  unfoldable pub charge : Job F → String → ℤ → F → ℕ → Db F → Db F
  charge job provider tokens cost at db =
      let t = job.tenant in
      let after = fl.sub t.balance_usd cost in
      let db1 = (add_usage_cost numeric t.id provider job.request.model tokens cost at db).1 in
      let db2 = (update_tenant_balance numeric t.id after db1).1 in
      (record_transaction numeric t.id "charge" (fl.neg cost) after
        (texts.describe_charge provider job.request.model tokens) db2).1

  abbrev pub log_row : Job F → Attempt RouteError → F → ℕ → RequestLog F
  log_row job a cost at = record {
    id = 0;
    tenant_id = job.tenant.id;
    provider = a.provider;
    model = job.request.model;
    latency_ms = millis (at - job.started);
    ttft_ms = millis a.ttft;
    tokens = a.tokens;
    cost_usd = cost;
    prompt_hash = job.prompt_hash;
    fallback_used = a.fallback;
    status_code = if is_nil a.error then 200 else 502;
    error_code = err_code a.error;
    user_id = job.options.user_id;
    app_title = job.options.app_title;
    app_referer = job.options.app_referer;
    created_at = at;
  }

  -- The log row and the charge, once the cost is known.
  unfoldable pub book : Job F → Attempt RouteError → ℕ → F × Db F → F × Db F
  unfolding charge
  book job a at (cost, db) =
      let logged = (insert_request_log numeric (log_row job a cost at) db).1 in
      if is_nil a.error && (is_positive a.tokens && fl.lt fl.zero_f (due job cost))
      then (due job cost, charge job a.provider a.tokens (due job cost) at logged)
      else (due job cost, logged)

  -- From the cost lookup to the charge.
  unfoldable pub account : Job F → Attempt RouteError → ℕ → Db F → F × Db F
  unfolding cost_of book
  account job a at db = book job a at (cost_of job.request.model a.tokens db)
