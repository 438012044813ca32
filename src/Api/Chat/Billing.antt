-- ===== src/Api/Chat/Billing.antt =====
-- What a routed request leaves in the database.
use router_x.Base.Int.{ℤ}
use router_x.Base.Float.{Float64}
use router_x.Base.{
  ℕ, String, Bool, true, false, ◌&&◌, ◌≡◌, refl, ◌∙◌, ap, List, [], ◌∷◌, ◌++◌, if◌then◌else◌,
}
use router_x.Store.Types.{Tenant, BalanceTransaction}
use router_x.Store.Db.{Tables, Db, RequestLog, exec, query_row, update_rows, healthy}
use router_x.Store.Tenants.{
  has_id, change_tenant, insert_request_log, add_usage_cost, update_tenant_balance,
  record_transaction,
}
use router_x.Store.Pricing.{get_model_price}
use router_x.Store.Ledger.{update_rows-update_rows}
use router_x.Router.Types.{Attempt, RouteError}
use router_x.Api.Http.{Services}
use router_x.Api.Billing.{Job, due, account, cost_of, charge, book, is_nil, is_positive, log_row}

-- A choice between two pairs that share a side.
choice_snd :
    {A B : Type 0}
    → (b : Bool) (x y : A) (d : B) → let p : A × B = if b then (x, d) else (y, d) in p ≡ (p.0, d)
choice_snd true x y d = refl
choice_snd false x y d = refl

-- What a choice between two pairs does to a function of their second sides.
choice_map :
    {A B C D : Type 0}
    → (f : B → C × D) (b : Bool) (x : A) (d e : B) (c : C) (u v : D) → f d ≡ (c, u)
    → f e ≡ (c, v)
    → let p : A × B = if b then (x, d) else (x, e) in
      let q : C × D = (c, (if b then u else v)) in f p.1 ≡ q
choice_map f true x d e c u v p q = p
choice_map f false x d e c u v p q = q

module _ {F E : Type 0} ⦃fl : Float64 F⦄ (services : Services F E) where
  open services use {numeric, texts}

  -- A request is charged when it succeeded, used tokens, and its cost is not zero.
  abbrev pub is_charged : Job F → Attempt RouteError → F → Bool
  is_charged job a cost = is_nil a.error && (is_positive a.tokens && fl.lt fl.zero_f (due job cost))

  -- The row of the ledger for a charge.
  abbrev pub charge_row : Job F → Attempt RouteError → F → BalanceTransaction F
  charge_row job a cost = record {
    tenant_id = job.tenant.id;
    type = "charge";
    amount_usd = numeric (fl.neg cost);
    balance_after = numeric (fl.sub job.tenant.balance_usd cost);
    description = texts.describe_charge a.provider job.request.model a.tokens;
  }

  -- What a charge makes of the tenant's row.
  abbrev pub billed : Job F → F → Tenant F → Tenant F
  billed job cost t = record t {
    balance_usd = numeric (fl.sub job.tenant.balance_usd cost);
    total_spent_usd = numeric (fl.add t.total_spent_usd cost);
  }

  cost_of-healthy :
      (model : String) (tokens : ℤ) (tb : Tables F)
      → cost_of services model tokens (healthy tb)
        ≡ ((cost_of services model tokens (healthy tb)).0, healthy tb)
  unfolding cost_of get_model_price query_row
  cost_of-healthy model tokens tb = choice_snd (is_positive tokens) _ _ (healthy tb)

  -- The three tables that a request touches.
  abbrev pub three : Db F → List (RequestLog F) × (List (BalanceTransaction F) × List (Tenant F))
  three db = (db.tables.request_logs, (db.tables.transactions, db.tables.tenants))

  book_exact :
      (job : Job F) (a : Attempt RouteError) (at : ℕ) (cost : F) (tb : Tables F)
      → three (book services job a at (cost, healthy tb)).1 ≡ (
        tb.request_logs
            ++ record (log_row services job a cost at) { id = tb.next_log; cost_usd = numeric cost }
              ∷ [],
        (if is_charged job a cost
            then (
              tb.transactions ++ charge_row job a (due job cost) ∷ [],
              update_rows (has_id job.tenant.id) (billed job (due job cost)) tb.tenants,
            )
            else (tb.transactions, tb.tenants)),
      )
  unfolding book charge add_usage_cost update_tenant_balance record_transaction insert_request_log
      exec change_tenant
  book_exact job a at cost tb =
      let logs =
        tb.request_logs
        ++ record (log_row services job a cost at) { id = tb.next_log; cost_usd = numeric cost }
          ∷ [] in
      let ledger = tb.transactions ++ charge_row job a (due job cost) ∷ [] in
      let all : List (Tenant F)
          → List (RequestLog F) × (List (BalanceTransaction F) × List (Tenant F)) =
        λ ts. (logs, (ledger, ts)) in
      choice_map three (is_charged job a cost) (due job cost) _ _ _ _ _
        (ap all (update_rows-update_rows (has_id job.tenant.id) _ _ tb.tenants λ x. refl)) refl

  -- On a database that answers, every routed request adds one row to the request log, failed or not.
  -- A request that is charged also adds one row to the ledger, and sets the balance of its tenant to
  -- the balance that this row names; any other request leaves the tenants and the ledger alone.
  pub account_exact :
      (job : Job F) (a : Attempt RouteError) (at : ℕ) (tb : Tables F)
      → let cost = (cost_of services job.request.model a.tokens (healthy tb)).0 in
        three (account services job a at (healthy tb)).1 ≡ (
          tb.request_logs
              ++ record (log_row services job a cost at) {
                id = tb.next_log;
                cost_usd = numeric cost;
              }
                ∷ [],
          (if is_charged job a cost
              then (
                tb.transactions ++ charge_row job a (due job cost) ∷ [],
                update_rows (has_id job.tenant.id) (billed job (due job cost)) tb.tenants,
              )
              else (tb.transactions, tb.tenants)),
        )
  unfolding account
  account_exact job a at tb =
      ap (λ p. three (book services job a at p).1) (cost_of-healthy job.request.model a.tokens tb)
      ∙ book_exact job a at (cost_of services job.request.model a.tokens (healthy tb)).0 tb
