-- ===== src/Api/Ledger/History.antt =====
-- The ledger after any history of the operations that move money.
use mathlib.Core.Path.{subst}
use router_x.Base.Float.{Float64}
use router_x.Base.{ℕ, String, ◌≡◌, refl, sym, ap, Option, none, some, List, if-split}
use router_x.Store.Types.{Tenant, BalanceTransaction}
use router_x.Store.Db.{Tables, find_row, healthy}
use router_x.Store.Tenants.{has_id, update_tenant_last_active, update_tenant_balance}
use router_x.Store.Users.{create_tenant}
use router_x.Store.Settled.{IsSettled, posted-IsSettled, last_after}
use router_x.Router.Types.{Attempt, RouteError}
use router_x.Api.Http.{Services}
use router_x.Api.Billing.{Job, account, due, cost_of}
use router_x.Api.Chat.Billing.{is_charged, charge_row, billed, account_exact}
use router_x.Api.Tenants.{
  Adjustment, Limits, tenant_topup, admin_adjust_balance, admin_suspend_tenant,
  admin_unsuspend_tenant, admin_update_tenant_limits,
}
use router_x.Api.Ledger.{
  Settled, active-Settled, admin_suspend_tenant-Settled, admin_unsuspend_tenant-Settled,
  admin_update_tenant_limits-Settled, registered-Settled, tenant_topup-Settled,
  admin_adjust_balance-Settled,
}

module _ {F E : Type 0} ⦃fl : Float64 F⦄ (services : Services F E) (describe_topup : F → String)
    (describe_adjustment : F → F → String) where
  open services use {numeric}

  -- One operation on a database that answers, from its first statement to its last with none of another
  -- in between, as the code does not enforce. The tenant of a routed request is the one that the
  -- middleware read, at any time before.
  pub data Operation : Tables F → Tables F → Type 0 where
    routed :
        (tb : Tables F) (job : Job F) (a : Attempt RouteError) (at : ℕ) (owner : Tenant F)
        → find_row (has_id job.tenant.id) tb.tenants ≡ some owner
        → Operation tb (account services job a at (healthy tb)).1.tables
    topped :
        (tb : Tables F) (id : Option String) (amount : Option F)
        → Operation tb (tenant_topup numeric describe_topup id amount (healthy tb)).1.tables
    adjusted :
        (tb : Tables F) (id : String) (p : Option (Adjustment F))
        → Operation tb (admin_adjust_balance numeric describe_adjustment id p (healthy tb)).1.tables
    suspended :
        (tb : Tables F) (id : String) → Operation tb (admin_suspend_tenant id (healthy tb)).1.tables
    unsuspended :
        (tb : Tables F) (id : String)
        → Operation tb (admin_unsuspend_tenant id (healthy tb)).1.tables
    limited :
        (tb : Tables F) (id : String) (p : Option (Limits F))
        → Operation tb (admin_update_tenant_limits numeric id p (healthy tb)).1.tables
    seen :
        (tb : Tables F) (id : String) (at : ℕ)
        → Operation tb (update_tenant_last_active id at (healthy tb)).1.tables
    -- The statements of `AuthRegister` on the tables here: the new row, under an identifier that the
    -- ledger does not have, and its balance set to zero.
    registered :
        (tb : Tables F) (now : ℕ) (id name : String)
        → last_after id tb.transactions ≡ none
        → Operation tb
            (update_tenant_balance numeric id fl.zero_f
              (create_tenant now id name (healthy tb)).1).1.tables

  pub data History (tb : Tables F) : Tables F → Type 0 where
    start : History tb tb
    then : {u v : Tables F} → History tb u → Operation u v → History tb v

  account-Settled :
      (job : Job F) (a : Attempt RouteError) (at : ℕ) (tb : Tables F) (owner : Tenant F)
      → find_row (has_id job.tenant.id) tb.tenants ≡ some owner
      → Settled tb
      → Settled (account services job a at (healthy tb)).1.tables
  account-Settled job a at tb owner found s =
      let cost = (cost_of services job.request.model a.tokens (healthy tb)).0 in
      subst
        (λ (p : List (BalanceTransaction F) × List (Tenant F)).
          (id : String) → IsSettled p.0 p.1 id)
        (sym (ap (λ p. p.1) (account_exact services job a at tb)))
        (if-split
          (λ (p : List (BalanceTransaction F) × List (Tenant F)).
            (id : String) → IsSettled p.0 p.1 id)
          (is_charged services job a cost)
          (posted-IsSettled tb.transactions tb.tenants (charge_row services job a (due job cost))
            (billed services job (due job cost)) owner found (λ t. refl) (λ t. refl) s)
          s)

  Operation-Settled : {u v : Tables F} → Operation u v → Settled u → Settled v
  Operation-Settled (routed tb job a at owner found) s = account-Settled job a at tb owner found s
  Operation-Settled (topped tb id amount) s =
      tenant_topup-Settled numeric describe_topup id amount tb s
  Operation-Settled (adjusted tb id p) s =
      admin_adjust_balance-Settled numeric describe_adjustment id p tb s
  Operation-Settled (suspended tb id) s = admin_suspend_tenant-Settled id tb s
  Operation-Settled (unsuspended tb id) s = admin_unsuspend_tenant-Settled id tb s
  Operation-Settled (limited tb id p) s = admin_update_tenant_limits-Settled numeric id p tb s
  Operation-Settled (seen tb id at) s = active-Settled id at tb s
  Operation-Settled (registered tb now id name fresh) s =
      registered-Settled numeric now id name tb fresh s

  -- The ledger is settled after every sequential history: whatever the order of routed requests, top-ups,
  -- adjustments, registrations and the rest, and however old the balances that the requests started
  -- from, each tenant that has rows in the ledger has exactly the balance that the last of them names.
  -- The conditions are operations whose statements run together, with none of another operation between
  -- them, a database that answers, and a start at which the balances agree with the ledger.
  pub History-Settled : (u v : Tables F) → History u v → Settled u → Settled v
  History-Settled u v start s = s
  History-Settled u v (then h op) s = Operation-Settled op (History-Settled u _ h s)
