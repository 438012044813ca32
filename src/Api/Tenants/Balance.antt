-- ===== src/Api/Tenants/Balance.antt =====
-- What a top-up leaves in the database.
use router_x.Base.Float.{Float64}
use router_x.Base.{String, false, some, [], ◌∷◌, ◌++◌, ◌≡◌, refl, ap}
use router_x.Store.Types.{Tenant, BalanceTransaction}
use router_x.Store.Db.{Tables, exec, query_row, find_row, update_rows, healthy}
use router_x.Store.Tenants.{
  has_id, change_tenant, get_tenant_by_id, update_tenant_balance, record_transaction, add_topup,
}
use router_x.Store.Ledger.{update_rows-update_rows}
use router_x.Api.Tenants.{tenant_topup, accept, balance}

module _ {F : Type 0} ⦃fl : Float64 F⦄ (numeric : F → F) (describe_topup : F → String) where
  abbrev pub topup_row : String → F → F → BalanceTransaction F
  topup_row id amount new = record {
    tenant_id = id;
    type = "topup";
    amount_usd = numeric amount;
    balance_after = numeric new;
    description = describe_topup amount;
  }

  abbrev pub credited : F → F → Tenant F → Tenant F
  credited amount new t = record t {
    balance_usd = numeric new;
    total_topup_usd = numeric (fl.add t.total_topup_usd amount);
  }

  -- On a database that answers, a top-up of a positive amount by a tenant that exists is accepted:
  -- the balance of that tenant becomes its old balance and the amount, its total of top-ups grows by
  -- the amount, and the ledger has one more row, with the new balance. No other row changes.
  pub tenant_topup_exact :
      (id : String) (amount : F) (t : Tenant F) (tb : Tables F)
      → fl.le amount fl.zero_f ≡ false
      → find_row (has_id id) tb.tenants ≡ some t
      → let new = fl.add t.balance_usd amount in
        tenant_topup numeric describe_topup (some id) (some amount) (healthy tb) ≡ (
          accept (balance new),
          healthy (record tb {
            tenants = update_rows (has_id id) (credited amount new) tb.tenants;
            transactions = tb.transactions ++ topup_row id amount new ∷ [];
          }),
        )
  unfolding tenant_topup get_tenant_by_id update_tenant_balance record_transaction add_topup
      change_tenant exec query_row
  tenant_topup_exact id amount t tb positive found =
      rw (positive, found)
        (ap
          (λ ts. (
            accept (balance (fl.add t.balance_usd amount)),
            healthy (record tb {
              tenants = ts;
              transactions =
                  tb.transactions ++ topup_row id amount (fl.add t.balance_usd amount) ∷ [];
            }),
          ))
          (update_rows-update_rows (has_id id) _ _ tb.tenants λ x. refl))
