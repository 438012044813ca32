-- ===== src/Api/Ledger.antt =====
-- The balances and the ledger over histories of the handlers and statements that change either:
-- `ChatCompletions` from the cost of a routed request on, `TenantTopup`, `AdminAdjustBalance`,
-- the handlers on a tenant's state, and the registration of a tenant, on a database that answers.
pub mod History
use mathlib.Core.Path.{subst}
use router_x.Base.Int.{ℤ}
use router_x.Base.Float.{Float64}
use router_x.Base.{
  ℕ, String, Bool, true, false, ◌≡◌, refl, sym, inl, inr, Option, none, some, [], ◌∷◌, ◌++◌, Result,
  ok, err, is_empty, if-split, Option-cases, Bool-cases, if◌then◌else◌,
}
use router_x.Store.Types.{Tenant, BalanceTransaction}
use router_x.Store.Db.{Tables, Db, find_row, healthy, exec, query_row}
use router_x.Store.Tenants.{
  has_id, change_tenant, get_tenant_by_id, update_tenant_balance, record_transaction, add_topup,
  update_tenant_last_active, suspend_tenant, update_tenant_limits,
}
use router_x.Store.Queries.{query_row-eq-ok}
use router_x.Store.Users.{create_tenant}
use router_x.Store.Ledger.{update_rows-update_rows}
use router_x.Store.Settled.{
  IsSettled, posted-IsSettled, kept-IsSettled, upserted-IsSettled, unposted-IsSettled, last_after,
}
use router_x.Api.Tenants.{
  Adjustment, Limits, tenant_topup, admin_adjust_balance, admin_suspend_tenant,
  admin_unsuspend_tenant, admin_update_tenant_limits, adjust, adjusted, TenantBody, status_ok,
  report,
}
use router_x.Api.Tenants.Balance.{topup_row, credited, tenant_topup_exact}

module _ {F : Type 0} where
  -- Every tenant that has rows in the ledger has the balance that the last of them names.
  abbrev pub Settled : Tables F → Type 0
  Settled tb = (id : String) → IsSettled tb.transactions tb.tenants id

  abbrev SettledAfter : {X : Type 0} → X × Db F → Type 0
  SettledAfter (x, db) = Settled db.tables

  -- Some statement on one tenant's row that moves no balance.
  changed-Settled :
      (owner : String) (f : Tenant F → Tenant F) (tb : Tables F)
      → ((t : Tenant F) → (f t).id ≡ t.id)
      → ((t : Tenant F) → (f t).balance_usd ≡ t.balance_usd)
      → Settled tb
      → Settled (exec (change_tenant owner f) (healthy tb)).1.tables
  unfolding exec change_tenant
  changed-Settled owner f tb keeps leaves s =
      kept-IsSettled tb.transactions tb.tenants owner f keeps leaves s

  active-Settled :
      (id : String) (at : ℕ) (tb : Tables F)
      → Settled tb
      → Settled (update_tenant_last_active id at (healthy tb)).1.tables
  unfolding update_tenant_last_active
  active-Settled id at tb s = changed-Settled id _ tb (λ t. refl) (λ t. refl) s

  suspend-Settled :
      (id : String) (suspended : Bool) (tb : Tables F)
      → Settled tb
      → Settled (suspend_tenant id suspended (healthy tb)).1.tables
  unfolding suspend_tenant
  suspend-Settled id suspended tb s = changed-Settled id _ tb (λ t. refl) (λ t. refl) s

  limits-Settled :
      (numeric : F → F) (id : String) (rpm : ℤ) (limit : F) (tb : Tables F)
      → Settled tb
      → Settled (update_tenant_limits numeric id rpm limit (healthy tb)).1.tables
  unfolding update_tenant_limits
  limits-Settled numeric id rpm limit tb s = changed-Settled id _ tb (λ t. refl) (λ t. refl) s

  report-Settled :
      (text : String) (body : TenantBody F) (x : Result (Unit {0}) × Db F)
      → Settled x.1.tables
      → Settled (report text body x).1.tables
  report-Settled text body (ok u, db) s = s
  report-Settled text body (err e, db) s = s

  admin_suspend_tenant-Settled :
      (id : String) (tb : Tables F)
      → Settled tb
      → Settled (admin_suspend_tenant id (healthy tb)).1.tables
  unfolding admin_suspend_tenant
  admin_suspend_tenant-Settled id tb s =
      if-split SettledAfter (is_empty id) s
        (report-Settled "failed to suspend tenant" status_ok _ (suspend-Settled id true tb s))

  admin_unsuspend_tenant-Settled :
      (id : String) (tb : Tables F)
      → Settled tb
      → Settled (admin_unsuspend_tenant id (healthy tb)).1.tables
  unfolding admin_unsuspend_tenant
  admin_unsuspend_tenant-Settled id tb s =
      if-split SettledAfter (is_empty id) s
        (report-Settled "failed to unsuspend tenant" status_ok _ (suspend-Settled id false tb s))

  admin_update_tenant_limits-Settled :
      (numeric : F → F) (id : String) (p : Option (Limits F)) (tb : Tables F)
      → Settled tb
      → Settled (admin_update_tenant_limits numeric id p (healthy tb)).1.tables
  unfolding admin_update_tenant_limits
  admin_update_tenant_limits-Settled numeric id none tb s = if-split SettledAfter (is_empty id) s s
  admin_update_tenant_limits-Settled numeric id (some p) tb s =
      if-split SettledAfter (is_empty id) s (
        report-Settled "failed to update limits" status_ok _
          (limits-Settled numeric id p.rate_limit_rpm p.spend_limit_usd tb s))

module _ {F : Type 0} ⦃fl : Float64 F⦄ where
  create_tenant-Settled :
      (now : ℕ) (id name : String) (tb : Tables F)
      → Settled tb
      → Settled (create_tenant now id name (healthy tb)).1.tables
  unfolding create_tenant exec
  create_tenant-Settled now id name tb s =
      upserted-IsSettled tb.transactions tb.tenants id _ _ (λ t. refl) (λ t. refl) s

  registered-Settled :
      (numeric : F → F) (now : ℕ) (id name : String) (tb : Tables F)
      → last_after id tb.transactions ≡ none
      → Settled tb
      → Settled
          (update_tenant_balance numeric id fl.zero_f
            (create_tenant now id name (healthy tb)).1).1.tables
  unfolding create_tenant update_tenant_balance exec change_tenant
  registered-Settled numeric now id name tb fresh s =
      unposted-IsSettled tb.transactions _ id _ fresh (λ t. refl)
        (upserted-IsSettled tb.transactions tb.tenants id _ _ (λ t. refl) (λ t. refl) s)

  module _ (numeric : F → F) (describe_topup : F → String) where
    top_up-refused :
        (id : String) (amount : F) (tb : Tables F)
        → find_row (has_id id) tb.tenants ≡ none
        → (tenant_topup numeric describe_topup (some id) (some amount) (healthy tb)).1 ≡ healthy tb
    unfolding tenant_topup get_tenant_by_id query_row
    top_up-refused id amount tb absent = elim (Bool-cases (fl.le amount fl.zero_f)) [
      | inl e ↦ rw e refl
      | inr e ↦ rw (e, absent) refl
    ]

    not_positive-refused :
        (id : String) (amount : F) (tb : Tables F)
        → fl.le amount fl.zero_f ≡ true
        → (tenant_topup numeric describe_topup (some id) (some amount) (healthy tb)).1 ≡ healthy tb
    unfolding tenant_topup
    not_positive-refused id amount tb e = rw e refl

    topup-Settled :
        (id : String) (amount : F) (tb : Tables F)
        → Settled tb
        → Settled
            (tenant_topup numeric describe_topup (some id) (some amount) (healthy tb)).1.tables
    topup-Settled id amount tb s = elim (Bool-cases (fl.le amount fl.zero_f)) [
      | inl e ↦ rw (not_positive-refused id amount tb e) s
      | inr e ↦ elim (Option-cases (find_row (has_id id) tb.tenants)) [
        | inl absent ↦ rw (top_up-refused id amount tb absent) s
        | inr (t, found) ↦
            let new = fl.add t.balance_usd amount in
            subst SettledAfter
              (sym (tenant_topup_exact numeric describe_topup id amount t tb e found))
              (posted-IsSettled tb.transactions tb.tenants
                (topup_row numeric describe_topup id amount new)
                (credited numeric describe_topup amount new) t found (λ u. refl) (λ u. refl) s)
      ]
    ]

    tenant_topup-Settled :
        (id : Option String) (amount : Option F) (tb : Tables F)
        → Settled tb
        → Settled (tenant_topup numeric describe_topup id amount (healthy tb)).1.tables
    unfolding tenant_topup
    tenant_topup-Settled none amount tb s = s
    tenant_topup-Settled (some id) none tb s = s
    tenant_topup-Settled (some id) (some amount) tb s = topup-Settled id amount tb s

  module _ (numeric : F → F) (describe : F → F → String) where
    -- The row of the ledger for an adjustment.
    abbrev adjust_row : String → Adjustment F → F → BalanceTransaction F
    adjust_row id p old = record {
      tenant_id = id;
      type = "adjustment";
      amount_usd = numeric (fl.sub p.balance_usd old);
      balance_after = numeric p.balance_usd;
      description = if is_empty p.description then describe old p.balance_usd else p.description;
    }

    adjusted-Settled :
        (id : String) (p : Adjustment F) (t : Tenant F) (tb : Tables F)
        → find_row (has_id id) tb.tenants ≡ some t
        → Settled tb
        → SettledAfter (
            adjusted numeric describe id p t.balance_usd
              (update_tenant_balance numeric id p.balance_usd (healthy tb)))
    unfolding update_tenant_balance record_transaction add_topup exec change_tenant
    adjusted-Settled id p t tb found s =
        let old = t.balance_usd in
        let row = adjust_row id p old in
        let set = λ (u : Tenant F). record u { balance_usd = numeric p.balance_usd } in
        let raise = λ (u : Tenant F). record u {
          total_topup_usd = numeric (fl.add u.total_topup_usd (fl.sub p.balance_usd old));
        } in
        if-split
          (λ (db : Db F).
            Settled
              (record_transaction numeric id "adjustment" (fl.sub p.balance_usd old) p.balance_usd
                row.description db).1.tables)
          (fl.lt fl.zero_f (fl.sub p.balance_usd old))
          (subst (λ ts. (x : String) → IsSettled (tb.transactions ++ row ∷ []) ts x)
            (sym (update_rows-update_rows (has_id id) raise set tb.tenants (λ u. refl)))
            (posted-IsSettled tb.transactions tb.tenants row (λ u. raise (set u)) t found
              (λ u. refl) (λ u. refl) s))
          (posted-IsSettled tb.transactions tb.tenants row set t found (λ u. refl) (λ u. refl) s)

    adjust-Settled :
        (id : String) (p : Adjustment F) (tb : Tables F) (x : Result (Tenant F))
        → ((t : Tenant F) → x ≡ ok t → find_row (has_id id) tb.tenants ≡ some t)
        → Settled tb
        → SettledAfter (adjust numeric describe id p (x, healthy tb))
    adjust-Settled id p tb (err e) at s = s
    adjust-Settled id p tb (ok t) at s = adjusted-Settled id p t tb (at t refl) s

    found_tenant :
        (id : String) (tb : Tables F) (t : Tenant F)
        → (get_tenant_by_id id (healthy tb)).0 ≡ ok t
        → find_row (has_id id) tb.tenants ≡ some t
    unfolding get_tenant_by_id
    found_tenant id tb t h = query_row-eq-ok _ (healthy tb) t h

    admin_adjust_balance-Settled :
        (id : String) (p : Option (Adjustment F)) (tb : Tables F)
        → Settled tb
        → Settled (admin_adjust_balance numeric describe id p (healthy tb)).1.tables
    unfolding admin_adjust_balance get_tenant_by_id query_row
    admin_adjust_balance-Settled id none tb s = if-split SettledAfter (is_empty id) s s
    admin_adjust_balance-Settled id (some p) tb s =
        if-split SettledAfter (is_empty id) s (adjust-Settled id p tb _ (found_tenant id tb) s)
