-- ===== src/Api/Chat/SpendLimit.antt =====
-- The spending limit that `ChatCompletions` checks, on the tenant that the middleware reads.
use router_x.Base.Float.{Float64}
use router_x.Base.{
  String, Bool, true, false, ◌&&◌, ◌≡◌, ap, Option, none, some, List, [], ◌∷◌, Result, ok, err,
  str_eq,
}
use router_x.Store.Types.{Tenant, ApiKey}
use router_x.Store.Db.{Tables, Db, query_row, find_row, or_no_rows}
use router_x.Store.Tenants.{get_tenant_by_api_key, join_tenant, selected_by_key, has_id}
use router_x.Api.Billing.{over_limit}

module _ {F : Type 0} ⦃fl : Float64 F⦄ where
  abbrev pub Unlimited : Result (Tenant F) → Type 0
  Unlimited (err e) = Unit {0}
  Unlimited (ok t) = over_limit t ≡ false

  -- What holds of every row that a query can find holds of its answer.
  query_row_all :
      (f : Tables F → Option (Tenant F)) (tb : Tables F) (outages : List Bool)
      → Unlimited (or_no_rows (f tb))
      → Unlimited (query_row f (record { tables = tb; outages = outages })).0
  unfolding query_row
  query_row_all f tb [] u = u
  query_row_all f tb (true ∷ bs) u = tt
  query_row_all f tb (false ∷ bs) u = u

  selected-Unlimited :
      (o : Option (Tenant F))
      → fl.lt fl.zero_f fl.zero_f ≡ false
      → Unlimited (or_no_rows (elim o [ none ↦ none | some t ↦ some (selected_by_key t) ]))
  selected-Unlimited none irrefl = tt
  selected-Unlimited (some t) irrefl = ap (λ b. b && fl.le fl.zero_f t.total_spent_usd) irrefl

  -- The tenant of an API key, as the middleware reads it, is never over its spending limit, whatever
  -- limit its row has: the query leaves the limit at zero. Zero is taken not to be less than itself.
  pub spend_limit_ignored :
      (key : String) (db : Db F)
      → fl.lt fl.zero_f fl.zero_f ≡ false
      → Unlimited (get_tenant_by_api_key key db).0
  unfolding get_tenant_by_api_key
  spend_limit_ignored key db irrefl =
      query_row_all _ db.tables db.outages
        (elim (find_row (λ (k : ApiKey). str_eq k.key key) db.tables.api_keys)
          as (λ o. Unlimited (or_no_rows (join_tenant db.tables o))) [
            | none ↦ tt
            | some k ↦ selected-Unlimited (find_row (has_id k.tenant_id) db.tables.tenants) irrefl
          ])
