-- ===== src/Api/Rules/Secondary.antt =====
-- Routing rules without a secondary provider.
use router_x.Base.{
  if-split, String, Bool, true, false, ◌≡◌, refl, ap, ◌∙◌, some, List, [], ◌∷◌, Result, ok, err,
  arith, anyb, is_empty,
}
use router_x.Store.Types.{RoutingRule}
use router_x.Store.Db.{Tables, Db, exec_checked, db_down}
use router_x.Store.Providers.{has_provider_id}
use router_x.Store.Rules.{put_rule, upsert_routing_rule}
use router_x.Api.Rules.{
  NewRule, RuleBody, created, reject, lacks_field, rule_of, report, admin_create_routing_rule,
}

module _ {F : Type 0} where
  -- An error, and the tables as they were.
  abbrev IsRefused : Result (Unit {0}) × Db F → Tables F → Type 0
  IsRefused r tables = (e : String) × (r.0 ≡ err e) × (r.1.tables ≡ tables)

  exec_checked-IsRefused :
      (f : Tables F → Result (Tables F)) (m : String) (tables : Tables F) (outages : List Bool)
      → f tables ≡ err m
      → IsRefused (exec_checked f (record { tables = tables; outages = outages })) tables
  unfolding exec_checked
  exec_checked-IsRefused f m tables [] h = rw h (m, refl, refl)
  exec_checked-IsRefused f m tables (true ∷ rest) h = (db_down, refl, refl)
  exec_checked-IsRefused f m tables (false ∷ rest) h = rw h (m, refl, refl)

  put_rule-refused :
      (r : RoutingRule) (tables : Tables F)
      → anyb (has_provider_id r.secondary_provider_id) tables.providers ≡ false
      → put_rule r tables ≡ err "insert or update violates foreign key constraint"
  put_rule-refused r tables h = ground arith

  upsert_routing_rule-IsRefused :
      (r : RoutingRule) (db : Db F)
      → anyb (has_provider_id r.secondary_provider_id) db.tables.providers ≡ false
      → IsRefused (upsert_routing_rule r db) db.tables
  unfolding upsert_routing_rule
  upsert_routing_rule-IsRefused r db h =
      if-split (λ x. IsRefused x db.tables) (is_empty r.tenant_id)
        ("tenant_id required", refl, refl)
        (exec_checked-IsRefused (put_rule r) _ db.tables db.outages
          (put_rule-refused r db.tables h))

  report-refused :
      (text : String) (body : RuleBody) (x : Result (Unit {0}) × Db F) (tables : Tables F)
      → IsRefused x tables
      → ((report text body x).0 ≡ reject 500 text) × ((report text body x).1.tables ≡ tables)
  report-refused text body (ok u, db) tables (e, h, same) = cc
  report-refused text body (err m, db) tables (e, h, same) = (refl, same)

  -- A routing rule that names no secondary provider cannot be created, unless a provider has the empty
  -- identifier: the handler answers with status 500, and the tables stay as they are. The payload has the
  -- four fields that the handler asks for.
  pub admin_create_routing_rule_alone :
      (id : String) (p : NewRule) (db : Db F)
      → lacks_field p ≡ false
      → p.secondary_provider_id ≡ ""
      → anyb (has_provider_id "") db.tables.providers ≡ false
      → let (answer, after) = admin_create_routing_rule id (some p) db in
        (answer ≡ reject 500 "failed to create rule") × (after.tables ≡ db.tables)
  unfolding admin_create_routing_rule
  admin_create_routing_rule_alone id p db given alone h = rw given (
      report-refused "failed to create rule" (created (rule_of id p)) _ db.tables (
        upsert_routing_rule-IsRefused (rule_of id p) db
          (ap (λ x. anyb (has_provider_id x) db.tables.providers) alone ∙ h)))
