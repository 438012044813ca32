-- ===== src/Api/Rules.antt =====
-- `AdminCreateRoutingRule` and `AdminUpdateRoutingRule` of backend/internal/api/handlers.go. A body that
-- does not decode is `none`.
pub mod Secondary
use router_x.Base.{
  ℕ, String, ◌||◌, Bool, Option, none, some, Result, ok, err, is_empty, if◌then◌else◌,
}
use router_x.Store.Types.{RoutingRule}
use router_x.Store.Db.{Db}
use router_x.Store.Rules.{upsert_routing_rule}

pub data RuleBody : Type 0 where
  message : String → RuleBody
  status_ok : RuleBody
  created : RoutingRule → RuleBody

pub record RuleAnswer : Type 0 where
  pub status : ℕ
  pub body : RuleBody

abbrev pub reject : ℕ → String → RuleAnswer
reject status text = record { status = status; body = message text }

-- The payload of both.
pub record NewRule : Type 0 where
  pub tenant_id : String
  pub capability : String
  pub primary_provider_id : String
  pub secondary_provider_id : String
  pub model : String

abbrev pub rule_of : String → NewRule → RoutingRule
rule_of id p = record {
  id = id;
  tenant_id = p.tenant_id;
  capability = p.capability;
  primary_provider_id = p.primary_provider_id;
  secondary_provider_id = p.secondary_provider_id;
  model = p.model;
}

abbrev pub lacks_field : NewRule → Bool
lacks_field p =
    is_empty p.tenant_id
    || (is_empty p.capability || (is_empty p.primary_provider_id || is_empty p.model))

module _ {F : Type 0} where
  abbrev pub report : String → RuleBody → Result (Unit {0}) × Db F → RuleAnswer × Db F
  report text body (ok u, db) = (record { status = 200; body = body }, db)
  report text body (err e, db) = (reject 500 text, db)

  -- `AdminCreateRoutingRule`, with a new identifier.
  unfoldable pub admin_create_routing_rule : String → Option NewRule → Db F → RuleAnswer × Db F
  admin_create_routing_rule id none db = (reject 400 "invalid json", db)
  admin_create_routing_rule id (some p) db =
      if lacks_field p
      then (reject 400 "tenant_id, capability, primary_provider_id, model required", db)
      else report "failed to create rule" (created (rule_of id p))
          (upsert_routing_rule (rule_of id p) db)

  -- `AdminUpdateRoutingRule`
  unfoldable pub admin_update_routing_rule : String → Option NewRule → Db F → RuleAnswer × Db F
  admin_update_routing_rule id none db =
      if is_empty id then (reject 400 "missing rule id", db) else (reject 400 "invalid json", db)
  admin_update_routing_rule id (some p) db =
      if is_empty id
      then (reject 400 "missing rule id", db)
      else report "failed to update rule" status_ok (upsert_routing_rule (rule_of id p) db)
