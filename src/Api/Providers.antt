-- ===== src/Api/Providers.antt =====
-- Handlers of backend/internal/api/handlers.go that change providers, the model catalog and routing
-- rules. A body that does not decode is `none`.
pub mod Keys
use router_x.Base.{
  ℕ, String, Bool, false, ◌||◌, Option, none, some, Result, ok, err, is_empty, if◌then◌else◌,
}
use router_x.Store.Types.{Provider}
use router_x.Store.Db.{Db}
use router_x.Store.Providers.{
  get_provider_by_id, upsert_provider, update_provider, update_provider_api_key,
  delete_routing_rule, add_model_catalog, delete_model_catalog,
}

pub data AdminBody : Type 0 where
  message : String → AdminBody
  status_ok : AdminBody
  created : Provider → AdminBody

pub record AdminAnswer : Type 0 where
  pub status : ℕ
  pub body : AdminBody

abbrev pub reject : ℕ → String → AdminAnswer
reject status text = record { status = status; body = message text }

-- The payload of `AdminUpdateProvider`.
pub record ProviderUpdate : Type 0 where
  pub base_url : String
  pub api_key : String
  pub default_model : String
  pub supports_text : Bool
  pub supports_vision : Bool
  pub enabled : Bool

-- The payload of `AdminCreateProvider`.
pub record NewProvider : Type 0 where
  pub name : String
  pub type : String
  pub settings : ProviderUpdate

-- The provider that a payload describes. The struct's field for the presence of a key stays false.
abbrev pub described : String → String → String → ProviderUpdate → String → Provider
described id name type u key = record {
  id = id;
  name = name;
  type = type;
  base_url = u.base_url;
  api_key = key;
  has_api_key = false;
  default_model = u.default_model;
  supports_text = u.supports_text;
  supports_vision = u.supports_vision;
  enabled = u.enabled;
}

module _ {F : Type 0} where
  abbrev pub report : String → AdminBody → Result (Unit {0}) × Db F → AdminAnswer × Db F
  report text body (ok u, db) = (record { status = 200; body = body }, db)
  report text body (err e, db) = (reject 500 text, db)

  -- An empty key in the payload keeps the key that is stored, if it can be read.
  abbrev pub kept_key : Result Provider × Db F → String × Db F
  kept_key (ok p, db) = (p.api_key, db)
  kept_key (err e, db) = ("", db)

  abbrev pub effective_key : String → String → Db F → String × Db F
  effective_key id key db = if is_empty key then kept_key (get_provider_by_id id db) else (key, db)

  abbrev pub write_update : String → ProviderUpdate → String × Db F → AdminAnswer × Db F
  write_update id u (key, db) =
      report "failed to update provider" status_ok (update_provider (described id "" "" u key) db)

  -- `AdminUpdateProvider`
  unfoldable pub admin_update_provider : String → Option ProviderUpdate → Db F → AdminAnswer × Db F
  admin_update_provider id none db =
      if is_empty id
      then (reject 400 "missing provider id", db)
      else (reject 400 "invalid json", db)
  admin_update_provider id (some u) db =
      if is_empty id
      then (reject 400 "missing provider id", db)
      else write_update id u (effective_key id u.api_key db)

  -- `AdminClearProviderKey`
  unfoldable pub admin_clear_provider_key : String → Db F → AdminAnswer × Db F
  admin_clear_provider_key id db =
      if is_empty id
      then (reject 400 "missing provider id", db)
      else report "failed to clear api key" status_ok (update_provider_api_key id "" db)

  -- `AdminCreateProvider`, with a new identifier.
  unfoldable pub admin_create_provider : String → Option NewProvider → Db F → AdminAnswer × Db F
  admin_create_provider id none db = (reject 400 "invalid json", db)
  admin_create_provider id (some n) db =
      let type = if is_empty n.type then "generic-openai" else n.type in
      let p = described id n.name type n.settings n.settings.api_key in
      report "failed to create provider" (created p) (upsert_provider p db)

  -- `AdminAddModel`
  unfoldable pub admin_add_model : Option (String × String) → Db F → AdminAnswer × Db F
  admin_add_model none db = (reject 400 "invalid json", db)
  admin_add_model (some (model, type)) db =
      if is_empty model || is_empty type
      then (reject 400 "model and provider_type required", db)
      else report "failed to add model" status_ok (add_model_catalog model type db)

  -- `AdminDeleteModel`
  unfoldable pub admin_delete_model : String → Db F → AdminAnswer × Db F
  admin_delete_model model db =
      if is_empty model
      then (reject 400 "missing model", db)
      else report "failed to delete model" status_ok (delete_model_catalog model db)

  -- `AdminDeleteRoutingRule`
  unfoldable pub admin_delete_routing_rule : String → Db F → AdminAnswer × Db F
  admin_delete_routing_rule id db =
      if is_empty id
      then (reject 400 "missing rule id", db)
      else report "failed to delete rule" status_ok (delete_routing_rule id db)
