-- ===== src/Store/Providers.antt =====
-- The methods of `Store` on providers, the model catalog and routing rules.
use router_x.Base.{
  String, Bool, not, ◌&&◌, Option, none, some, List, Result, str_eq, is_empty, filterb,
}
use mathlib.Core.List.{map}
use router_x.Store.Types.{Provider, RoutingRule, ModelCatalog}
use router_x.Store.Db.{Tables, Db, exec, query_row, find_row, update_rows, upsert_row}

abbrev pub has_provider_id : String → Provider → Bool
has_provider_id id p = str_eq p.id id

-- `p.HasAPIKey = p.APIKey != ""`
abbrev pub loaded : Provider → Provider
loaded p = record p { has_api_key = not (is_empty p.api_key) }

abbrev pub load_found : Option Provider → Option Provider
load_found none = none
load_found (some p) = some (loaded p)

abbrev pub is_offered : String → Provider → Bool
is_offered type p = str_eq p.type type && p.enabled

abbrev catalog_type : Option ModelCatalog → Option String
catalog_type none = none
catalog_type (some m) = some m.provider_type

abbrev pub change_provider : {F : Type 0} → String → (Provider → Provider) → Tables F → Tables F
change_provider id f db = record db { providers = update_rows (has_provider_id id) f db.providers }

module _ {F : Type 0} where
  -- `GetProviders`
  unfoldable pub get_providers : Db F → Result (List Provider) × Db F
  get_providers = query_row λ db. some (map loaded db.providers)

  -- `GetProviderByID`
  unfoldable pub get_provider_by_id : String → Db F → Result Provider × Db F
  get_provider_by_id id = query_row λ db. load_found (find_row (has_provider_id id) db.providers)

  -- `GetEnabledProvidersByType`
  unfoldable pub get_enabled_providers_by_type : String → Db F → Result (List Provider) × Db F
  get_enabled_providers_by_type type =
      query_row λ db. some (map loaded (filterb (is_offered type) db.providers))

  -- `UpsertProvider`
  unfoldable pub upsert_provider : Provider → Db F → Result (Unit {0}) × Db F
  upsert_provider p =
      exec λ db. record db { providers = upsert_row (has_provider_id p.id) (λ q. p) p db.providers }

  -- `UpdateProvider`: the name and the type stay.
  unfoldable pub update_provider : Provider → Db F → Result (Unit {0}) × Db F
  update_provider p = exec (
      change_provider p.id λ q. record q {
        base_url = p.base_url;
        api_key = p.api_key;
        default_model = p.default_model;
        supports_text = p.supports_text;
        supports_vision = p.supports_vision;
        enabled = p.enabled;
      })

  -- `UpdateProviderAPIKey`
  unfoldable pub update_provider_api_key : String → String → Db F → Result (Unit {0}) × Db F
  update_provider_api_key id key = exec (change_provider id λ q. record q { api_key = key })

  -- `GetRoutingRule`: of several rules, the first.
  unfoldable pub get_routing_rule : String → String → Db F → Result RoutingRule × Db F
  get_routing_rule tenant_id capability = query_row λ db.
      find_row (λ (r : RoutingRule). str_eq r.tenant_id tenant_id && str_eq r.capability capability)
        db.routing_rules

  -- `DeleteRoutingRule`
  unfoldable pub delete_routing_rule : String → Db F → Result (Unit {0}) × Db F
  delete_routing_rule id = exec λ db. record db {
    routing_rules = filterb (λ (r : RoutingRule). not (str_eq r.id id)) db.routing_rules;
  }

  -- `GetModelProvider`: its Boolean is true exactly where the error is nil.
  unfoldable pub get_model_provider : String → Db F → Result String × Db F
  get_model_provider model =
      query_row
        λ db. catalog_type (find_row (λ (m : ModelCatalog). str_eq m.model model) db.model_catalog)

  -- `AddModelCatalog`
  unfoldable pub add_model_catalog : String → String → Db F → Result (Unit {0}) × Db F
  add_model_catalog model type =
      let row : ModelCatalog = record { model = model; provider_type = type } in
      exec λ db. record db {
        model_catalog =
            upsert_row (λ (m : ModelCatalog). str_eq m.model model) (λ m. row) row db.model_catalog;
      }

  -- `DeleteModelCatalog`
  unfoldable pub delete_model_catalog : String → Db F → Result (Unit {0}) × Db F
  delete_model_catalog model = exec λ db. record db {
    model_catalog = filterb (λ (m : ModelCatalog). not (str_eq m.model model)) db.model_catalog;
  }
