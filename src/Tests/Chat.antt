-- ===== src/Tests/Chat.antt =====
-- The theorems on the chat handler, at services that only count the slots of each tenant.
use router_x.Base.Int.{ℤ, pos, ◌+ℤ◌, ◌-ℤ◌}
use router_x.Base.Float.{Micros, micros_float}
use router_x.Base.{String, true, false, none, some, [], ◌∷◌, ◌++◌, ◌≡◌, refl, ok, if◌then◌else◌}
use router_x.Models.{no_response}
use router_x.Store.Types.{Tenant, ApiKey}
use router_x.Store.Db.{Tables, healthy, update_rows, find_row}
use router_x.Store.Tenants.{get_tenant_by_api_key, has_id}
use router_x.Router.Types.{Attempt, RouteError, default_route_options}
use router_x.Api.Http.{ChatHttp, Texts, Server, Services}
use router_x.Api.Billing.{Job, account, cost_of, due, log_row}
use router_x.Api.Chat.Slots.{slot}
use router_x.Api.Chat.SpendLimit.{Unlimited, spend_limit_ignored}
use router_x.Api.Chat.Billing.{three, is_charged, charge_row, billed, account_exact}
use router_x.Api.Tenants.{tenant_topup, accept, balance}
use router_x.Api.Tenants.Balance.{credited, topup_row, tenant_topup_exact}
use router_x.Store.Providers.{has_provider_id, get_provider_by_id}
use router_x.Api.Providers.{ProviderUpdate, admin_update_provider}
use router_x.Api.Providers.Keys.{updated, get_provider_by_id-admin_update_provider}
use router_x.Tests.Data.{working, hello, text_json}

abbrev pub texts : Texts
texts = record {
  strip_suffix = λ suffix s. none;
  strip_prefix = λ prefix s. none;
  to_lower = λ s. s;
  split_comma = λ s. s ∷ [];
  prompt_hash = λ s. s;
  describe_charge = λ provider model tokens. provider;
  marshal = λ r. none;
  json = text_json;
}

abbrev pub answered : Attempt RouteError
answered = record {
  response = no_response;
  provider = "openai";
  fallback = false;
  ttft = 7;
  tokens = pos 12;
  error = none;
}

-- How many slots each tenant has taken.
abbrev pub Held : Type 0
Held = String → ℤ

abbrev pub services : Services Micros Held
services = record {
  now = λ e. 0;
  allow = λ id e. (ok true, e);
  acquire = λ id e. (ok true, λ x. e x +ℤ slot x id);
  release = λ id e x. e x -ℤ slot x id;
  cache_get = λ key e. (none, e);
  cache_set = λ key text e. e;
  route = λ id req stream opts s. (answered, s);
  fire = λ event s. s;
  texts = texts;
  numeric = λ a. a;
}

abbrev pub acme : Tenant Micros
acme = record {
  id = "acme";
  name = "Acme";
  balance_usd = pos 5_000_000;
  created_at = 0;
  last_active = none;
  suspended = false;
  total_topup_usd = pos 0;
  total_spent_usd = pos 2_000_000;
  rate_limit_rpm = pos 60;
  spend_limit_usd = pos 1_000_000;
}

abbrev acme_key : ApiKey
acme_key = record {
  key = "sk-1";
  tenant_id = "acme";
  name = "first";
  allowed_models = [];
  created_at = 0;
}

abbrev pub tables : Tables Micros
tables = record {
  tenants = acme ∷ [];
  api_keys = acme_key ∷ [];
  providers = [];
  routing_rules = [];
  model_pricing = [];
  model_catalog = [];
  request_logs = [];
  usage_daily = [];
  transactions = [];
  admin_users = [];
  tenant_users = [];
  webhooks = [];
  next_log = 0;
}

abbrev pub http : ChatHttp Micros
http = record {
  tenant = some acme;
  authorization = "";
  cache = "";
  sort = "";
  byok_key = "";
  provider_only = "";
  provider_ignore = "";
  provider_order = "";
  allow_fallbacks = "";
  user = "";
  title = "";
  referer = "";
  body = some hello;
  flushes = true;
}

abbrev pub server : Server Micros Held
server = record { db = healthy tables; env = λ x. pos 3 }

abbrev pub job : Job Micros
job = record {
  tenant = acme;
  request = hello;
  free_mode = false;
  prompt_hash = "hash";
  options = default_route_options;
  started = 0;
}

account_exact_example :
    let cost = (cost_of services "gpt-4o" (pos 12) (healthy tables)).0 in
    three services (account services job answered 9 (healthy tables)).1 ≡ (
      [] ++ record (log_row services job answered cost 9) { id = 0; cost_usd = cost } ∷ [],
      (if is_charged services job answered cost
          then (
            [] ++ charge_row services job answered (due job cost) ∷ [],
            update_rows (has_id "acme") (billed services job (due job cost)) (acme ∷ []),
          )
          else ([], acme ∷ [])),
    )
account_exact_example = account_exact services job answered 9 tables

spend_limit_ignored_example :
    Unlimited (get_tenant_by_api_key {F = Micros} "sk-1" (healthy tables)).0
spend_limit_ignored_example = spend_limit_ignored {F = Micros} "sk-1" (healthy tables) refl

abbrev pub id_micros : Micros → Micros
id_micros a = a

abbrev pub describe_topup : Micros → String
describe_topup a = "Self-service topup"

pub acme_found : find_row (has_id "acme") tables.tenants ≡ some acme
unfolding find_row
acme_found = refl

tenant_topup_exact_example :
    tenant_topup id_micros describe_topup (some "acme") (some (pos 2_000_000)) (healthy tables) ≡ (
      accept (balance (pos 5_000_000 +ℤ pos 2_000_000)),
      healthy (record tables {
        tenants =
            update_rows
              (has_id "acme")
              (credited id_micros describe_topup (pos 2_000_000) (pos 5_000_000 +ℤ pos 2_000_000))
              (acme ∷ []);
        transactions =
            []
            ++ topup_row id_micros describe_topup "acme"
                (pos 2_000_000)
                (pos 5_000_000 +ℤ pos 2_000_000)
              ∷ [];
      }),
    )
tenant_topup_exact_example =
    tenant_topup_exact id_micros describe_topup "acme" (pos 2_000_000) acme tables refl acme_found

-- A payload without a key.
abbrev update : ProviderUpdate
update = record {
  base_url = "https://example.org";
  api_key = "";
  default_model = "gpt-4o";
  supports_text = true;
  supports_vision = true;
  enabled = false;
}

abbrev with_provider : Tables Micros
with_provider = record tables { providers = working ∷ [] }

working_found : find_row (has_provider_id "working") with_provider.providers ≡ some working
unfolding find_row
working_found = refl

get_provider_by_id-admin_update_provider_example :
    (get_provider_by_id "working"
      (admin_update_provider "working" (some update) (healthy with_provider)).1).0
    ≡ ok (updated update working)
get_provider_by_id-admin_update_provider_example =
    get_provider_by_id-admin_update_provider "working" update working with_provider refl
      working_found
