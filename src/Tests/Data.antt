-- ===== src/Tests/Data.antt =====
-- Surroundings of the router that only remember which providers were called, the last one first.
use router_x.Base.Int.{pos}
use router_x.Base.Float.{Micros}
use router_x.Base.{
  String, true, false, none, some, List, [], ◌∷◌, ok, err, str_eq, if◌then◌else◌, All, ◌≡◌,
}
use router_x.Models.{ChatCompletionRequest, no_response}
use router_x.Models.Content.{Json}
use router_x.Store.Types.{Provider, RoutingRule}
use router_x.Router.Types.{new_router}
use router_x.Router.Env.{Env, World, Reply}

abbrev pub provider : String → Provider
provider id = record {
  id = id;
  name = id;
  type = "openai";
  base_url = "";
  api_key = "key";
  has_api_key = true;
  default_model = "";
  supports_text = true;
  supports_vision = false;
  enabled = true;
}

-- The first of these fails, the second answers, the third is disabled.
abbrev pub broken : Provider
broken = provider "broken"

abbrev pub working : Provider
working = provider "working"

abbrev pub disabled : Provider
disabled = record (provider "disabled") { enabled = false }

abbrev pub text_json : Json
text_json = record { unmarshal_string = λ s. some s; unmarshal_parts = λ s. none }

abbrev pub hello : ChatCompletionRequest Micros
hello = record {
  model = "gpt-4o";
  messages =
      record { role = "user"; content = "\"hello\""; name = ""; tool_calls = ""; tool_call_id = "" }
      ∷ [];
  stream = false;
  stream_options = none;
  max_tokens = pos 0;
  max_completion_tokens = pos 0;
  temperature = none;
  top_p = none;
  n = pos 0;
  stop = "";
  frequency_penalty = none;
  presence_penalty = none;
  seed = none;
  tools = "";
  tool_choice = "";
  parallel_tool_calls = none;
  response_format = "";
  log_probs = none;
  top_log_probs = none;
  user = "";
  store = none;
  metadata = "";
  service_tier = "";
}

abbrev pub reply : Provider → Reply
reply p = record {
  response = no_response;
  ttft = 7;
  tokens = pos 12;
  error = if str_eq p.id "broken" then some "boom" else none;
}

abbrev pub rule : RoutingRule
rule = record {
  id = "r";
  tenant_id = "acme";
  capability = "text";
  primary_provider_id = "disabled";
  secondary_provider_id = "working";
  model = "";
}

abbrev pub calls : Env Micros (List Provider)
calls = record {
  now = λ e. 0;
  chat = λ p req stream e. (reply p, p ∷ e);
  others = λ e st. st;
  note_health = λ id good e. e;
  get_routing_rule = λ t c e. (ok rule, e);
  get_model_provider = λ m e. (ok "openai", e);
  get_enabled_providers_by_type = λ t e. (ok (broken ∷ working ∷ []), e);
  get_provider_by_id = λ id e. (if str_eq id "disabled" then ok disabled else ok working, e);
  json = text_json;
  equal_fold = str_eq;
  sort_slice = λ less ps. ps;
}

-- The same without a provider in the catalog.
abbrev pub no_catalog : Env Micros (List Provider)
no_catalog = record calls {
  get_model_provider = λ m e. (err "no rows in result set", e);
  get_routing_rule = λ t c e. (err "no rows in result set", e);
}

abbrev pub start : World (List Provider)
start = record { router = new_router; env = [] }

abbrev pub AllEnabled : List Provider → Type 0
AllEnabled ps = All (λ p. p.enabled ≡ true) ps
