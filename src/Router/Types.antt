-- ===== src/Router/Types.antt =====
-- `RouteOptions`, the state of `Router`, and the errors that routing builds, of
-- backend/internal/router/router.go. An error is kept as a value with what its text is made of.
use router_x.Base.Int.{ℤ}
use router_x.Base.{ℕ, String, Bool, true, Option, none, some, List, [], Assoc, lookup, insert}
use router_x.Models.{ChatCompletionResponse}
use router_x.Router.Circuit.{CircuitState, fresh}
use router_x.Router.Latency.{LatencyTracker, new_latency_tracker}

pub data SortMode : Type 0 where
  sort_default sort_price sort_latency : SortMode

pub record RouteOptions : Type 0 where
  pub sort : SortMode
  pub byok_key : String
  pub provider_only : List String
  pub provider_ignore : List String
  pub provider_order : List String
  pub allow_fallbacks : Bool
  pub user_id : String
  pub app_title : String
  pub app_referer : String

-- `DefaultRouteOptions`
abbrev pub default_route_options : RouteOptions
default_route_options = record {
  sort = sort_default;
  byok_key = "";
  provider_only = [];
  provider_ignore = [];
  provider_order = [];
  allow_fallbacks = true;
  user_id = "";
  app_title = "";
  app_referer = "";
}

pub data Capability : Type 0 where
  text vision : Capability

-- Errors of `tryProvider` and `tryProvidersByType`.
pub data Failure : Type 0 where
  provider_disabled lacks_vision lacks_text circuit_open : Failure
  upstream : String → Failure
  no_enabled_provider : String → Failure
  no_capable_provider : Capability → String → Failure

-- One entry of the error chain of `RouteWith`.
pub data Step : Type 0 where
  auto_route : String → Failure → Step
  catalog_lookup : String → Step
  not_in_catalog : Step
  rule_primary rule_secondary : String → Failure → Step

-- The two errors of `RouteWith`, the second with the tenant.
pub data RouteError : Type 0 where
  routing_failed : String → List Step → RouteError
  no_provider_available : String → String → RouteError

-- What `tryProvider` and `RouteWith` return; `error` is `none` for a nil error.
pub record Attempt (X : Type 0) : Type 0 where
  pub response : ChatCompletionResponse
  pub provider : String
  pub fallback : Bool
  pub ttft : ℕ
  pub tokens : ℤ
  pub error : Option X

-- The mutable part of `Router`.
pub record RouterState : Type 0 where
  pub circuits : Assoc CircuitState
  pub latency : LatencyTracker

-- `New`
unfoldable pub new_router : RouterState
new_router = record { circuits = []; latency = new_latency_tracker 50 }

abbrev pub or_fresh : Option CircuitState → CircuitState
or_fresh none = fresh
or_fresh (some c) = c

-- The circuit that `circuitFor` returns.
unfoldable pub circuit_of : RouterState → String → CircuitState
circuit_of st id = or_fresh (lookup id st.circuits)

abbrev store_fresh : RouterState → String → Option CircuitState → RouterState
store_fresh st id none = record st { circuits = insert id fresh st.circuits }
store_fresh st id (some c) = st

-- What `circuitFor` leaves: a provider that is not there is given a fresh circuit.
unfoldable pub circuit_for : RouterState → String → RouterState
circuit_for st id = store_fresh st id (lookup id st.circuits)
