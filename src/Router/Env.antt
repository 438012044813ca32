-- ===== src/Router/Env.antt =====
-- What `Router` of backend/internal/router/router.go calls outside itself, over a state `E` of the
-- surroundings: the clock, the store, a provider's `Chat` and the health note in Redis. Each call
-- may change `E`, and answers in its new state as the surroundings please.
use router_x.Base.Int.{ℤ}
use router_x.Base.{ℕ, String, Bool, Option, Result, List}
use router_x.Models.{ChatCompletionRequest, ChatCompletionResponse}
use router_x.Models.Content.{Json}
use router_x.Store.Types.{Provider, RoutingRule}
use router_x.Router.Types.{RouterState}
use router_x.Router.Sorting.{SortSlice}

-- The four results of `Chat`; `error` is `none` for a nil error.
pub record Reply : Type 0 where
  pub response : ChatCompletionResponse
  pub ttft : ℕ
  pub tokens : ℤ
  pub error : Option String

pub record Env (F E : Type 0) : Type 0 where
  -- `time.Now()`
  pub now : E → ℕ
  -- `providers.NewProvider(p, r.EnableReal).Chat(ctx, req, stream, send)`
  pub chat : Provider → ChatCompletionRequest F → Bool → E → Reply × E
  -- What other requests did to the circuits and latencies while that call waited.
  pub others : E → RouterState → RouterState
  -- `r.Redis.Set("provider_health:" + id, status, 30s)` if there is a Redis client; errors are dropped.
  pub note_health : String → Bool → E → E
  pub get_routing_rule : String → String → E → Result RoutingRule × E
  pub get_model_provider : String → E → Result String × E
  pub get_enabled_providers_by_type : String → E → Result (List Provider) × E
  pub get_provider_by_id : String → E → Result Provider × E
  -- Library functions without state.
  pub json : Json
  pub equal_fold : String → String → Bool
  pub sort_slice : SortSlice

-- The router's own state beside that of its surroundings.
pub record World (E : Type 0) : Type 0 where
  pub router : RouterState
  pub env : E
