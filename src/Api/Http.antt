-- ===== src/Api/Http.antt =====
-- Requests and answers of the handlers, the texts of the standard library that they use, and the
-- server around the database. A handler's answer is the value that it writes once; what `send`
-- streamed to the client before belongs to the surroundings.
use router_x.Base.Int.{ℤ}
use router_x.Base.{ℕ, String, Bool, Option, List, Result}
use router_x.Models.{ChatCompletionRequest, ChatCompletionResponse}
use router_x.Models.Content.{Json}
use router_x.Store.Types.{Tenant}
use router_x.Store.Db.{Db}
use router_x.Router.Types.{Attempt, RouteError, RouteOptions}

-- `POST /v1/chat/completions`: the tenant that the middleware put into the context, the headers that
-- the handler reads, the decoded body (`none` is an error of the decoder), and whether the
-- response writer can flush.
pub record ChatHttp (F : Type 0) : Type 0 where
  pub tenant : Option (Tenant F)
  pub authorization : String
  pub cache : String
  pub sort : String
  pub byok_key : String
  pub provider_only : String
  pub provider_ignore : String
  pub provider_order : String
  pub allow_fallbacks : String
  pub user : String
  pub title : String
  pub referer : String
  pub body : Option (ChatCompletionRequest F)
  pub flushes : Bool

-- Functions of Go's standard library and of package `util` on texts.
pub record Texts : Type 0 where
  -- `strings.HasSuffix` with `TrimSuffix`: the text without the suffix, if it has it.
  pub strip_suffix : String → String → Option String
  -- `strings.HasPrefix` with `TrimPrefix`
  pub strip_prefix : String → String → Option String
  pub to_lower : String → String
  -- `strings.Split(s, ",")`
  pub split_comma : String → List String
  -- `util.HashString(util.NormalizeSpaces(s))`
  pub prompt_hash : String → String
  -- `fmt.Sprintf("%s / %s / %d tokens", provider, model, tokens)`
  pub describe_charge : String → String → ℤ → String
  -- `json.Marshal` of a response; `none` is its error.
  pub marshal : ChatCompletionResponse → Option String
  pub json : Json

pub data Body : Type 0 where
  message : String → Body
  upstream_failed : RouteError → Body
  cached : String → Body
  completion : ChatCompletionResponse → Body
  -- The stream was the body.
  streamed : Body

pub record Response : Type 0 where
  pub status : ℕ
  pub body : Body

abbrev pub respond : ℕ → Body → Response
respond status body = record { status = status; body = body }

-- The payload of the webhook event "request.completed".
pub record Event (F : Type 0) : Type 0 where
  pub tenant_id : String
  pub provider : String
  pub model : String
  pub latency_ms : ℕ
  pub tokens : ℤ
  pub cost_usd : F
  pub status_code : ℕ
  pub fallback : Bool
  pub free_mode : Bool

-- The database beside the rest of the surroundings.
pub record Server (F E : Type 0) : Type 0 where
  pub db : Db F
  pub env : E

-- What the chat handler calls outside the database.
pub record Services (F E : Type 0) : Type 0 where
  -- `time.Now()`
  pub now : E → ℕ
  -- `Limiter.Allow`, `Acquire` and `Release`
  pub allow : String → E → Result Bool × E
  pub acquire : String → E → Result Bool × E
  pub release : String → E → E
  -- `Redis.Get` of a cached prompt: `none` where there is no client, no entry or an error.
  pub cache_get : String → E → Option String × E
  -- `Redis.Set` for five minutes, if there is a client
  pub cache_set : String → String → E → E
  -- `Router.RouteWith`
  pub route :
      String
      → ChatCompletionRequest F
      → Bool
      → RouteOptions
      → Server F E
      → Attempt RouteError × Server F E
  -- `Webhooks.Fire`, if there is a dispatcher: it reads the database.
  pub fire : Event F → Server F E → Server F E
  pub texts : Texts
  -- What a column `NUMERIC(12,4)` keeps.
  pub numeric : F → F
