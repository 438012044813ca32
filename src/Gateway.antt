-- ===== src/Gateway.antt =====
-- The gateway as `main` of backend/cmd/server/main.go wires it up: the chat handler over the limiter, the
-- router over the database and the provider clients, and the dispatcher of webhooks. What is left
-- open is outside the process: Redis, the network, the clock and the client's connection.
pub mod Posts
pub mod Slots
pub mod Admission
use Prim.Native.String.{◌++◌}
use router_x.Base.{
  String, Bool, true, false, refl, ◌≢◌, Option, none, some, List, Result, str_eq, if◌then◌else◌,
}
use router_x.Base.Int.{pos}
use router_x.Models.{ChatCompletionRequest, no_response}
use router_x.Store.Types.{Provider}
use router_x.Store.Db.{Db}
use router_x.Store.Providers.{
  get_routing_rule, get_model_provider, get_enabled_providers_by_type, get_provider_by_id,
}
use router_x.Router.Types.{RouterState, Attempt, RouteError}
use router_x.Router.Sorting.{SortSlice}
use router_x.Router.Env.{Env, World, Reply}
use router_x.Router.Routing.{route_with}
use router_x.Limiter.{Redis, Limiter, allow, acquire, release}
use router_x.Providers.Wire.{Wire, Formats, HttpRequest, StreamSender}
use router_x.Providers.Types.{new_provider}
use router_x.Providers.Chat.{Codecs, chat}
use router_x.Webhooks
use router_x.Api.Http.{Event, Server, Services, Texts}

-- Outside the process. `E` is its state.
pub record Outside (E : Type 0) : Type 0 where
  pub wire : Wire E
  pub redis : Redis E
  -- The second of `time.Now()` as "20060102150405"
  pub second : E → String
  -- `Get` and `Set` of a cached prompt, and `Set` of a provider's health for thirty seconds
  pub cache_get : String → E → Option String × E
  pub cache_set : String → String → E → E
  pub note_health : String → Bool → E → E
  -- `w.Write` of a text and `Flush`: the error of the write
  pub write : String → E → Option String × E
  -- The goroutines of `Fire`, with the request that each sends
  pub start : List HttpRequest → E → E

-- Functions of libraries without state.
pub record Functions (F V : Type 0) : Type 0 where
  pub formats : Formats
  pub codecs : Codecs F V
  pub texts : Texts
  pub hook_texts : Webhooks.Texts (Event F)
  pub equal_fold : String → String → Bool
  pub sort_slice : SortSlice
  pub numeric : F → F

abbrev pub limits : Limiter
limits = record { qps = 10; conc = 5 }

module _ {E : Type 0} (out : Outside E) where
  -- `send` of `ChatCompletions`
  unfoldable pub send_event : StreamSender E
  send_event event e =
      if str_eq event "[DONE]"
      then (none, (out.write "data: [DONE]\n\n" e).1)
      else out.write (("data: " ++ event) ++ "\n\n") e

  -- The `send` that the handler gives to the router.
  abbrev pub sender : Bool → Option (StreamSender E)
  sender true = some send_event
  sender false = none

-- The reply of an attempt. A panic of the client, `none`, ends the request in the code. Here it is an
-- error of the attempt, after which the router may go on: what the gateway of the code sends to
-- providers is then the beginning of what is sent here.
abbrev pub returned : {E : Type 0} → Option Reply × E → Reply × E
returned (some r, e) = (r, e)
returned (none, e) = (
  record {
    response = no_response;
    ttft = 0;
    tokens = pos 0;
    error = some "invalid memory address or nil pointer dereference";
  },
  e,
)

abbrev pub outside : {E A : Type 0} → World E → A × E → A × World E
outside w (a, e) = (a, record w { env = e })

module _ {F E : Type 0} where
  abbrev pub on_db : {A : Type 0} → Server F E → Result A × Db F → Result A × Server F E
  on_db s (r, db) = (r, record s { db = db })

  -- The server with the router's state, as the handler and as the router see it.
  abbrev pub to_router : Server F (World E) → World (Server F E)
  to_router s = record { router = s.env.router; env = record { db = s.db; env = s.env.env } }

  abbrev pub from_router : World (Server F E) → Server F (World E)
  from_router w = record { db = w.env.db; env = record { router = w.router; env = w.env.env } }

  abbrev pub routed :
      Attempt RouteError × World (Server F E) → Attempt RouteError × Server F (World E)
  routed (a, w) = (a, from_router w)

module _ {F V E : Type 0} (out : Outside E) (f : Functions F V) (enable_real : Bool)
    -- What other requests do to the circuits and latencies while a call of a provider waits.
    (others : E → RouterState → RouterState) where
  -- `providers.NewProvider(p, r.EnableReal).Chat(ctx, req, stream, send)`
  unfoldable pub chat_provider : Provider → ChatCompletionRequest F → Bool → E → Reply × E
  unfolding new_provider
  chat_provider p req stream e =
      let c = new_provider p enable_real in
      returned (chat out.wire f.formats f.codecs c req stream (sender out stream) e)

  -- What `Router` calls.
  unfoldable pub router_env : Env F (Server F E)
  router_env = record {
    now = λ s. out.wire.now s.env;
    chat = λ p req stream s.
        let (r, e) = chat_provider p req stream s.env in (r, record s { env = e });
    others = λ s st. others s.env st;
    note_health = λ id good s. record s { env = out.note_health id good s.env };
    get_routing_rule = λ t c s. on_db s (get_routing_rule t c s.db);
    get_model_provider = λ m s. on_db s (get_model_provider m s.db);
    get_enabled_providers_by_type = λ t s. on_db s (get_enabled_providers_by_type t s.db);
    get_provider_by_id = λ id s. on_db s (get_provider_by_id id s.db);
    json = f.codecs.json;
    equal_fold = f.equal_fold;
    sort_slice = f.sort_slice;
  }

  -- What the chat handler calls.
  unfoldable pub services : Services F (World E)
  services = record {
    now = λ w. out.wire.now w.env;
    allow = λ id w. outside w (allow out.redis limits id (out.second w.env) w.env);
    acquire = λ id w. outside w (acquire out.redis limits id w.env);
    release = λ id w. record w { env = release out.redis limits id w.env };
    cache_get = λ key w. outside w (out.cache_get key w.env);
    cache_set = λ key text w. record w { env = out.cache_set key text w.env };
    route = λ id req stream opts s. routed (route_with router_env id req stream opts (to_router s));
    fire = λ event s.
        let (requests, db) =
          Webhooks.fire f.hook_texts (out.wire.now s.env.env) "request.completed" event s.db in
        record { db = db; env = record s.env { env = out.start requests s.env.env } };
    texts = f.texts;
    numeric = f.numeric;
  }
