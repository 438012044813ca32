-- ===== src/Tests/Gateway.antt =====
-- The theorems on the whole gateway, over an outside that keeps counters and the URLs that were asked.
use Prim.Native.String.{◌++◌}
use router_x.Base.Int.{ℤ, pos, ◌+ℤ◌, ◌-ℤ◌}
use router_x.Base.Float.{Micros, micros_float}
use router_x.Base.{some, ◌⊎◌, String, true, false, none, List, [], ◌∷◌, All, ◌≡◌, refl, ok, str_eq}
use router_x.Limiter.{Redis, conc_key}
use router_x.Router.Types.{default_route_options, new_router}
use router_x.Router.Env.{World}
use router_x.Providers.Wire.{Wire, HttpRequest}
use router_x.Providers.Types.{Client, new_provider}
use router_x.Providers.Chat.{chat}
use router_x.Providers.Chat.Addressed.{IsAddressed, chat-IsSafe}
use router_x.Providers.Chat.Panics.{Accepts, IsGemini, chat_panics}
use router_x.Store.Db.{Tables, healthy}
use router_x.Api.Http.{Server, Services}
use router_x.Api.Chat.{chat_completions}
use router_x.Api.Chat.Slots.{slot}
use router_x.Gateway.{Outside, Functions, services}
use router_x.Gateway.Posts.{KeepsEntries, IsPost, route-IsSafe}
use router_x.Gateway.Admission.{IsServed, chat_completions-IsServed}
use router_x.Gateway.Slots.{CountsKeys, LeavesKeys, gateway_slots}
use router_x.Tests.Data.{working, hello}
use router_x.Tests.Chat.{texts, tables, http}
use router_x.Tests.Providers.{answer, lines, formats, codecs}

record Net : Type 0 where
  counters : String → ℤ
  sent : List HttpRequest

abbrev wire : Wire Net
wire = record {
  now = λ e. 0;
  sleep = λ t e. e;
  post = λ r e. (ok answer, record e { sent = r ∷ e.sent });
  url_error = λ url. none;
  scan = λ size resp. lines;
}

abbrev redis : Redis Net
redis = record {
  incr = λ key e.
      (ok (e.counters key +ℤ pos 1), record e { counters = λ x. e.counters x +ℤ slot x key });
  decr = λ key e. record e { counters = λ x. e.counters x -ℤ slot x key };
  expire = λ key n e. e;
  incr_expire = λ key n e.
      (ok (e.counters key +ℤ pos 1), record e { counters = λ x. e.counters x +ℤ slot x key });
}

abbrev out : Outside Net
out = record {
  wire = wire;
  redis = redis;
  second = λ e. "20260101000000";
  cache_get = λ key e. (none, e);
  cache_set = λ key text e. e;
  note_health = λ id good e. e;
  write = λ text e. (none, e);
  start = λ requests e. e;
}

abbrev functions : Functions Micros String
functions = record {
  formats = formats;
  codecs = codecs;
  texts = texts;
  hook_texts = record {
    marshal = λ p. none;
    rfc3339 = λ t. "";
    hmac = λ key text. "";
    url_error = λ url. none;
  };
  equal_fold = str_eq;
  sort_slice = λ less ps. ps;
  numeric = λ a. a;
}

functions-KeepsEntries : KeepsEntries functions.sort_slice
functions-KeepsEntries = record { from_list = λ less p ps at. at }

abbrev quiet : Net
quiet = record { counters = λ x. pos 3; sent = [] }

-- A provider, and a model in the catalog.
abbrev offering : Tables Micros
offering = record tables {
  providers = working ∷ [];
  model_catalog = record { model = "gpt-4o"; provider_type = "openai" } ∷ [];
}

abbrev server : Server Micros (World Net)
server = record { db = healthy offering; env = record { router = new_router; env = quiet } }

redis-CountsKeys : CountsKeys redis (λ e x. e.counters x) (λ e. true)
redis-CountsKeys = record {
  answers = λ key r a. refl;
  up = λ key x r a. (a, refl);
  down = λ key x r a. (a, refl);
  lives = λ key x n r a. (a, refl);
  up_for = λ key x n r a. (a, refl);
}

out-LeavesKeys : LeavesKeys out (λ e x. e.counters x) (λ e. true)
out-LeavesKeys = record {
  posts = λ q x e a. (a, refl);
  sleeps = λ t x e a. (a, refl);
  writes = λ text x e a. (a, refl);
  notes = λ id good x e a. (a, refl);
  gets = λ key x e a. (a, refl);
  sets = λ key text x e a. (a, refl);
  starts = λ qs x e a. (a, refl);
}

abbrev gateway : Services Micros (World Net)
gateway = services out functions true (λ e st. st)

gateway_slots_example :
    let (r, s) = chat_completions gateway http server in
    s.env.env.counters (conc_key "acme") ≡ pos 3
gateway_slots_example =
    gateway_slots out functions true (λ e st. st) (λ e x. e.counters x) (λ e. true) redis-CountsKeys
      out-LeavesKeys functions-KeepsEntries http server "acme" refl

-- All that was sent is for the one provider.
abbrev AllPosts : Net → Type 0
AllPosts e =
    All (IsPost out functions true (λ e st. st) offering hello false default_route_options) e.sent

route-IsSafe_example :
    let (a, s) = gateway.route "acme" hello false default_route_options server in AllPosts s.env.env
route-IsSafe_example =
    route-IsSafe out functions true (λ e st. st) offering hello false default_route_options AllPosts
      (record {
        posts = λ r e may s. (may, s);
        sleeps = λ t e s. s;
        writes = λ text e s. s;
        notes = λ id good e s. s;
      })
      functions-KeepsEntries "acme" server refl tt

-- A Gemini client with a key.
abbrev AllGemini : Net → Type 0
AllGemini e =
    let c = new_provider (record working { type = "gemini" }) true in
    All (IsAddressed formats c.kind c.info) e.sent

chat-IsSafe_example :
    AllGemini
      (chat wire formats codecs
        (new_provider (record working { type = "gemini" }) true)
        hello
        false
        none
        quiet).1
chat-IsSafe_example =
    chat-IsSafe wire formats AllGemini codecs
      (new_provider (record working { type = "gemini" }) true) hello false none quiet tt
      (λ real r e at s. (at, s)) tt

-- A library that refuses every URL, and a Gemini client.
abbrev strict : Wire Net
strict = record wire { url_error = λ url. some "invalid control character in URL" }

abbrev google : Client
google = new_provider (record working { type = "gemini" }) true

chat_panics_example :
    ((chat strict formats codecs google hello false none quiet).0 ≡ none
      → IsGemini strict formats codecs google hello false
        × ((¬ Accepts strict formats google.info.api_key false hello.model)
            ⊎ (¬ Accepts strict formats google.info.api_key false (hello.model ++ "-latest"))))
    × (IsGemini strict formats codecs google hello false
        → ¬ Accepts strict formats google.info.api_key false hello.model
        → (chat strict formats codecs google hello false none quiet).0 ≡ none)
chat_panics_example = chat_panics strict formats codecs google hello false none quiet

-- All that was sent is for an admitted request.
abbrev AllServed : Net → Type 0
AllServed e = All (IsServed out functions true (λ e st. st) http server) e.sent

chat_completions-IsServed_example : AllServed (chat_completions gateway http server).1.env.env
chat_completions-IsServed_example =
    chat_completions-IsServed out functions true (λ e st. st) http server AllServed
      (record {
        posts = λ q e served s. (served, s);
        sleeps = λ t e s. s;
        writes = λ text e s. s;
        notes = λ id good e s. s;
        gets = λ key e s. s;
        sets = λ key text e s. s;
        starts = λ qs e s. s;
        commands = record {
          incr = λ key e s. s;
          decr = λ key e s. s;
          expire = λ key n e s. s;
          incr_expire = λ key n e s. s;
        };
      })
      functions-KeepsEntries tt
