-- ===== src/Api/Chat.antt =====
-- `Server.ChatCompletions` of backend/internal/api/handlers.go, in the order of its steps. Metrics and
-- the log line change nothing that the handler reads, and are left out.
pub mod Serving
pub mod Slots
pub mod Admission
pub mod SpendLimit
pub mod Billing
use Prim.Native.String.{◌++◌}
use router_x.Base.Float.{Float64}
use router_x.Base.{
  ◌-◌, String, Bool, true, false, not, ◌&&◌, Option, none, some, [], ◌∷◌, Result, ok, err, str_eq,
  is_empty, if◌then◌else◌,
}
use router_x.Models.{ChatCompletionRequest}
use router_x.Store.Types.{Tenant, ApiKey}
use router_x.Store.Db.{Db}
use router_x.Store.Keys.{get_api_key}
use router_x.Router.Types.{Attempt, RouteError}
use router_x.Api.Http.{
  ChatHttp, message, upstream_failed, cached, completion, streamed, Response, respond, Server,
  Services,
}
use router_x.Api.Options.{extract_text, extract_api_key, contains, route_options}
use router_x.Api.Billing.{is_nil, millis, Job, over_limit, account}

module _ {F E : Type 0} ⦃fl : Float64 F⦄ (services : Services F E) where
  open services use {now, allow, acquire, release, cache_get, cache_set, route, fire, texts}

  abbrev answer : Bool → Attempt RouteError → Response
  answer stream a = elim a.error [
    | some e ↦ respond 502 (upstream_failed e)
    | none ↦ if stream then respond 200 streamed else respond 200 (completion a.response)
  ]

  abbrev pub cache_key : Job F → String
  cache_key job = ("prompt_cache:" ++ job.request.model) ++ (":" ++ job.prompt_hash)

  abbrev pub store_cached : String → Option String → E → E
  store_cached key none e = e
  store_cached key (some text) e = cache_set key text e

  -- All that follows the call of the router.
  unfoldable pub finish : Job F → Bool → Attempt RouteError × Server F E → Response × Server F E
  unfolding account
  finish job caching (a, s) =
      let at = now s.env in
      let stream = job.request.stream in
      let (cost, db) = account services job a at s.db in
      let s1 =
        fire
          (record {
            tenant_id = job.tenant.id;
            provider = a.provider;
            model = job.request.model;
            latency_ms = millis (at - job.started);
            tokens = a.tokens;
            cost_usd = cost;
            status_code = if is_nil a.error then 200 else 502;
            fallback = a.fallback;
            free_mode = job.free_mode;
          })
          (record { db = db; env = s.env }) in
      let e2 =
        if not stream && (is_nil a.error && caching)
        then store_cached (cache_key job) (texts.marshal a.response) s1.env
        else s1.env in
      (answer stream a, record { db = s1.db; env = e2 })

  -- The call of the router, unless the client cannot be streamed to.
  unfoldable pub dispatch : ChatHttp F → Job F → Server F E → Response × Server F E
  unfolding finish
  dispatch http job s =
      if job.request.stream && not http.flushes
      then (respond 500 (message "stream unsupported"), s)
      else finish job (str_eq http.cache "true")
          (route job.tenant.id job.request job.request.stream job.options s)

  abbrev pub hit_or_dispatch : ChatHttp F → Job F → Db F → Option String × E → Response × Server F E
  hit_or_dispatch http job db (some text, e) =
      (respond 200 (cached text), record { db = db; env = e })
  hit_or_dispatch http job db (none, e) =
      dispatch http (record job { started = now e }) (record { db = db; env = e })

  -- From the prompt cache on.
  unfoldable pub serve : ChatHttp F → Job F → Server F E → Response × Server F E
  unfolding dispatch
  serve http job s =
      if str_eq http.cache "true" && not job.request.stream
      then hit_or_dispatch http job s.db (cache_get (cache_key job) s.env)
      else dispatch http (record job { started = now s.env }) s

  -- Whether the API key of the request refuses the model; a key that cannot be read refuses nothing.
  abbrev pub refuses : String → Result ApiKey → Bool
  refuses model (err e) = false
  refuses model (ok k) = elim k.allowed_models [
    | [] ↦ false
    | m ∷ ms ↦ not (contains (m ∷ ms) model)
  ]

  unfoldable pub key_check : String → String → Db F → Bool × Db F
  key_check key model db =
      if is_empty key
      then (false, db)
      else (let (k, db') = get_api_key key db in (refuses model k, db'))

  -- `req.Model` after the default and the suffix: the model, and `freeMode`.
  unfoldable pub effective_model : String → String × Bool
  effective_model model =
      let m = if is_empty model then "default" else model in
      elim (texts.strip_suffix ":free" m) [ some stripped ↦ (stripped, true) | none ↦ (m, false) ]

  abbrev pub job_of : Tenant F → ChatHttp F → ChatCompletionRequest F → Job F
  job_of t http req = record {
    tenant = t;
    request = record req { model = (effective_model req.model).0 };
    free_mode = (effective_model req.model).1;
    prompt_hash = texts.prompt_hash (extract_text texts.json "" req.messages);
    options = route_options texts http;
    started = 0;
  }

  -- From the answer of the key check on: the balance, and the rest.
  abbrev pub after_key_check :
      Tenant F → ChatHttp F → Job F → E → Bool × Db F → Response × Server F E
  after_key_check t http job e (refused, db) =
      let s : Server F E = record { db = db; env = e } in
      if refused
      then (respond 403 (message "model not allowed for api key"), s)
      else if fl.le t.balance_usd fl.zero_f
      then (respond 402 (message "insufficient balance"), s)
      else serve http job s

  -- What runs between `Acquire` and the deferred `Release`.
  unfoldable pub with_slot : Tenant F → ChatHttp F → Server F E → Response × Server F E
  unfolding serve key_check effective_model
  with_slot t http s = elim http.body [
    | none ↦ (respond 400 (message "invalid json"), s)
    | some req ↦
        let job = job_of t http req in
        after_key_check t http job s.env
          (key_check (extract_api_key texts http.authorization) job.request.model s.db)
  ]

  abbrev pub released : String → Response × Server F E → Response × Server F E
  released id (r, s) = (r, record s { env = release id s.env })

  abbrev pub after_acquire : Tenant F → ChatHttp F → Db F → Result Bool × E → Response × Server F E
  after_acquire t http db (ok true, e) =
      released t.id (with_slot t http (record { db = db; env = e }))
  after_acquire t http db (_, e) =
      (respond 429 (message "too many concurrent requests"), record { db = db; env = e })

  abbrev pub after_allow : Tenant F → ChatHttp F → Db F → Result Bool × E → Response × Server F E
  after_allow t http db (ok true, e) = after_acquire t http db (acquire t.id e)
  after_allow t http db (_, e) = (respond 429 (message "rate limited"), record { db = db; env = e })

  -- `ChatCompletions`
  unfoldable pub chat_completions : ChatHttp F → Server F E → Response × Server F E
  unfolding with_slot
  chat_completions http s = elim http.tenant [
    | none ↦ (respond 401 (message "missing tenant"), s)
    | some t ↦
        if t.suspended
        then (respond 403 (message "account suspended"), s)
        else if over_limit t
        then (respond 402 (message "spending limit reached"), s)
        else after_allow t http s.db (allow t.id s.env)
  ]
