-- ===== src/Api/Chat/Serving.antt =====
-- What `ChatCompletions` does from the prompt cache on, once a request is let through.
use router_x.Base.Float.{Float64}
use router_x.Base.{ℕ, String, Bool, ◌≡◌, Option, none, some, str_eq, if-split}
use router_x.Store.Db.{Db, Tables}
use router_x.Router.Types.{Attempt, RouteError}
use router_x.Api.Http.{ChatHttp, Event, Response, Server, Services}
use router_x.Api.Chat.{store_cached, finish, dispatch, hit_or_dispatch, serve}
use router_x.Api.Billing.{Job}

-- The cache and the webhooks keep a property of the surroundings.
pub record KeepsCache {F E : Type 0} (services : Services F E) (Safe : E → Type 0) : Type 0 where
  pub gets : (key : String) (e : E) → Safe e → Safe (services.cache_get key e).1
  pub sets : (key text : String) (e : E) → Safe e → Safe (services.cache_set key text e)
  pub fires : (event : Event F) (s : Server F E) → Safe s.env → Safe (services.fire event s).env

module _ {F E : Type 0} ⦃fl : Float64 F⦄ (services : Services F E) (Safe : E → Type 0)
    (c : KeepsCache services Safe) where
  abbrev pub Kept : Response × Server F E → Type 0
  Kept (r, s) = Safe s.env

  store_cached-IsSafe :
      (key : String) (text : Option String) (e : E)
      → Safe e
      → Safe (store_cached services key text e)
  store_cached-IsSafe key none e h = h
  store_cached-IsSafe key (some text) e h = c.sets key text e h

  finish-IsSafe :
      (job : Job F) (caching : Bool) (p : Attempt RouteError × Server F E)
      → Safe p.1.env
      → Kept (finish services job caching p)
  unfolding finish
  finish-IsSafe job caching (a, s) h =
      let fired = c.fires _ (record { db = _; env = s.env }) h in
      if-split Safe _ (store_cached-IsSafe _ _ _ fired) fired

  module _ (http : ChatHttp F) (job : Job F) (tables : Tables F)
      (routes : (s : Server F E)
        → s.db.tables ≡ tables
        → Safe s.env
        → Safe
            (services.route job.tenant.id job.request job.request.stream job.options s).1.env) where
    dispatch-IsSafe :
        (at : ℕ) (s : Server F E)
        → s.db.tables ≡ tables
        → Safe s.env
        → Kept (dispatch services http (record job { started = at }) s)
    unfolding dispatch
    dispatch-IsSafe at s same h = if-split Kept _ h (
        finish-IsSafe (record job { started = at }) (str_eq http.cache "true")
          (services.route job.tenant.id job.request job.request.stream job.options s)
          (routes s same h))

    hit-IsSafe :
        (db : Db F) (p : Option String × E)
        → db.tables ≡ tables
        → Safe p.1
        → Kept (hit_or_dispatch services http job db p)
    hit-IsSafe db (some text, e) same h = h
    hit-IsSafe db (none, e) same h =
        dispatch-IsSafe (services.now e) (record { db = db; env = e }) same h

    -- The rest of the handler keeps what the cache, the webhooks and the router keep.
    pub serve-IsSafe :
        (s : Server F E) → s.db.tables ≡ tables → Safe s.env → Kept (serve services http job s)
    unfolding serve
    serve-IsSafe s same h =
        if-split Kept _ (hit-IsSafe s.db _ same (c.gets _ s.env h))
          (dispatch-IsSafe (services.now s.env) s same h)
