-- ===== src/Gateway/Admission.antt =====
-- A chat request to the whole gateway: what is sent to providers, and for whom.
use router_x.Base.Int.{pos, ltb_ℤ, ℤ}
use router_x.Base.Float.{Float64}
use router_x.Base.{ℕ, String, Bool, List, ◌≡◌, Result, ok, err, if-split}
use router_x.Limiter.{Redis, Limiter, acquire, allow, release, settle, is_one, conc_key}
use router_x.Models.{ChatCompletionRequest}
use router_x.Store.Types.{Tenant}
use router_x.Router.Types.{RouterState}
use router_x.Router.Env.{World}
use router_x.Providers.Wire.{HttpRequest}
use router_x.Api.Http.{ChatHttp, Server, Services}
use router_x.Api.Options.{route_options}
use router_x.Api.Chat.{chat_completions, effective_model}
use router_x.Api.Chat.Admission.{IsAdmitted, KeepsChat, chat_completions-IsSafe}
use router_x.Gateway.{Outside, Functions, limits, services}
use router_x.Gateway.Posts.{KeepsEntries, IsPost, route-IsSafe}

-- Commands of Redis keep a property.
pub record KeepsCommands {R : Type 0} (redis : Redis R) (Safe : R → Type 0) : Type 0 where
  pub incr : (key : String) (r : R) → Safe r → Safe (redis.incr key r).1
  pub decr : (key : String) (r : R) → Safe r → Safe (redis.decr key r)
  pub expire : (key : String) (n : ℕ) (r : R) → Safe r → Safe (redis.expire key n r)
  pub incr_expire : (key : String) (n : ℕ) (r : R) → Safe r → Safe (redis.incr_expire key n r).1

module _ {R : Type 0} (redis : Redis R) (l : Limiter) (Safe : R → Type 0)
    (c : KeepsCommands redis Safe) where
  allow-IsSafe : (id now : String) (r : R) → Safe r → Safe (allow redis l id now r).1
  unfolding allow
  allow-IsSafe id now r h = c.incr_expire _ _ r h

  settle-IsSafe : (key : String) (x : Result ℤ × R) → Safe x.1 → Safe (settle redis l key x).1
  settle-IsSafe key (err e, r) h = h
  settle-IsSafe key (ok v, r) h =
      let lives = if-split Safe (is_one v) (c.expire key 60 r h) h in
      if-split (λ (x : Result Bool × R). Safe x.1) (ltb_ℤ (pos l.conc) v) (c.decr key _ lives) lives

  acquire-IsSafe : (id : String) (r : R) → Safe r → Safe (acquire redis l id r).1
  unfolding acquire
  acquire-IsSafe id r h = settle-IsSafe (conc_key id) _ (c.incr (conc_key id) r h)

  release-IsSafe : (id : String) (r : R) → Safe r → Safe (release redis l id r)
  unfolding release
  release-IsSafe id r h = c.decr (conc_key id) r h

module _ {F V E : Type 0} ⦃fl : Float64 F⦄ (out : Outside E) (f : Functions F V)
    (enable_real : Bool) (others : E → RouterState → RouterState) (http : ChatHttp F)
    (s : Server F (World E)) where
  abbrev gateway : Services F (World E)
  gateway = services out f enable_real others

  -- A request for which a provider may be asked, and what it may be asked: the chat request comes from a
  -- tenant that `ChatCompletions` admits, and what is sent is what the router may send for it.
  pub record IsServed (q : HttpRequest) : Type 0 where
    pub tenant : Tenant F
    pub request : ChatCompletionRequest F
    pub admitted : IsAdmitted gateway http s tenant request
    pub sent :
        IsPost out f enable_real others s.db.tables
          (record request { model = (effective_model gateway request.model).0 })
          request.stream
          (route_options f.texts http)
          q

  -- What keeps a property of the outside.
  pub record KeepsGateway (Safe : E → Type 0) : Type 0 where
    pub posts : (q : HttpRequest) (e : E) → IsServed q → Safe e → Safe (out.wire.post q e).1
    pub sleeps : (t : ℕ) (e : E) → Safe e → Safe (out.wire.sleep t e)
    pub writes : (text : String) (e : E) → Safe e → Safe (out.write text e).1
    pub notes : (id : String) (good : Bool) (e : E) → Safe e → Safe (out.note_health id good e)
    pub gets : (key : String) (e : E) → Safe e → Safe (out.cache_get key e).1
    pub sets : (key text : String) (e : E) → Safe e → Safe (out.cache_set key text e)
    pub starts : (qs : List HttpRequest) (e : E) → Safe e → Safe (out.start qs e)
    pub commands : KeepsCommands out.redis Safe

  module _ (Safe : E → Type 0) (keeps : KeepsGateway Safe) (sorts : KeepsEntries f.sort_slice) where
    routed-IsSafe :
        (t : Tenant F) (req : ChatCompletionRequest F) (s' : Server F (World E))
        → IsAdmitted gateway http s t req
        → s'.db.tables ≡ s.db.tables
        → Safe s'.env.env
        → Safe
            (gateway.route t.id
              (record req { model = (effective_model gateway req.model).0 })
              req.stream
              (route_options gateway.texts http)
              s').1.env.env
    unfolding services
    routed-IsSafe t req s' admitted same h =
        route-IsSafe out f enable_real others s.db.tables
          (record req { model = (effective_model gateway req.model).0 }) req.stream
          (route_options f.texts http) Safe
          (record {
            posts = λ q e may k.
                keeps.posts q e
                  (record { tenant = t; request = req; admitted = admitted; sent = may }) k;
            sleeps = keeps.sleeps;
            writes = keeps.writes;
            notes = keeps.notes;
          })
          sorts t.id s' same h

    gateway-KeepsChat : KeepsChat gateway http s (λ w. Safe w.env)
    unfolding services
    gateway-KeepsChat = record {
      allows = λ id w h. allow-IsSafe out.redis limits Safe keeps.commands id _ w.env h;
      acquires = λ id w h. acquire-IsSafe out.redis limits Safe keeps.commands id w.env h;
      releases = λ id w h. release-IsSafe out.redis limits Safe keeps.commands id w.env h;
      cache = record {
        gets = λ key w h. keeps.gets key w.env h;
        sets = λ key text w h. keeps.sets key text w.env h;
        fires = λ event s' h. keeps.starts _ s'.env.env h;
      };
      routes = routed-IsSafe;
    }

    -- While the gateway serves a chat request, it sends a request to a provider only if the chat request
    -- is admitted: its tenant is neither suspended nor over its limit and has a positive balance, the
    -- limiter lets it pass and gives a slot, and its key, where the database answers with it, names the
    -- model or no model. Each such request goes to an enabled and capable provider of the database, at
    -- the provider's own endpoint, with its own key or the key that the chat request brings. Said as: each
    -- property of the outside that such posts and everything but posts keep holds after the handler if it
    -- held before. The condition is a `sort.Slice` that invents no entry. An attempt whose client
    -- panics counts as one that failed, after which more may be sent here than in the code.
    pub chat_completions-IsServed :
        Safe s.env.env → Safe (chat_completions gateway http s).1.env.env
    chat_completions-IsServed h =
        chat_completions-IsSafe gateway http s (λ w. Safe w.env) gateway-KeepsChat h
