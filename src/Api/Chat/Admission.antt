-- ===== src/Api/Chat/Admission.antt =====
-- Which requests `ChatCompletions` lets through to the router.
use router_x.Base.Float.{Float64}
use router_x.Base.{
  String, Bool, true, false, ◌≡◌, refl, ◌∙◌, sym, ap, ◌⊎◌, inl, inr, some, [], ◌∷◌, Result, ok, err,
  is_empty, arith, if-split, if-known, Option-known,
}
use router_x.Models.{ChatCompletionRequest}
use router_x.Store.Types.{Tenant, ApiKey}
use router_x.Store.Db.{Db}
use router_x.Store.Keys.{get_api_key}
use router_x.Store.Queries.{query_row-tables}
use router_x.Api.Http.{ChatHttp, Server, Services}
use router_x.Api.Chat.{
  with_slot, after_acquire, after_allow, chat_completions, job_of, after_key_check, key_check,
  effective_model, refuses,
}
use router_x.Api.Chat.Serving.{KeepsCache, Kept, serve-IsSafe}
use router_x.Api.Options.{extract_api_key, contains, route_options}
use router_x.Api.Billing.{over_limit}

module _ {F E : Type 0} ⦃fl : Float64 F⦄ (services : Services F E) (http : ChatHttp F)
    (s : Server F E) where
  -- A request of a tenant that is active, under its limit and has money, that the limiter lets pass and
  -- gives a slot, for a model that its key allows.
  pub record IsAdmitted (t : Tenant F) (req : ChatCompletionRequest F) : Type 0 where
    pub tenant : http.tenant ≡ some t
    pub body : http.body ≡ some req
    pub active : t.suspended ≡ false
    pub under_limit : over_limit t ≡ false
    pub funded : fl.le t.balance_usd fl.zero_f ≡ false
    pub allowed : (services.allow t.id s.env).0 ≡ ok true
    pub acquired : (services.acquire t.id (services.allow t.id s.env).1).0 ≡ ok true
    pub permitted :
        let key = extract_api_key services.texts http.authorization in
        (k : ApiKey)
        → is_empty key ≡ false
        → (get_api_key key s.db).0 ≡ ok k
        → (k.allowed_models ≡ [])
          ⊎ (contains k.allowed_models (effective_model services req.model).0 ≡ true)

  -- What keeps a property of the surroundings: all but the router, and the router for such requests.
  pub record KeepsChat (Safe : E → Type 0) : Type 0 where
    pub allows : (id : String) (e : E) → Safe e → Safe (services.allow id e).1
    pub acquires : (id : String) (e : E) → Safe e → Safe (services.acquire id e).1
    pub releases : (id : String) (e : E) → Safe e → Safe (services.release id e)
    pub cache : KeepsCache services Safe
    pub routes :
        (t : Tenant F) (req : ChatCompletionRequest F) (s' : Server F E)
        → IsAdmitted t req
        → s'.db.tables ≡ s.db.tables
        → Safe s'.env
        → Safe
            (services.route t.id
              (record req { model = (effective_model services req.model).0 })
              req.stream
              (route_options services.texts http)
              s').1.env

  module _ (Safe : E → Type 0) (c : KeepsChat Safe) where
    permitted-refuses :
        (model : String) (r : Result ApiKey) (k : ApiKey)
        → refuses services model r ≡ false
        → r ≡ ok k
        → (k.allowed_models ≡ []) ⊎ (contains k.allowed_models model ≡ true)
    permitted-refuses model r k h e =
        elim k.allowed_models
            as (λ ms.
              refuses services model (ok (record k { allowed_models = ms })) ≡ false
              → (ms ≡ []) ⊎ (contains ms model ≡ true)) [
                | [] ↦ λ x. inl refl
                | m ∷ ms ↦ λ x. inr (ground arith)
              ]
          (sym (ap (refuses services model) e) ∙ h)

    permitted-key_check :
        (key model : String)
        → (key_check services key model s.db).0 ≡ false
        → (k : ApiKey) → is_empty key ≡ false
        → (get_api_key key s.db).0 ≡ ok k
        → (k.allowed_models ≡ []) ⊎ (contains k.allowed_models model ≡ true)
    unfolding key_check
    permitted-key_check key model h k given e =
        permitted-refuses model (get_api_key key s.db).0 k (rw given at h) e

    key_check-tables :
        (key model : String) → (key_check services key model s.db).1.tables ≡ s.db.tables
    unfolding key_check get_api_key
    key_check-tables key model =
        if-split (λ (p : Bool × Db F). p.1.tables ≡ s.db.tables) (is_empty key) refl
          (query_row-tables _ s.db)

    module _ (t : Tenant F) (given : http.tenant ≡ some t) (active : t.suspended ≡ false)
        (under : over_limit t ≡ false) where
      checked-IsSafe :
          (req : ChatCompletionRequest F) (e : E) (p : Bool × Db F)
          → (fl.le t.balance_usd fl.zero_f ≡ false → p.0 ≡ false → IsAdmitted t req)
          → p.1.tables ≡ s.db.tables
          → Safe e
          → (Kept services Safe c.cache)
              (after_key_check services t http (job_of services t http req) e p)
      checked-IsSafe req e (refused, db) may same h =
          if-known (Kept services Safe c.cache) refused (λ r. h)
            (λ r.
              if-known (Kept services Safe c.cache) (fl.le t.balance_usd fl.zero_f) (λ f. h)
                (λ f.
                  serve-IsSafe services Safe c.cache http (job_of services t http req) s.db.tables
                    (λ s'. c.routes t req s' (may f r)) (record { db = db; env = e }) same h))

      with_slot-IsSafe :
          (e : E)
          → (services.allow t.id s.env).0 ≡ ok true
          → (services.acquire t.id (services.allow t.id s.env).1).0 ≡ ok true
          → Safe e
          → (Kept services Safe c.cache) (with_slot services t http (record { db = s.db; env = e }))
      unfolding with_slot
      with_slot-IsSafe e a q h = Option-known (Kept services Safe c.cache) http.body h (λ req body.
          checked-IsSafe req e
            (key_check services (extract_api_key services.texts http.authorization)
              (effective_model services req.model).0 s.db)
            (λ f r. record {
              tenant = given;
              body = body;
              active = active;
              under_limit = under;
              funded = f;
              allowed = a;
              acquired = q;
              permitted = permitted-key_check _ _ r;
            })
            (key_check-tables (extract_api_key services.texts http.authorization) _) h)

      acquired-IsSafe :
          (services.allow t.id s.env).0 ≡ ok true
          → (p : Result Bool × E) → services.acquire t.id (services.allow t.id s.env).1 ≡ p
          → Safe p.1
          → (Kept services Safe c.cache) (after_acquire services t http s.db p)
      acquired-IsSafe a (ok true, e) q h =
          c.releases t.id _ (with_slot-IsSafe e a (ap (λ x. x.0) q) h)
      acquired-IsSafe a (ok false, e) q h = h
      acquired-IsSafe a (err m, e) q h = h

      allowed-IsSafe :
          (p : Result Bool × E)
          → services.allow t.id s.env ≡ p
          → Safe p.1
          → (Kept services Safe c.cache) (after_allow services t http s.db p)
      allowed-IsSafe (ok true, e) q h =
          rw (sym (ap (λ x. x.1) q))
            (acquired-IsSafe (ap (λ x. x.0) q) _ refl (c.acquires t.id _ (rw (ap (λ x. x.1) q) h)))
      allowed-IsSafe (ok false, e) q h = h
      allowed-IsSafe (err m, e) q h = h

    -- `ChatCompletions` calls the router for nothing but a request of a tenant that is neither suspended
    -- nor over its limit and has a positive balance, that the limiter lets pass and gives a slot, for a
    -- model that its key allows if it names models: each property of the surroundings that such calls,
    -- the limiter, the cache and the webhooks keep holds after the handler if it held before.
    pub chat_completions-IsSafe : Safe s.env → Safe (chat_completions services http s).1.env
    unfolding chat_completions
    chat_completions-IsSafe h = Option-known (Kept services Safe c.cache) http.tenant h (λ t given.
        if-known (Kept services Safe c.cache) t.suspended (λ x. h)
          (λ active.
            if-known (Kept services Safe c.cache) (over_limit t) (λ x. h)
              (λ under.
                allowed-IsSafe t given active under (services.allow t.id s.env) refl
                  (c.allows t.id s.env h))))
