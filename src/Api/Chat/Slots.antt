-- ===== src/Api/Chat/Slots.antt =====
-- The concurrency slots that `ChatCompletions` takes and gives back.
use router_x.Base.Int.{ℤ, pos, ◌+ℤ◌, ◌-ℤ◌}
use router_x.Base.Float.{Float64}
use router_x.Base.{
  ◌⊎◌, inl, inr, String, Bool, true, false, ◌≡◌, refl, ◌∙◌, ap, none, some, Result, ok, err, str_eq,
  arith, if◌then◌else◌,
}
use router_x.Models.{ChatCompletionRequest}
use router_x.Store.Types.{Tenant}
use router_x.Store.Db.{Db}
use router_x.Router.Types.{RouteOptions}
use router_x.Api.Http.{ChatHttp, Event, Response, Server, Services}
use router_x.Api.Chat.{
  serve, with_slot, after_acquire, after_allow, chat_completions, job_of, after_key_check,
  key_check,
}
use router_x.Api.Chat.Serving.{KeepsCache, serve-IsSafe}
use router_x.Api.Options.{extract_api_key}
use router_x.Api.Billing.{Job, over_limit}

-- One slot of a tenant, seen from the tenant `x`.
abbrev pub slot : String → String → ℤ
slot x id = if str_eq x id then pos 1 else pos 0

-- What is relied on, for every call after which the context of the request is still alive. It was alive
-- before, since a context that is done stays done. An acquisition that succeeds takes one slot of its
-- tenant, any other takes none, a release gives one back, and nothing else that the handler calls moves
-- the count of slots. Nothing is said of calls with a context that is done: of those, commands may not be
-- sent.
pub record CountsHeld {F E : Type 0} (services : Services F E) (held : String → E → ℤ)
    (live : E → Bool) : Type 0 where
  pub taken :
      (x id : String) (e : E)
      → (services.acquire id e).0 ≡ ok true
      → live (services.acquire id e).1 ≡ true
      → (live e ≡ true) × (held x (services.acquire id e).1 ≡ held x e +ℤ slot x id)
  pub refused :
      (x id : String) (e : E)
      → ¬ (services.acquire id e).0 ≡ ok true
      → live (services.acquire id e).1 ≡ true
      → (live e ≡ true) × (held x (services.acquire id e).1 ≡ held x e)
  pub given_back :
      (x id : String) (e : E)
      → live (services.release id e) ≡ true
      → (live e ≡ true) × (held x (services.release id e) ≡ held x e -ℤ slot x id)
  pub allow_keeps :
      (x id : String) (e : E)
      → live (services.allow id e).1 ≡ true
      → (live e ≡ true) × (held x (services.allow id e).1 ≡ held x e)
  pub get_keeps :
      (x key : String) (e : E)
      → live (services.cache_get key e).1 ≡ true
      → (live e ≡ true) × (held x (services.cache_get key e).1 ≡ held x e)
  pub set_keeps :
      (x key text : String) (e : E)
      → live (services.cache_set key text e) ≡ true
      → (live e ≡ true) × (held x (services.cache_set key text e) ≡ held x e)
  pub fire_keeps :
      (x : String) (event : Event F) (s : Server F E)
      → live (services.fire event s).env ≡ true
      → (live s.env ≡ true) × (held x (services.fire event s).env ≡ held x s.env)
  pub route_keeps :
      (x id : String) (req : ChatCompletionRequest F) (stream : Bool) (o : RouteOptions)
      (s : Server F E)
      → live (services.route id req stream o s).1.env ≡ true
      → (live s.env ≡ true) × (held x (services.route id req stream o s).1.env ≡ held x s.env)

pub add_sub : (a b : ℤ) → a +ℤ b -ℤ b ≡ a
unfolding ◌+ℤ◌ ◌-ℤ◌
add_sub a b = ground arith

module _ {F E : Type 0} ⦃fl : Float64 F⦄ (services : Services F E) (held : String → E → ℤ)
    (live : E → Bool) (c : CountsHeld services held live) (x : String) where
  -- There are `n` slots of `x` taken, if the context is alive.
  abbrev Holds : ℤ → E → Type 0
  Holds n e = live e ≡ true → held x e ≡ n

  abbrev Leaves : ℤ → Response × Server F E → Type 0
  Leaves n (r, s) = Holds n s.env

  -- What moves no slot keeps their number.
  kept :
      (n : ℤ) (e e' : E)
      → (live e' ≡ true → (live e ≡ true) × (held x e' ≡ held x e))
      → Holds n e
      → Holds n e'
  kept n e e' same h a = let (b, k) = same a in k ∙ h b

  if_Leaves :
      (n : ℤ) (b : Bool) (p q : Response × Server F E)
      → Leaves n p
      → Leaves n q
      → Leaves n (if b then p else q)
  if_Leaves n true p q hp hq = hp
  if_Leaves n false p q hp hq = hq

  keeps_cache : (n : ℤ) → KeepsCache services (Holds n)
  keeps_cache n = record {
    gets = λ key e h. kept n e _ (c.get_keeps x key e) h;
    sets = λ key text e h. kept n e _ (c.set_keeps x key text e) h;
    fires = λ event s h. kept n s.env _ (c.fire_keeps x event s) h;
  }

  serve-Leaves :
      (n : ℤ) (http : ChatHttp F) (job : Job F) (s : Server F E)
      → Holds n s.env
      → Leaves n (serve services http job s)
  serve-Leaves n http job s h =
      serve-IsSafe services (Holds n) (keeps_cache n) http job s.db.tables
        (λ s' same h'. kept n s'.env _ (c.route_keeps x _ _ _ _ s') h') s refl h

  checked-Leaves :
      (n : ℤ) (t : Tenant F) (http : ChatHttp F) (job : Job F) (e : E) (p : Bool × Db F)
      → Holds n e
      → Leaves n (after_key_check services t http job e p)
  checked-Leaves n t http job e (refused, db) h = if_Leaves n refused _ _ h (
      if_Leaves n (fl.le t.balance_usd fl.zero_f) _ _ h
        (serve-Leaves n http job (record { db = db; env = e }) h))

  with_slot-Leaves :
      (n : ℤ) (t : Tenant F) (http : ChatHttp F) (s : Server F E)
      → Holds n s.env
      → Leaves n (with_slot services t http s)
  unfolding with_slot
  with_slot-Leaves n t http s h =
      elim http.body as (λ body. Leaves n (with_slot services t (record http { body = body }) s)) [
        | none ↦ h
        | some req ↦
            let http' : ChatHttp F = record http { body = some req } in
            let job = job_of services t http' req in
            checked-Leaves n t http' job s.env
              (key_check services (extract_api_key services.texts http'.authorization)
                job.request.model s.db)
              h
      ]

  -- After an acquisition that was answered, and with its effect on the slots.
  after_acquire-Leaves :
      (n m : ℤ) (t : Tenant F) (http : ChatHttp F) (db : Db F) (p : Result Bool × E)
      → ((p.0 ≡ ok true) × Holds m p.1 × (m ≡ n +ℤ slot x t.id)) ⊎ (¬ (p.0 ≡ ok true) × Holds n p.1)
      → Leaves n (after_acquire services t http db p)
  after_acquire-Leaves n m t http db (ok true, e) (inl (answer, h, more)) a =
      let (b, back) = c.given_back x t.id _ a in
      back
      ∙ ap (λ k. k -ℤ slot x t.id)
          (with_slot-Leaves m t http (record { db = db; env = e }) h b ∙ more)
      ∙ add_sub n (slot x t.id)
  after_acquire-Leaves n m t http db (ok true, e) (inr (not_ok, h)) a = absurd (not_ok refl)
  after_acquire-Leaves n m t http db (ok false, e) (inl (answer, h, more)) a = cc
  after_acquire-Leaves n m t http db (ok false, e) (inr (not_ok, h)) a = h a
  after_acquire-Leaves n m t http db (err f, e) (inl (answer, h, more)) a = cc
  after_acquire-Leaves n m t http db (err f, e) (inr (not_ok, h)) a = h a

  is_granted : (b : Result Bool) → (b ≡ ok true) ⊎ (¬ b ≡ ok true)
  is_granted (ok true) = inl refl
  is_granted (ok false) = inr (λ h. cc)
  is_granted (err m) = inr (λ h. cc)

  acquired-Leaves :
      (n : ℤ) (t : Tenant F) (http : ChatHttp F) (db : Db F) (e : E)
      → Holds n e
      → Leaves n (after_acquire services t http db (services.acquire t.id e))
  acquired-Leaves n t http db e h =
      after_acquire-Leaves n (n +ℤ slot x t.id) t http db (services.acquire t.id e)
        (elim (is_granted (services.acquire t.id e).0) [
          | inl g ↦ inl (
            g,
            λ a. let (b, k) = c.taken x t.id e g a in k ∙ ap (λ m. m +ℤ slot x t.id) (h b),
            refl,
          )
          | inr f ↦ inr (f, kept n e _ (c.refused x t.id e f) h)
        ])

  allowed-Leaves :
      (t : Tenant F) (http : ChatHttp F) (db : Db F) (n : ℤ) (p : Result Bool × E)
      → Holds n p.1
      → Leaves n (after_allow services t http db p)
  allowed-Leaves t http db n (ok true, e) h = acquired-Leaves n t http db e h
  allowed-Leaves t http db n (ok false, e) h = h
  allowed-Leaves t http db n (err m, e) h = h

  -- On every path of the handler, errors included, each tenant has as many slots taken after the
  -- request as before it, provided that the context of the request is alive at the end.
  pub chat_completions_slots :
      (http : ChatHttp F) (s : Server F E)
      → live (chat_completions services http s).1.env ≡ true
      → held x (chat_completions services http s).1.env ≡ held x s.env
  unfolding chat_completions
  chat_completions_slots http s =
      let n = held x s.env in
      let same : Holds n s.env = λ a. refl in
      elim http.tenant
        as (λ t. Leaves n (chat_completions services (record http { tenant = t }) s)) [
          | none ↦ same
          | some t ↦ if_Leaves n t.suspended _ _ same (
              if_Leaves n (over_limit t) _ _ same (
                allowed-Leaves t (record http { tenant = some t }) s.db n
                  (services.allow t.id s.env) (kept n s.env _ (c.allow_keeps x t.id s.env) same)))
        ]
