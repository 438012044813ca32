-- ===== src/Gateway/Slots.antt =====
-- The concurrency slots in Redis, over a whole chat request.
use mathlib.Core.Path.{subst}
use Prim.Native.Char.{code}
use Prim.Native.String.{◌++◌}
use Prim.Native.String.append
use router_x.Base.Int.{ℤ, pos, ◌+ℤ◌, ◌-ℤ◌, ltb_ℤ}
use router_x.Base.Float.{Float64}
use router_x.Base.{
  err, ℕ, List, String, Bool, true, false, ◌≡◌, refl, sym, ◌∙◌, ap, ◌⊎◌, inl, inr, Result, ok,
  str_eq, arith, if-split, Bool-cases, eq_iff, if◌then◌else◌,
}
use router_x.Limiter.{Redis, acquire, allow, release, conc_key, qps_key, settle, is_one}
use router_x.Models.{ChatCompletionRequest}
use router_x.Router.Types.{RouterState, RouteOptions}
use router_x.Router.Env.{World}
use router_x.Providers.Wire.{HttpRequest}
use router_x.Api.Http.{ChatHttp, Server, Services}
use router_x.Api.Chat.{chat_completions}
use router_x.Api.Chat.Slots.{CountsHeld, slot, add_sub, chat_completions_slots}
use router_x.Gateway.{Outside, Functions, limits, services}
use router_x.Gateway.Posts.{KeepsEntries, route-IsSafe}

-- The names of the keys tell the tenants, and the two limits, apart.
append-injective : (s x y : String) → s ++ x ≡ s ++ y → x ≡ y
append-injective String.[] x y e = sym (append.nil x) ∙ e ∙ append.nil y
append-injective (String.◌∷◌ c s) x y e =
    let e' : String.◌∷◌ c (s ++ x) ≡ String.◌∷◌ c (s ++ y) =
      sym (append.cons c s x) ∙ e ∙ append.cons c s y in
    append-injective s x y (cc)

conc_key-injective : (x id : String) → conc_key x ≡ conc_key id → x ≡ id
conc_key-injective x id e = append-injective "conc:" x id e

unfoldable first_code : String → ℕ
first_code String.[] = 0
first_code (String.◌∷◌ c s) = code c

codes_differ : (a b : ℕ) → a ≡ b → a ≡ 99 → b ≡ 113 → ⊥
codes_differ a b e l r = omega arith

conc_key-ne-qps_key : (x id now : String) → ¬ conc_key x ≡ qps_key id now
unfolding first_code
conc_key-ne-qps_key x id now e =
    let l : conc_key x ≡ String.◌∷◌ "c" ("onc:" ++ x) = append.cons "c" "onc:" x in
    let m : "qps:" ++ id ≡ String.◌∷◌ "q" ("ps:" ++ id) = append.cons "q" "ps:" id in
    let r : qps_key id now ≡ String.◌∷◌ "q" (("ps:" ++ id) ++ (":" ++ now)) =
      ap (λ s. s ++ (":" ++ now)) m ∙ append.cons "q" ("ps:" ++ id) (":" ++ now) in
    codes_differ (first_code (conc_key x)) (first_code (qps_key id now)) (ap first_code e)
      (ap first_code l) (ap first_code r)

slot_same : (key : String) → slot key key ≡ pos 1
slot_same key = rw ((eq_iff key key).1 refl) refl

slot-conc_key : (x id : String) → slot (conc_key x) (conc_key id) ≡ slot x id
slot-conc_key x id = elim (Bool-cases (str_eq x id)) [
  | inl e ↦ rw (e, (eq_iff (conc_key x) (conc_key id)).1 (ap conc_key ((eq_iff x id).0 e))) refl
  | inr e ↦ elim (Bool-cases (str_eq (conc_key x) (conc_key id))) [
    | inl d ↦
        let same =
          (eq_iff x id).1 (conc_key-injective x id ((eq_iff (conc_key x) (conc_key id)).0 d)) in
        cc
    | inr d ↦ rw (e, d) refl
  ]
]

slot-qps_key : (x id now : String) → slot (conc_key x) (qps_key id now) ≡ pos 0
slot-qps_key x id now = elim (Bool-cases (str_eq (conc_key x) (qps_key id now))) [
  | inl e ↦ absurd (conc_key-ne-qps_key x id now ((eq_iff (conc_key x) (qps_key id now)).0 e))
  | inr e ↦ rw e refl
]

-- What is relied on. After a command the context of the request may be alive: then it was alive before,
-- and the command was carried out, on a Redis server that answers and counts each key up and down by
-- one, a key for itself; setting a time to live does not change a value at once. Of a command with a
-- context that is done nothing is said: the client hung up, and it may not have been sent.
pub record CountsKeys {R : Type 0} (redis : Redis R) (count : R → String → ℤ) (live : R → Bool)
    : Type 0 where
  pub answers :
      (key : String) (r : R)
      → live (redis.incr key r).1 ≡ true
      → (redis.incr key r).0 ≡ ok (count r key +ℤ pos 1)
  pub up :
      (key x : String) (r : R)
      → live (redis.incr key r).1 ≡ true
      → (live r ≡ true) × (count (redis.incr key r).1 x ≡ count r x +ℤ slot x key)
  pub down :
      (key x : String) (r : R)
      → live (redis.decr key r) ≡ true
      → (live r ≡ true) × (count (redis.decr key r) x ≡ count r x -ℤ slot x key)
  pub lives :
      (key x : String) (n : ℕ) (r : R)
      → live (redis.expire key n r) ≡ true
      → (live r ≡ true) × (count (redis.expire key n r) x ≡ count r x)
  pub up_for :
      (key x : String) (n : ℕ) (r : R)
      → live (redis.incr_expire key n r).1 ≡ true
      → (live r ≡ true) × (count (redis.incr_expire key n r).1 x ≡ count r x +ℤ slot x key)

add_zero : (a : ℤ) → a +ℤ pos 0 ≡ a
unfolding ◌+ℤ◌
add_zero a = ground arith

module _ {R : Type 0} (redis : Redis R) (count : R → String → ℤ) (live : R → Bool)
    (c : CountsKeys redis count live) where
  abbrev held : String → R → ℤ
  held x r = count r (conc_key x)

  allow-held :
      (x id now : String) (r : R)
      → live (allow redis limits id now r).1 ≡ true
      → (live r ≡ true) × (held x (allow redis limits id now r).1 ≡ held x r)
  unfolding allow
  allow-held x id now r a =
      let (b, k) = c.up_for (qps_key id now) (conc_key x) 2 r a in
      (b, k ∙ ap (λ n. count r (conc_key x) +ℤ n) (slot-qps_key x id now) ∙ add_zero _)

  release-held :
      (x id : String) (r : R)
      → live (release redis limits id r) ≡ true
      → (live r ≡ true) × (held x (release redis limits id r) ≡ held x r -ℤ slot x id)
  unfolding release
  release-held x id r a =
      let (b, k) = c.down (conc_key id) (conc_key x) r a in
      (b, k ∙ ap (λ n. count r (conc_key x) -ℤ n) (slot-conc_key x id))

  -- The time to live of a new key.
  expire_first-held :
      (x key : String) (v : ℤ) (r : R)
      → live (if is_one v then redis.expire key 60 r else r) ≡ true
      → (live r ≡ true) × (held x (if is_one v then redis.expire key 60 r else r) ≡ held x r)
  expire_first-held x key v r =
      if-split (λ r'. live r' ≡ true → (live r ≡ true) × (held x r' ≡ held x r)) (is_one v)
        (c.lives key (conc_key x) 60 r) (λ a. (a, refl))

  settle-live :
      (id : String) (y : Result ℤ × R)
      → live (settle redis limits (conc_key id) y).1 ≡ true
      → live y.1 ≡ true
  settle-live id (err m, r) = λ a. a
  settle-live id (ok v, r) =
      let key = conc_key id in
      let r2 = if is_one v then redis.expire key 60 r else r in
      if-split (λ (y : Result Bool × R). live y.1 ≡ true → live r ≡ true)
        (ltb_ℤ (pos limits.conc) v) (λ a. (expire_first-held id key v r (c.down key key r2 a).0).0)
        (λ a. (expire_first-held id key v r a).0)

  -- What `Acquire` leaves of the slots of any tenant, by its answer.
  abbrev Acquired : String → String → R → Result Bool × R → Type 0
  Acquired x id r (b, r') =
      ((b ≡ ok true) × (held x r' ≡ held x r +ℤ slot x id))
      ⊎ ((b ≡ ok false) × (held x r' ≡ held x r))

  settle-held :
      (x id : String) (v : ℤ) (r r1 : R)
      → held x r1 ≡ held x r +ℤ slot x id
      → live (settle redis limits (conc_key id) (ok v, r1)).1 ≡ true
      → Acquired x id r (settle redis limits (conc_key id) (ok v, r1))
  unfolding release
  settle-held x id v r r1 counted =
      let key = conc_key id in
      let r2 = if is_one v then redis.expire key 60 r1 else r1 in
      if-split (λ (y : Result Bool × R). live y.1 ≡ true → Acquired x id r y)
        (ltb_ℤ (pos limits.conc) v)
        (λ a.
          let (b, back) = release-held x id r2 a in
          inr (
            refl,
            back
                ∙ ap (λ n. n -ℤ slot x id) ((expire_first-held x key v r1 b).1 ∙ counted)
                ∙ add_sub (held x r) (slot x id),
          ))
        (λ a. inl (refl, (expire_first-held x key v r1 a).1 ∙ counted))

  acquire-held :
      (x id : String) (r : R)
      → live (acquire redis limits id r).1 ≡ true
      → (live r ≡ true) × Acquired x id r (acquire redis limits id r)
  unfolding acquire
  acquire-held x id r a =
      let key = conc_key id in
      let r1 = (redis.incr key r).1 in
      let b : live r1 ≡ true = settle-live id (redis.incr key r) a in
      let (d, up) = c.up key (conc_key x) r b in
      let e : redis.incr key r ≡ (ok (count r key +ℤ pos 1), r1) = λ i. (c.answers key r b i, r1) in
      (
        d,
        subst
            (λ y.
              live (settle redis limits key y).1 ≡ true
              → Acquired x id r (settle redis limits key y))
            (sym e)
            (settle-held x id (count r key +ℤ pos 1) r r1
              (up ∙ ap (λ n. held x r +ℤ n) (slot-conc_key x id)))
            a,
      )

-- What leaves the counters alone: everything but the limiter. A context that is alive after it was alive
-- before.
pub record LeavesKeys {E : Type 0} (out : Outside E) (count : E → String → ℤ) (live : E → Bool)
    : Type 0 where
  pub posts :
      (q : HttpRequest) (x : String) (e : E)
      → live (out.wire.post q e).1 ≡ true
      → (live e ≡ true) × (count (out.wire.post q e).1 x ≡ count e x)
  pub sleeps :
      (t : ℕ) (x : String) (e : E)
      → live (out.wire.sleep t e) ≡ true
      → (live e ≡ true) × (count (out.wire.sleep t e) x ≡ count e x)
  pub writes :
      (text x : String) (e : E)
      → live (out.write text e).1 ≡ true
      → (live e ≡ true) × (count (out.write text e).1 x ≡ count e x)
  pub notes :
      (id : String) (good : Bool) (x : String) (e : E)
      → live (out.note_health id good e) ≡ true
      → (live e ≡ true) × (count (out.note_health id good e) x ≡ count e x)
  pub gets :
      (key x : String) (e : E)
      → live (out.cache_get key e).1 ≡ true
      → (live e ≡ true) × (count (out.cache_get key e).1 x ≡ count e x)
  pub sets :
      (key text x : String) (e : E)
      → live (out.cache_set key text e) ≡ true
      → (live e ≡ true) × (count (out.cache_set key text e) x ≡ count e x)
  pub starts :
      (qs : List HttpRequest) (x : String) (e : E)
      → live (out.start qs e) ≡ true
      → (live e ≡ true) × (count (out.start qs e) x ≡ count e x)

module _ {F V E : Type 0} ⦃fl : Float64 F⦄ (out : Outside E) (f : Functions F V)
    (enable_real : Bool) (others : E → RouterState → RouterState) (count : E → String → ℤ)
    (live : E → Bool) (c : CountsKeys out.redis count live) (l : LeavesKeys out count live)
    (sorts : KeepsEntries f.sort_slice) where
  abbrev gateway : Services F (World E)
  gateway = services out f enable_real others

  -- The counter is as at `e`, and the context was alive there, if it is alive now.
  abbrev Unmoved : String → E → E → Type 0
  Unmoved key e e' = live e' ≡ true → (live e ≡ true) × (count e' key ≡ count e key)

  later : (key : String) (e e' e'' : E) → Unmoved key e' e'' → Unmoved key e e' → Unmoved key e e''
  later key e e' e'' second first a = let (b, k) = second a in let (d, j) = first b in (d, k ∙ j)

  route-held :
      (x id : String) (req : ChatCompletionRequest F) (stream : Bool) (o : RouteOptions)
      (s : Server F (World E))
      → Unmoved (conc_key x) s.env.env (gateway.route id req stream o s).1.env.env
  route-held x id req stream o s =
      let key = conc_key x in
      let start = s.env.env in
      route-IsSafe out f enable_real others s.db.tables req stream o (Unmoved key start)
        (record {
          posts = λ q e may h. later key start e _ (l.posts q key e) h;
          sleeps = λ t e h. later key start e _ (l.sleeps t key e) h;
          writes = λ text e h. later key start e _ (l.writes text key e) h;
          notes = λ i good e h. later key start e _ (l.notes i good key e) h;
        })
        sorts id s refl (λ a. (a, refl))

  gateway-CountsHeld : CountsHeld gateway (λ x w. count w.env (conc_key x)) (λ w. live w.env)
  unfolding services
  gateway-CountsHeld = record {
    taken = λ x id w h a.
        let (b, k) = acquire-held out.redis count live c x id w.env a in
        elim k [ inl (g, n) ↦ (b, n) | inr (g, n) ↦ cc ];
    refused = λ x id w h a.
        let (b, k) = acquire-held out.redis count live c x id w.env a in
        elim k [ inl (g, n) ↦ absurd (h g) | inr (g, n) ↦ (b, n) ];
    given_back = λ x id w a. release-held out.redis count live c x id w.env a;
    allow_keeps = λ x id w a. allow-held out.redis count live c x id (out.second w.env) w.env a;
    get_keeps = λ x key w a. l.gets key (conc_key x) w.env a;
    set_keeps = λ x key text w a. l.sets key text (conc_key x) w.env a;
    fire_keeps = λ x event s a. l.starts _ (conc_key x) s.env.env a;
    route_keeps = λ x id req stream o s a. route-held x id req stream o s a;
  }

  -- A chat request to the whole gateway leaves the concurrency counter of every tenant in Redis at what
  -- it was, on every path, errors of the database and providers that fail included, provided that the
  -- context of the request is alive at the end: after a client that hangs up nothing is claimed, since
  -- the command of `Release` has the same context. The other conditions are a Redis server that
  -- answers, counts each key for itself and lets none run out meanwhile, and a `sort.Slice` that
  -- invents no entry.
  pub gateway_slots :
      (http : ChatHttp F) (s : Server F (World E)) (x : String)
      → live (chat_completions gateway http s).1.env.env ≡ true
      → count (chat_completions gateway http s).1.env.env (conc_key x)
        ≡ count s.env.env (conc_key x)
  gateway_slots http s x =
      chat_completions_slots gateway (λ y w. count w.env (conc_key y)) (λ w. live w.env)
        gateway-CountsHeld x http s
