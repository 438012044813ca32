-- ===== src/Router/Attempt/Isolation.antt =====
-- What one attempt changes.
use router_x.Base.{
  ℕ, String, Bool, true, ◌&&◌, none, ◌++◌, ◌∷◌, [], ◌≡◌, refl, ◌≢◌, inl, inr, Bool-cases,
  Option-cases, arith, lookup, lookup-insert, eq_iff, str_eq, if◌then◌else◌, keep_last,
}
use router_x.Models.{ChatCompletionRequest}
use router_x.Store.Types.{Provider}
use router_x.Router.Types.{RouterState, circuit_of, circuit_for, or_fresh}
use router_x.Router.Circuit.{fresh, allow, record_outcome}
use router_x.Router.Latency.{samples_of, samples_of-record_latency}
use router_x.Router.Env.{Env, Reply, World}
use router_x.Router.Attempt.{
  request_has_image, refusal, is_ok, settle, call_provider, try_provider, as_failure,
}

-- Giving a provider its first circuit changes what no one reads of any circuit.
pub circuit_of-circuit_for :
    (st : RouterState) (p q : String) → circuit_of (circuit_for st p) q ≡ circuit_of st q
unfolding circuit_of circuit_for
circuit_of-circuit_for st p q = ground (arith, lookup-insert p q fresh st.circuits, eq_iff p q)

pub circuit_of-settle :
    (now : ℕ) (p : Provider) (reply : Reply) (st : RouterState) (q : String)
    → circuit_of (settle now p reply st) q ≡ (
        if str_eq p.id q
        then record_outcome now (circuit_of st p.id) (is_ok reply.error)
        else circuit_of st q)
unfolding circuit_of settle
circuit_of-settle now p reply st q =
    let c = record_outcome now (or_fresh (lookup p.id st.circuits)) (is_ok reply.error) in
    ground (arith, lookup-insert p.id q c st.circuits)

samples_of-settle :
    (now : ℕ) (p : Provider) (reply : Reply) (st : RouterState) (q : String)
    → samples_of (settle now p reply st).latency q ≡ (
        if is_ok reply.error && str_eq p.id q
        then keep_last st.latency.window (samples_of st.latency p.id ++ reply.ttft ∷ [])
        else samples_of st.latency q)
unfolding settle
samples_of-settle now p reply st q =
    ground (arith, samples_of-record_latency st.latency p.id q reply.ttft)

latency-circuit_for : (st : RouterState) (p : String) → (circuit_for st p).latency ≡ st.latency
unfolding circuit_for
latency-circuit_for st p = ground arith

-- The guards of an attempt, the circuit's among them, let the provider be called.
abbrev pub MayCall :
    {F E : Type 0} → Env F E → Provider → ChatCompletionRequest F → World E → Type 0
MayCall env p req w =
    (refusal p (request_has_image env.json req) ≡ none)
    × (allow (env.now w.env) (circuit_of w.router p.id) ≡ true)

module _ {F E : Type 0} (env : Env F E) where
  -- An attempt that a guard or an open circuit refuses reports an error and calls no provider: the
  -- surroundings are as before, and so are every circuit and the latencies.
  pub try_provider_refused :
      (p : Provider) (req : ChatCompletionRequest F) (stream : Bool) (w : World E)
      → ¬ MayCall env p req w
      → let (a, after) = try_provider env p req stream w in
        (a.error ≢ none)
        × (after.env ≡ w.env)
        × ((q : String) → circuit_of after.router q ≡ circuit_of w.router q)
        × (after.router.latency ≡ w.router.latency)
  unfolding try_provider
  try_provider_refused p req stream w h =
      elim (Option-cases (refusal p (request_has_image env.json req))) [
        | inr (f, e) ↦ rw (e, try_provider) (λ x. cc, refl, λ q. refl, refl)
        | inl e ↦ elim (Bool-cases (allow (env.now w.env) (circuit_of w.router p.id))) [
          | inl a ↦ absurd (h (e, a))
          | inr a ↦
              rw (e, try_provider)
                (rw a (
                  λ x. cc,
                  refl,
                  λ q. circuit_of-circuit_for w.router p.id q,
                  latency-circuit_for w.router p.id,
                ))
        ]
      ]

  -- An attempt that is let through reports the provider's own result, adds that outcome to the
  -- provider's circuit, and its latency to the provider's latencies just when it succeeded. The
  -- circuits and latencies of all other providers are those that the call found when it came back.
  pub try_provider_called :
      (p : Provider) (req : ChatCompletionRequest F) (stream : Bool) (w : World E)
      → MayCall env p req w
      → let (a, after) = try_provider env p req stream w in
        let (reply, e) = env.chat p req stream w.env in
        let found = env.others e (circuit_for w.router p.id) in
        (a.error ≡ as_failure reply.error)
        × (after.env ≡ env.note_health p.id (is_ok reply.error) e)
        × ((q : String)
            → circuit_of after.router q ≡ (
                if str_eq p.id q
                then record_outcome (env.now e) (circuit_of found p.id) (is_ok reply.error)
                else circuit_of found q))
        × ((q : String)
            → samples_of after.router.latency q ≡ (
                if is_ok reply.error && str_eq p.id q
                then keep_last found.latency.window
                    (samples_of found.latency p.id ++ reply.ttft ∷ [])
                else samples_of found.latency q))
  unfolding try_provider call_provider
  try_provider_called p req stream w h =
      let (reply, e) = env.chat p req stream w.env in
      let found = env.others e (circuit_for w.router p.id) in
      rw (h.0, try_provider)
        (rw h.1 (
          refl,
          refl,
          λ q. circuit_of-settle (env.now e) p reply found q,
          λ q. samples_of-settle (env.now e) p reply found q,
        ))
