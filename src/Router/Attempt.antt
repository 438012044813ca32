-- ===== src/Router/Attempt.antt =====
-- `tryProvider` of backend/internal/router/router.go: one call of one provider.
pub mod Isolation
use router_x.Base.Int.{ℤ, pos}
use router_x.Base.{
  ℕ, String, Bool, true, false, not, ◌&&◌, Option, none, some, List, [], ◌∷◌, if◌then◌else◌, anyb,
  insert,
}
use router_x.Models.{ChatCompletionRequest, no_response, Message}
use router_x.Models.Content.{Json, content_has_image}
use router_x.Store.Types.{Provider}
use router_x.Router.Types.{
  Attempt, Failure, provider_disabled, lacks_vision, lacks_text, circuit_open, upstream,
  RouterState, circuit_of, circuit_for,
}
use router_x.Router.Circuit.{allow, record_outcome}
use router_x.Router.Latency.{record_latency}
use router_x.Router.Env.{Env, Reply, World}

module _ {F : Type 0} where
  unfoldable pub request_has_image : Json → ChatCompletionRequest F → Bool
  request_has_image json req = anyb (λ m. content_has_image json m.content) req.messages

-- The three guards before the circuit is asked; `image` is `requestHasImage(req)`.
unfoldable pub refusal : Provider → Bool → Option Failure
refusal p image =
    if not p.enabled
    then some provider_disabled
    else if image && not p.supports_vision
    then some lacks_vision
    else if not image && not p.supports_text
    then some lacks_text
    else none

abbrev pub refused : Provider → Failure → Attempt Failure
refused p f = record {
  response = no_response;
  provider = p.name;
  fallback = false;
  ttft = 0;
  tokens = pos 0;
  error = some f;
}

abbrev pub is_ok {ℓ} : {A : Type ℓ} → Option A → Bool
is_ok none = true
is_ok (some e) = false

abbrev pub as_failure : Option String → Option Failure
as_failure none = none
as_failure (some e) = some (upstream e)

-- What the outcome of a call leaves in the router: one sample in the provider's circuit and, if the
-- call succeeded, its latency.
unfoldable pub settle : ℕ → Provider → Reply → RouterState → RouterState
settle now p reply st = record {
  circuits = insert p.id (record_outcome now (circuit_of st p.id) (is_ok reply.error)) st.circuits;
  latency = if is_ok reply.error then record_latency st.latency p.id reply.ttft else st.latency;
}

module _ {F E : Type 0} (env : Env F E) where
  -- The part of `tryProvider` after its guards.
  unfoldable pub call_provider :
      Provider → ChatCompletionRequest F → Bool → World E → Attempt Failure × World E
  call_provider p req stream w =
      let st = circuit_for w.router p.id in
      let (reply, e) = env.chat p req stream w.env in
      let settled = settle (env.now e) p reply (env.others e st) in
      (
        record {
          response = reply.response;
          provider = p.name;
          fallback = false;
          ttft = reply.ttft;
          tokens = reply.tokens;
          error = as_failure reply.error;
        },
        record { router = settled; env = env.note_health p.id (is_ok reply.error) e },
      )

  abbrev guarded :
      Option Failure
      → Provider
      → ChatCompletionRequest F
      → Bool
      → World E
      → Attempt Failure × World E
  guarded (some f) p req stream w = (refused p f, w)
  guarded none p req stream w =
      if allow (env.now w.env) (circuit_of w.router p.id)
      then call_provider p req stream w
      else (refused p circuit_open, record w { router = circuit_for w.router p.id })

  unfoldable pub try_provider :
      Provider → ChatCompletionRequest F → Bool → World E → Attempt Failure × World E
  try_provider p req stream w = guarded (refusal p (request_has_image env.json req)) p req stream w
