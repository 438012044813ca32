-- ===== src/Router/Routing.antt =====
-- `tryProvidersByType` and `RouteWith` of backend/internal/router/router.go.
pub mod Loop
pub mod Chain
pub mod Safety
use router_x.Base.Int.{pos}
use router_x.Base.{
  String, Bool, true, false, Option, none, some, List, [], ◌∷◌, ◌++◌, ◌⊎◌, inl, inr, ok, err,
  is_empty, if◌then◌else◌, Result,
}
use router_x.Models.{ChatCompletionRequest, no_response}
use router_x.Store.Types.{Provider, RoutingRule}
use router_x.Router.Types.{
  RouteOptions, default_route_options, SortMode, sort_latency, Capability, text, vision, Attempt,
  Failure, no_enabled_provider, no_capable_provider, Step, auto_route, catalog_lookup,
  not_in_catalog, rule_primary, rule_secondary, RouteError, routing_failed, no_provider_available,
}
use router_x.Router.Candidates.{candidates, in_order, override_keys, is_given}
use router_x.Router.Sorting.{less_latency, less_default, touch_circuits}
use router_x.Router.Env.{Env, World}
use router_x.Router.Attempt.{request_has_image, try_provider}

-- The zero results beside an error.
abbrev pub failed : {X : Type 0} → Option X → Attempt X
failed e = record {
  response = no_response;
  provider = "";
  fallback = false;
  ttft = 0;
  tokens = pos 0;
  error = e;
}

abbrev pub has_two : List Provider → Bool
has_two (p ∷ q ∷ ps) = true
has_two _ = false

-- The error chain after one more attempt.
abbrev pub append_step : List Step → Attempt Failure ⊎ Option Step → Attempt Failure ⊎ List Step
append_step errs (inl a) = inl a
append_step errs (inr none) = inr errs
append_step errs (inr (some s)) = inr (errs ++ s ∷ [])

abbrev pub listed_or_none : Result (List Provider) → List Provider
listed_or_none (ok ps) = ps
listed_or_none (err e) = []

abbrev pub or_step : (Failure → Step) → Attempt Failure → Attempt Failure ⊎ Step
or_step f a = elim a.error [ none ↦ inl a | some e ↦ inr (f e) ]

abbrev pub without_error : Attempt Failure → Attempt RouteError
without_error a = record {
  response = a.response;
  provider = a.provider;
  fallback = a.fallback;
  ttft = a.ttft;
  tokens = a.tokens;
  error = none;
}

-- Step 5.
abbrev pub conclude : String → String → Attempt Failure ⊎ List Step → Attempt RouteError
conclude tenant_id model (inl a) = without_error a
conclude tenant_id model (inr []) = failed (some (no_provider_available model tenant_id))
conclude tenant_id model (inr (s ∷ ss)) = failed (some (routing_failed model (s ∷ ss)))

abbrev pub rule_model : Result RoutingRule → String
rule_model (ok rule) = if is_empty rule.model then "default" else rule.model
rule_model (err e) = "default"

module _ {F E : Type 0} (env : Env F E) where
  unfoldable pub sort_by : SortMode → List Provider → World E → List Provider × World E
  sort_by sort_latency ps w = (env.sort_slice (less_latency w.router) ps, w)
  sort_by _ ps w = (
    env.sort_slice (less_default (env.now w.env) w.router) ps,
    if has_two ps then record w { router = touch_circuits w.router ps } else w,
  )

  -- The order in which the candidates are tried, and what sorting leaves in the router.
  unfoldable pub arrange : RouteOptions → List Provider → World E → List Provider × World E
  unfolding sort_by
  arrange opts ps w =
      if is_given opts.provider_order
      then (in_order opts.provider_order ps, w)
      else sort_by opts.sort ps w

  -- The loop over the candidates: `later` is `i > 0` and `last` is `lastErr`.
  unfoldable pub try_candidates :
      Bool
      → Bool
      → Option Failure
      → List Provider
      → ChatCompletionRequest F
      → Bool
      → World E
      → Attempt Failure × World E
  try_candidates fallbacks later last [] req stream w = (failed last, w)
  try_candidates fallbacks later last (p ∷ ps) req stream w =
      let (a, w') = try_provider env p req stream w in
      let rest = try_candidates fallbacks true a.error ps req stream w' in
      elim a.error [
        | none ↦ (record a { fallback = later }, w')
        | some e ↦ if fallbacks then rest else (failed a.error, w')
      ]

  unfoldable pub try_listed :
      String
      → Capability
      → RouteOptions
      → List Provider
      → ChatCompletionRequest F
      → Bool
      → World E
      → Attempt Failure × World E
  try_listed provider_type capability opts [] req stream w =
      (failed (some (no_enabled_provider provider_type)), w)
  try_listed provider_type capability opts (q ∷ qs) req stream w =
      let chosen = candidates env.equal_fold opts capability (q ∷ qs) in
      let (ordered, w') = arrange opts chosen w in
      if is_given chosen
      then try_candidates opts.allow_fallbacks false none (override_keys opts.byok_key ordered) req
          stream w'
      else (failed (some (no_capable_provider capability provider_type)), w)

  unfoldable pub try_providers_by_type :
      String
      → Capability
      → RouteOptions
      → ChatCompletionRequest F
      → Bool
      → World E
      → Attempt Failure × World E
  try_providers_by_type provider_type capability opts req stream w =
      let (r, e) = env.get_enabled_providers_by_type provider_type w.env in
      try_listed provider_type capability opts (listed_or_none r) req stream (record w { env = e })

  abbrev by_type :
      Result String
      → Capability
      → RouteOptions
      → ChatCompletionRequest F
      → Bool
      → World E
      → (Attempt Failure ⊎ Step) × World E
  by_type (ok t) capability opts req stream w =
      if is_empty t
      then (inr not_in_catalog, w)
      else (let (a, w') = try_providers_by_type t capability opts req stream w in
          (or_step (auto_route t) a, w'))
  by_type (err e) capability opts req stream w = (inr (catalog_lookup e), w)

  -- Step 3: routing by the model catalog.
  unfoldable pub through_catalog :
      Capability
      → RouteOptions
      → ChatCompletionRequest F
      → Bool
      → World E
      → (Attempt Failure ⊎ Step) × World E
  through_catalog capability opts req stream w =
      let (r, e) = env.get_model_provider req.model w.env in
      by_type r capability opts req stream (record w { env = e })

  -- One provider of a rule, by its ID: the attempt, or what to append to the error chain, which is
  -- nothing where the provider cannot be read.
  abbrev read_and_try :
      (String → Failure → Step)
      → Bool
      → Result Provider
      → ChatCompletionRequest F
      → Bool
      → World E
      → (Attempt Failure ⊎ Option Step) × World E
  read_and_try step fallback (err e) req stream w = (inr none, w)
  read_and_try step fallback (ok p) req stream w =
      let (a, w') = try_provider env p req stream w in
      (
        elim a.error [
          | none ↦ inl (record a { fallback = fallback })
          | some e ↦ inr (some (step p.name e))
        ],
        w',
      )

  unfoldable pub try_rule_provider :
      (String → Failure → Step)
      → Bool
      → String
      → ChatCompletionRequest F
      → Bool
      → World E
      → (Attempt Failure ⊎ Option Step) × World E
  try_rule_provider step fallback id req stream w =
      let (r, e) = env.get_provider_by_id id w.env in
      read_and_try step fallback r req stream (record w { env = e })

  abbrev with_secondary :
      List Step
      → RoutingRule
      → ChatCompletionRequest F
      → Bool
      → (Attempt Failure ⊎ Option Step) × World E
      → (Attempt Failure ⊎ List Step) × World E
  with_secondary errs rule req stream (inl a, w) = (inl a, w)
  with_secondary errs rule req stream (inr none, w) = (inr errs, w)
  with_secondary errs rule req stream (inr (some s), w) =
      if is_empty rule.secondary_provider_id
      then (inr (errs ++ s ∷ []), w)
      else (let (r, w') =
            try_rule_provider rule_secondary true rule.secondary_provider_id req stream w in
          (append_step (errs ++ s ∷ []) r, w'))

  -- Step 4: the providers of the tenant's rule, if there is one, after the errors so far.
  unfoldable pub through_rule :
      List Step
      → Result RoutingRule
      → ChatCompletionRequest F
      → Bool
      → World E
      → (Attempt Failure ⊎ List Step) × World E
  through_rule errs (err e) req stream w = (inr errs, w)
  through_rule errs (ok rule) req stream w =
      with_secondary errs rule req stream
        (try_rule_provider rule_primary false rule.primary_provider_id req stream w)

  abbrev after_catalog :
      Result RoutingRule
      → ChatCompletionRequest F
      → Bool
      → (Attempt Failure ⊎ Step) × World E
      → (Attempt Failure ⊎ List Step) × World E
  after_catalog rule req stream (inl a, w) = (inl a, w)
  after_catalog rule req stream (inr s, w) = through_rule (s ∷ []) rule req stream w

  -- `RouteWith`
  unfoldable pub route_with :
      String
      → ChatCompletionRequest F
      → Bool
      → RouteOptions
      → World E
      → Attempt RouteError × World E
  route_with tenant_id req stream opts w =
      let image = request_has_image env.json req in
      let capability = if image then vision else text in
      let name = if image then "vision" else "text" in
      let (rule, e) = env.get_routing_rule tenant_id name w.env in
      let model = if is_empty req.model then rule_model rule else req.model in
      let req' : ChatCompletionRequest F = record req { model = model } in
      let (r, w') =
        after_catalog rule req' stream
          (through_catalog capability opts req' stream (record w { env = e })) in
      (conclude tenant_id model r, w')

  -- `Route`
  unfoldable pub route :
      String → ChatCompletionRequest F → Bool → World E → Attempt RouteError × World E
  unfolding route_with
  route tenant_id req stream w = route_with tenant_id req stream default_route_options w

  -- `RouteWithSort`
  unfoldable pub route_with_sort :
      String → ChatCompletionRequest F → Bool → SortMode → World E → Attempt RouteError × World E
  unfolding route_with
  route_with_sort tenant_id req stream mode w =
      route_with tenant_id req stream (record default_route_options { sort = mode }) w
