-- ===== src/Router/Routing/Chain.antt =====
-- The error chain of `RouteWith`.
use router_x.Base.{
  String, Bool, true, false, Option, none, some, List, [], ◌∷◌, ◌++◌, ◌⊎◌, inl, inr, ok, err,
  Result, ◌≡◌, refl, is_empty, Bool-cases, if◌then◌else◌,
}
use router_x.Models.{ChatCompletionRequest}
use router_x.Store.Types.{RoutingRule}
use router_x.Router.Types.{
  RouteOptions, Attempt, Failure, Step, RouteError, routing_failed, vision, text, rule_primary,
  rule_secondary,
}
use router_x.Router.Env.{Env, World}
use router_x.Router.Routing.{
  route_with, conclude, through_rule, after_catalog, with_secondary, try_rule_provider, append_step,
  through_catalog, rule_model,
}
use router_x.Router.Attempt.{request_has_image}

-- The chain begins with the step of the catalog.
abbrev Extends : Step → Attempt Failure ⊎ List Step → Type 0
Extends s (inl a) = Unit
Extends s (inr ss) = (more : List Step) × (ss ≡ s ∷ more)

append_step-Extends :
    (s : Step) (more : List Step) (r : Attempt Failure ⊎ Option Step)
    → Extends s (append_step (s ∷ more) r)
append_step-Extends s more (inl a) = tt
append_step-Extends s more (inr none) = (more, refl)
append_step-Extends s more (inr (some s')) = (more ++ s' ∷ [], refl)

conclude-Extends :
    (s : Step) (tenant_id model : String) (r : Attempt Failure ⊎ List Step) (e : RouteError)
    → Extends s r
    → (conclude tenant_id model r).error ≡ some e
    → (more : List Step) × (e ≡ routing_failed model (s ∷ more))
conclude-Extends s tenant_id model (inl a) e x h = cc
conclude-Extends s tenant_id model (inr []) e (more, k) h = cc
conclude-Extends s tenant_id model (inr (t ∷ ts)) e (more, k) h = (more, cc)

module _ {F E : Type 0} (env : Env F E) where
  with_secondary-Extends :
      (s : Step) (rule : RoutingRule) (req : ChatCompletionRequest F) (stream : Bool)
      (x : (Attempt Failure ⊎ Option Step) × World E)
      → Extends s (with_secondary env (s ∷ []) rule req stream x).0
  with_secondary-Extends s rule req stream (inl a, w) = tt
  with_secondary-Extends s rule req stream (inr none, w) = ([], refl)
  with_secondary-Extends s rule req stream (inr (some s'), w) =
      elim (Bool-cases (is_empty rule.secondary_provider_id)) [
        | inl e ↦ rw e (s' ∷ [], refl)
        | inr e ↦ rw e (
            append_step-Extends s (s' ∷ [])
              (try_rule_provider env rule_secondary true rule.secondary_provider_id req stream w).0)
      ]

  through_rule-Extends :
      (s : Step) (rule : Result RoutingRule) (req : ChatCompletionRequest F) (stream : Bool)
      (w : World E)
      → Extends s (through_rule env (s ∷ []) rule req stream w).0
  unfolding through_rule
  through_rule-Extends s (err e) req stream w = ([], refl)
  through_rule-Extends s (ok rule) req stream w =
      with_secondary-Extends s rule req stream
        (try_rule_provider env rule_primary false rule.primary_provider_id req stream w)

  after_catalog_error :
      (tenant_id model : String) (rule : Result RoutingRule) (req : ChatCompletionRequest F)
      (stream : Bool) (x : (Attempt Failure ⊎ Step) × World E) (e : RouteError)
      → (conclude tenant_id model (after_catalog env rule req stream x).0).error ≡ some e
      → (s : Step) × (more : List Step) × (x.0 ≡ inr s) × (e ≡ routing_failed model (s ∷ more))
  after_catalog_error tenant_id model rule req stream (inl a, w) e h = cc
  after_catalog_error tenant_id model rule req stream (inr s, w) e h =
      let (more, k) =
        conclude-Extends s tenant_id model (through_rule env (s ∷ []) rule req stream w).0 e
          (through_rule-Extends s rule req stream w) h in
      (s, more, refl, k)

  -- Whatever the surroundings do, an error of `RouteWith` is the error chain for the model that was asked
  -- or, if none was, the rule's. The chain begins with the entry of the catalog step, the one with which
  -- that step failed. The other message of Step 5, "no provider available", is never built.
  pub route_with_error :
      (tenant_id : String) (req : ChatCompletionRequest F) (stream : Bool) (opts : RouteOptions)
      (w : World E) (e : RouteError)
      → (route_with env tenant_id req stream opts w).0.error ≡ some e
      → let image = request_has_image env.json req in
        let (rule, at) =
          env.get_routing_rule tenant_id (if image then "vision" else "text") w.env in
        let model = if is_empty req.model then rule_model rule else req.model in
        (s : Step) × (more : List Step) × ((through_catalog env
            (if image then vision else text)
            opts
            (record req { model = model })
            stream
            (record w { env = at })).0
          ≡ inr s)
        × (e ≡ routing_failed model (s ∷ more))
  unfolding route_with
  route_with_error tenant_id req stream opts w e h =
      after_catalog_error tenant_id _ _ _ stream _ e h
