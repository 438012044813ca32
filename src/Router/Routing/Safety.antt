-- ===== src/Router/Routing/Safety.antt =====
-- Which providers `RouteWith` may call, as an invariant of the surroundings.
use router_x.Base.{
  String, Bool, true, false, Option, none, some, List, [], ◌∷◌, ◌⊎◌, inl, inr, ok, err, Result, ◌≡◌,
  refl, arith, Option-cases, if◌then◌else◌, Bool-cases, is_empty, All, In-All, All-of_In,
}
use router_x.Models.{ChatCompletionRequest}
use router_x.Store.Types.{RoutingRule, Provider}
use router_x.Router.Types.{
  RouteOptions, SortMode, sort_default, sort_price, sort_latency, Attempt, Failure, Step,
  Capability, circuit_of, rule_primary, rule_secondary,
}
use router_x.Router.Circuit.{allow}
use router_x.Router.Candidates.{candidates, is_given, in_order, override_keys}
use router_x.Router.Candidates.Filters.{In-candidates}
use router_x.Router.Candidates.Order.{In-in_order}
use router_x.Router.Env.{Env, World}
use router_x.Router.Attempt.{request_has_image, refusal, try_provider, call_provider}
use router_x.Router.Routing.{
  try_candidates, sort_by, arrange, try_listed, try_providers_by_type, by_type, through_catalog,
  read_and_try, try_rule_provider, with_secondary, through_rule, after_catalog, route_with,
  listed_or_none,
}

-- A property of the surroundings that every call keeps, a call of a provider provided that the
-- provider is enabled, has the capability that the request needs, and is `Known`. The store returns
-- providers that are known, sorting invents none, and one whose key the request replaces is known.
pub record IsKept {F E : Type 0} (env : Env F E) (req : ChatCompletionRequest F) (stream : Bool)
    (key : String) (Safe : E → Type 0) (Known : Provider → Type 0) : Type 0 where
  pub chat :
      (p : Provider) (model : String) (e : E)
      → Known p
      → p.enabled ≡ true
      → (if request_has_image env.json req then p.supports_vision else p.supports_text) ≡ true
      → Safe e
      → Safe (env.chat p (record req { model = model }) stream e).1
  pub note_health : (id : String) (good : Bool) (e : E) → Safe e → Safe (env.note_health id good e)
  pub get_routing_rule : (t c : String) (e : E) → Safe e → Safe (env.get_routing_rule t c e).1
  pub get_model_provider : (m : String) (e : E) → Safe e → Safe (env.get_model_provider m e).1
  pub get_enabled_providers_by_type :
      (t : String) (e : E)
      → Safe e
      → let (r, e') = env.get_enabled_providers_by_type t e in
        Safe e' × All Known (listed_or_none r)
  pub get_provider_by_id :
      (id : String) (e : E)
      → Safe e
      → let (r, e') = env.get_provider_by_id id e in Safe e' × ((p : Provider) → r ≡ ok p → Known p)
  pub sort_slice :
      (less : Provider → Provider → Bool) (ps : List Provider)
      → All Known ps
      → All Known (env.sort_slice less ps)
  pub new_key : (p : Provider) → Known p → is_empty key ≡ false → Known (record p { api_key = key })

-- What the guards of `tryProvider` let pass.
refusal-eq-none :
    (p : Provider) (image : Bool)
    → refusal p image ≡ none
    → (p.enabled ≡ true) × ((if image then p.supports_vision else p.supports_text) ≡ true)
unfolding refusal
refusal-eq-none p image h = ground arith

module _ {F E : Type 0} (env : Env F E) (req : ChatCompletionRequest F) (stream : Bool)
    (opts : RouteOptions) (Safe : E → Type 0) (Known : Provider → Type 0)
    (kept : IsKept env req stream opts.byok_key Safe Known) where
  abbrev asked : String → ChatCompletionRequest F
  asked model = record req { model = model }

  try_provider-IsSafe :
      (p : Provider) (m : String) (w : World E)
      → Known p
      → Safe w.env
      → Safe (try_provider env p (asked m) stream w).1.env
  unfolding try_provider call_provider request_has_image
  try_provider-IsSafe p m w known s =
      let image = request_has_image env.json req in
      elim (Option-cases (refusal p image)) [
        | inr (f, e) ↦ rw (e, try_provider) s
        | inl e ↦ elim (Bool-cases (allow (env.now w.env) (circuit_of w.router p.id))) [
          | inl a ↦
              rw (e, try_provider)
                (rw a (
                  kept.note_health p.id _ _ (
                    kept.chat p m w.env known (refusal-eq-none p image e).0
                      (refusal-eq-none p image e).1 s)))
          | inr a ↦ rw (e, try_provider) (rw a s)
        ]
      ]

  try_candidates-IsSafe :
      (fallbacks later : Bool) (last : Option Failure) (ps : List Provider) (m : String)
      (w : World E)
      → All Known ps
      → Safe w.env
      → Safe (try_candidates env fallbacks later last ps (asked m) stream w).1.env
  unfolding try_candidates
  try_candidates-IsSafe fallbacks later last [] m w ks s = s
  try_candidates-IsSafe fallbacks later last (p ∷ ps) m w (k, ks) s =
      let s' = try_provider-IsSafe p m w k s in
      let a = (try_provider env p (asked m) stream w).0 in
      let w' = (try_provider env p (asked m) stream w).1 in
      ground (arith, s', try_candidates-IsSafe fallbacks true a.error ps m w' ks s')

  sort_by-env :
      (mode : SortMode) (ps : List Provider) (w : World E) → (sort_by env mode ps w).1.env ≡ w.env
  unfolding sort_by
  sort_by-env sort_latency ps w = refl
  sort_by-env _ ps w = ground arith

  arrange-env : (ps : List Provider) (w : World E) → (arrange env opts ps w).1.env ≡ w.env
  unfolding arrange
  arrange-env ps w = ground (arith, sort_by-env opts.sort ps w)

  sort_by-Known :
      (mode : SortMode) (ps : List Provider) (w : World E)
      → All Known ps
      → All Known (sort_by env mode ps w).0
  unfolding sort_by
  sort_by-Known sort_default ps w ks = kept.sort_slice _ ps ks
  sort_by-Known sort_price ps w ks = kept.sort_slice _ ps ks
  sort_by-Known sort_latency ps w ks = kept.sort_slice _ ps ks

  arrange-Known :
      (ps : List Provider) (w : World E) → All Known ps → All Known (arrange env opts ps w).0
  unfolding arrange
  arrange-Known ps w ks = elim (Bool-cases (is_given opts.provider_order)) [
    | inl e ↦ rw e (
        All-of_In Known (in_order opts.provider_order ps)
          (λ p at. In-All Known p ps ks (In-in_order opts.provider_order p ps at)))
    | inr e ↦ rw e (sort_by-Known opts.sort ps w ks)
  ]

  candidates-Known :
      (c : Capability) (ps : List Provider)
      → All Known ps
      → All Known (candidates env.equal_fold opts c ps)
  candidates-Known c ps ks =
      All-of_In Known _ (λ p at. In-All Known p ps ks (In-candidates env.equal_fold opts c p ps at))

  override_keys-Known :
      (ps : List Provider) → All Known ps → All Known (override_keys opts.byok_key ps)
  unfolding override_keys
  override_keys-Known [] ks = tt
  override_keys-Known (p ∷ ps) (k, ks) = (
    elim (Bool-cases (is_empty opts.byok_key)) [
      | inl e ↦ rw e k
      | inr e ↦ rw e (kept.new_key p k e)
    ],
    override_keys-Known ps ks,
  )

  try_listed-IsSafe :
      (t : String) (c : Capability) (qs : List Provider) (m : String) (w : World E)
      → All Known qs
      → Safe w.env
      → Safe (try_listed env t c opts qs (asked m) stream w).1.env
  unfolding try_listed
  try_listed-IsSafe t c [] m w ks s = s
  try_listed-IsSafe t c (q ∷ qs) m w ks s =
      let chosen : List Provider = candidates env.equal_fold opts c (q ∷ qs) in
      elim (Bool-cases (is_given chosen)) [
        | inl e ↦ rw e (
            try_candidates-IsSafe opts.allow_fallbacks false none
              (override_keys opts.byok_key (arrange env opts chosen w).0) m
              (arrange env opts chosen w).1
              (override_keys-Known _ (arrange-Known chosen w (candidates-Known c (q ∷ qs) ks)))
              (rw (arrange-env chosen w) s))
        | inr e ↦ rw e s
      ]

  try_providers_by_type-IsSafe :
      (t : String) (c : Capability) (m : String) (w : World E)
      → Safe w.env
      → Safe (try_providers_by_type env t c opts (asked m) stream w).1.env
  unfolding try_providers_by_type
  try_providers_by_type-IsSafe t c m w s =
      let (s', ks) = kept.get_enabled_providers_by_type t w.env s in
      try_listed-IsSafe t c (listed_or_none (env.get_enabled_providers_by_type t w.env).0) m _ ks s'

  by_type-IsSafe :
      (r : Result String) (c : Capability) (m : String) (w : World E)
      → Safe w.env
      → Safe (by_type env r c opts (asked m) stream w).1.env
  by_type-IsSafe (err e) c m w s = s
  by_type-IsSafe (ok t) c m w s = elim (Bool-cases (is_empty t)) [
    | inl e ↦ rw e s
    | inr e ↦ rw e (try_providers_by_type-IsSafe t c m w s)
  ]

  through_catalog-IsSafe :
      (c : Capability) (m : String) (w : World E)
      → Safe w.env
      → Safe (through_catalog env c opts (asked m) stream w).1.env
  unfolding through_catalog
  through_catalog-IsSafe c m w s =
      by_type-IsSafe (env.get_model_provider m w.env).0 c m _ (kept.get_model_provider m w.env s)

  read_and_try-IsSafe :
      (step : String → Failure → Step) (fallback : Bool) (r : Result Provider) (m : String)
      (w : World E)
      → ((p : Provider) → r ≡ ok p → Known p)
      → Safe w.env
      → Safe (read_and_try env step fallback r (asked m) stream w).1.env
  read_and_try-IsSafe step fallback (err e) m w ks s = s
  read_and_try-IsSafe step fallback (ok p) m w ks s = try_provider-IsSafe p m w (ks p refl) s

  try_rule_provider-IsSafe :
      (step : String → Failure → Step) (fallback : Bool) (id : String) (m : String) (w : World E)
      → Safe w.env
      → Safe (try_rule_provider env step fallback id (asked m) stream w).1.env
  unfolding try_rule_provider
  try_rule_provider-IsSafe step fallback id m w s =
      let (s', ks) = kept.get_provider_by_id id w.env s in
      read_and_try-IsSafe step fallback (env.get_provider_by_id id w.env).0 m _ ks s'

  with_secondary-IsSafe :
      (errs : List Step) (rule : RoutingRule) (m : String)
      (x : (Attempt Failure ⊎ Option Step) × World E)
      → Safe x.1.env
      → Safe (with_secondary env errs rule (asked m) stream x).1.env
  with_secondary-IsSafe errs rule m (inl a, w) s = s
  with_secondary-IsSafe errs rule m (inr none, w) s = s
  with_secondary-IsSafe errs rule m (inr (some t), w) s =
      elim (Bool-cases (is_empty rule.secondary_provider_id)) [
        | inl e ↦ rw e s
        | inr e ↦
            rw e (try_rule_provider-IsSafe rule_secondary true rule.secondary_provider_id m w s)
      ]

  after_catalog-IsSafe :
      (rule : Result RoutingRule) (m : String) (x : (Attempt Failure ⊎ Step) × World E)
      → Safe x.1.env
      → Safe (after_catalog env rule (asked m) stream x).1.env
  unfolding through_rule
  after_catalog-IsSafe rule m (inl a, w) s = s
  after_catalog-IsSafe (err e) m (inr t, w) s = s
  after_catalog-IsSafe (ok rule) m (inr t, w) s =
      with_secondary-IsSafe (t ∷ []) rule m _
        (try_rule_provider-IsSafe rule_primary false rule.primary_provider_id m w s)

  -- Any property that the surroundings keep under calls of known, enabled and capable providers holds
  -- after `RouteWith` if it held before: on no path, whatever the catalog, the rules and the options
  -- say, is a disabled provider called, nor one that lacks the capability that the request needs,
  -- nor one that did not come from the store, at most with the key of the request in place of its own.
  pub route_with-IsSafe :
      (tenant_id : String) (w : World E)
      → Safe w.env
      → Safe (route_with env tenant_id req stream opts w).1.env
  unfolding route_with
  route_with-IsSafe tenant_id w s =
      after_catalog-IsSafe _ _ _
        (through_catalog-IsSafe _ _ _ (kept.get_routing_rule tenant_id _ w.env s))
