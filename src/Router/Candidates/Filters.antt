-- ===== src/Router/Candidates/Filters.antt =====
-- Which providers pass the filters.
use router_x.Base.{
  String, Bool, true, false, not, ◌&&◌, ◌||◌, Bool-cases, refl, inl, inr, ◌∷◌, List, ◌≡◌, ◌⊎◌, ◌↔◌,
  arith, In, In-filterb_iff, [],
}
use router_x.Store.Types.{Provider}
use router_x.Router.Types.{RouteOptions, Capability}
use router_x.Router.Candidates.{supports, contains_str, is_candidate, candidates, is_given}

-- The list names the provider, by ID or by name.
abbrev pub Lists : (String → String → Bool) → List String → Provider → Type 0
Lists equal_fold list p =
    (contains_str equal_fold list p.id ≡ true) ⊎ (contains_str equal_fold list p.name ≡ true)

-- What a request asks of a provider.
pub record IsWanted (equal_fold : String → String → Bool) (opts : RouteOptions)
    (capability : Capability) (p : Provider) : Type 0 where
  pub capable : supports capability p ≡ true
  pub allowed : (opts.provider_only ≡ []) ⊎ Lists equal_fold opts.provider_only p
  pub not_ignored : ¬ Lists equal_fold opts.provider_ignore p

-- The two list filters, each as the test of the loop.
only_passes :
    (f : String → String → Bool) (l : List String) (p : Provider)
    → ((is_given l && (not (contains_str f l p.id) && not (contains_str f l p.name))) ≡ false)
      ↔ ((l ≡ []) ⊎ Lists f l p)
unfolding contains_str
only_passes f [] p = (λ h. inl refl, λ h. refl)
only_passes f (x ∷ l) p = (λ h. ground arith, λ h. ground arith)

ignore_passes :
    (f : String → String → Bool) (l : List String) (p : Provider)
    → ((is_given l && (contains_str f l p.id || contains_str f l p.name)) ≡ false) ↔ (¬ Lists f l p)
unfolding contains_str
ignore_passes f [] p = (λ h. λ g. ground arith, λ h. refl)
ignore_passes f (x ∷ l) p = (
  λ h. λ g. ground arith,
  λ h. elim (Bool-cases (contains_str f (x ∷ l) p.id || contains_str f (x ∷ l) p.name)) [
    | inl e ↦ absurd (h (ground arith))
    | inr e ↦ e
  ],
)

module _ (equal_fold : String → String → Bool) (opts : RouteOptions) (capability : Capability) where
  is_candidate_iff :
      (p : Provider)
      → (is_candidate equal_fold opts capability p ≡ true) ↔ IsWanted equal_fold opts capability p
  unfolding is_candidate
  is_candidate_iff p =
      let a = only_passes equal_fold opts.provider_only p in
      let b = ignore_passes equal_fold opts.provider_ignore p in
      (
        λ h. record {
          capable = ground arith;
          allowed = a.0 (ground arith);
          not_ignored = b.0 (ground arith);
        },
        λ w. ground (arith, a.1 w.allowed, b.1 w.not_ignored),
      )

  -- A provider is a candidate exactly when the store returned it, it has the capability, the `only`
  -- list is empty or names it, and the `ignore` list does not name it.
  pub candidates_iff :
      (p : Provider) (providers : List Provider)
      → In p (candidates equal_fold opts capability providers)
        ↔ (In p providers × IsWanted equal_fold opts capability p)
  unfolding candidates
  candidates_iff p providers =
      let f = In-filterb_iff (is_candidate equal_fold opts capability) p providers in
      let w = is_candidate_iff p in (λ h. ((f.0 h).0, w.0 (f.0 h).1), λ h. f.1 (h.0, w.1 h.1))

  pub In-candidates :
      (p : Provider) (providers : List Provider)
      → In p (candidates equal_fold opts capability providers)
      → In p providers
  In-candidates p providers h = ((candidates_iff p providers).0 h).0
