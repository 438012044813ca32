-- ===== src/Router/Candidates.antt =====
-- How `tryProvidersByType` of backend/internal/router/router.go selects providers: the filters, and
-- the order that a request asks for. `strings.EqualFold` is the parameter `equal_fold`.
pub mod Filters
pub mod Order
use router_x.Base.{
  String, Bool, true, false, not, ◌&&◌, ◌||◌, List, [], ◌∷◌, ◌++◌, str_eq, is_empty, anyb, filterb,
  if◌then◌else◌,
}
use router_x.Store.Types.{Provider}
use router_x.Router.Types.{RouteOptions, Capability, text, vision}

abbrev pub supports : Capability → Provider → Bool
supports vision p = p.supports_vision
supports text p = p.supports_text

-- `len(list) > 0`
abbrev pub is_given {ℓ} : {A : Type ℓ} → List A → Bool
is_given [] = false
is_given (x ∷ xs) = true

module _ (equal_fold : String → String → Bool) where
  unfoldable pub contains_str : List String → String → Bool
  contains_str list s = anyb (λ v. equal_fold v s) list

  -- The body of the loop over `providersList`: whether it reaches the `append`.
  unfoldable pub is_candidate : RouteOptions → Capability → Provider → Bool
  is_candidate opts capability p =
      if not (supports capability p)
      then false
      else if is_given opts.provider_only
          && (not (contains_str opts.provider_only p.id)
              && not (contains_str opts.provider_only p.name))
      then false
      else if is_given opts.provider_ignore
          && (contains_str opts.provider_ignore p.id || contains_str opts.provider_ignore p.name)
      then false
      else true

  unfoldable pub candidates : RouteOptions → Capability → List Provider → List Provider
  unfolding is_candidate
  candidates opts capability providers = filterb (is_candidate opts capability) providers

abbrev pub is_named : String → Provider → Bool
is_named name p = str_eq p.id name || str_eq p.name name

-- The first candidate of that ID or name, as a list of at most one.
unfoldable pub first_named : String → List Provider → List Provider
first_named name [] = []
first_named name (p ∷ ps) =
    let rest = first_named name ps in if is_named name p then p ∷ [] else rest

-- The loop over `opts.ProviderOrder`.
unfoldable pub listed : List String → List Provider → List Provider
listed [] candidates = []
listed (name ∷ names) candidates = first_named name candidates ++ listed names candidates

abbrev pub same_id : Provider → Provider → Bool
same_id p o = str_eq o.id p.id

-- The loop that appends the remaining candidates, to a list that grows as it goes.
unfoldable pub append_remaining : List Provider → List Provider → List Provider
append_remaining ordered [] = ordered
append_remaining ordered (p ∷ ps) =
    append_remaining (if anyb (same_id p) ordered then ordered else ordered ++ p ∷ []) ps

-- `candidates` after `provider.order` was applied.
unfoldable pub in_order : List String → List Provider → List Provider
in_order names candidates = append_remaining (listed names candidates) candidates

-- BYOK: the key of the request in place of each candidate's own.
unfoldable pub override_keys : String → List Provider → List Provider
override_keys key [] = []
override_keys key (p ∷ ps) =
    (if is_empty key then p else record p { api_key = key }) ∷ override_keys key ps
