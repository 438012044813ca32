-- ===== src/Tests/Router.antt =====
-- The theorems on routing, at the surroundings of Tests/Data.antt.
use router_x.Base.{
  inr, String, true, false, none, some, List, [], ◌∷◌, ◌++◌, ◌≡◌, ◌≢◌, ◌↔◌, refl, In, ◌&&◌,
  keep_last, if◌then◌else◌, str_eq, lookup, insert,
}
use router_x.Router.Types.{
  RouteOptions, default_route_options, text, circuit_of, RouteError, routing_failed, Step,
  catalog_lookup, new_router,
}
use router_x.Router.Candidates.{candidates}
use router_x.Router.Candidates.Filters.{IsWanted, candidates_iff}
use router_x.Router.Attempt.{refusal, try_provider, request_has_image, as_failure}
use router_x.Router.Attempt.Isolation.{MayCall, try_provider_called}
use router_x.Router.Routing.{try_candidates, route_with, through_catalog, through_rule}
use router_x.Router.Routing.Loop.{
  AllFail, Answered, try_candidates_success, try_candidates_exhausted,
}
use router_x.Router.Routing.Chain.{route_with_error}
use router_x.Models.Content.{content_has_image, parse_content_parts}
use router_x.Router.Circuit.{allow, record_outcome}
use router_x.Router.Attempt.{call_provider, settle}
use router_x.Router.Types.{circuit_for}
use router_x.Router.Latency.{samples_of}
use router_x.Tests.Data.{broken, working, disabled, hello, calls, no_catalog, start, reply}

-- The error of an attempt can be there and not be there.
fallback_succeeds :
    (try_candidates calls true false none (broken ∷ working ∷ []) hello false start).0.error ≡ none
unfolding try_candidates try_provider refusal request_has_image content_has_image
    parse_content_parts call_provider allow circuit_of circuit_for settle record_outcome lookup
    insert new_router
fallback_succeeds = refl

try_candidates_success_example :
    Answered calls hello false
      (broken ∷ working ∷ [])
      false
      start
      (try_candidates calls true false none (broken ∷ working ∷ []) hello false start)
try_candidates_success_example =
    try_candidates_success calls hello false true (broken ∷ working ∷ []) start (λ e. cc)
      fallback_succeeds

fallback_fails :
    (try_candidates calls true false none (broken ∷ disabled ∷ []) hello false start).0.error ≢ none
unfolding try_candidates try_provider refusal request_has_image content_has_image
    parse_content_parts call_provider allow circuit_of circuit_for settle record_outcome lookup
    insert new_router
fallback_fails e = cc

try_candidates_exhausted_example :
    AllFail calls hello false
      (broken ∷ disabled ∷ [])
      start
      (try_candidates calls true false none (broken ∷ disabled ∷ []) hello false start).1
try_candidates_exhausted_example =
    try_candidates_exhausted calls hello false false none (broken ∷ disabled ∷ []) start
      fallback_fails

working-MayCall : MayCall calls working hello start
unfolding try_provider refusal request_has_image content_has_image parse_content_parts call_provider
    allow circuit_of circuit_for settle record_outcome lookup insert new_router
working-MayCall = (refl, refl)

try_provider_called_example :
    let (a, after) = try_provider calls working hello false start in
    let found = circuit_for start.router working.id in
    (a.error ≡ as_failure (reply working).error)
    × (after.env ≡ working ∷ [])
    × ((q : String)
        → circuit_of after.router q ≡ (
            if str_eq working.id q
            then record_outcome 0 (circuit_of found working.id) true
            else circuit_of found q))
    × ((q : String)
        → samples_of after.router.latency q ≡ (
            if true && str_eq working.id q
            then keep_last found.latency.window (samples_of found.latency working.id ++ 7 ∷ [])
            else samples_of found.latency q))
try_provider_called_example = try_provider_called calls working hello false start working-MayCall

abbrev the_error : RouteError
the_error = routing_failed "gpt-4o" (catalog_lookup "no rows in result set" ∷ [])

no_catalog_error :
    (route_with no_catalog "acme" hello false default_route_options start).0.error ≡ some the_error
unfolding route_with through_catalog through_rule request_has_image content_has_image
    parse_content_parts
no_catalog_error = refl

route_with_error_example :
    let (rule, at) = no_catalog.get_routing_rule "acme" "text" start.env in
    (s : Step) × (more : List Step) × ((through_catalog no_catalog text default_route_options hello
        false
        (record start { env = at })).0
      ≡ inr s)
    × (the_error ≡ routing_failed "gpt-4o" (s ∷ more))
unfolding request_has_image content_has_image parse_content_parts
route_with_error_example =
    route_with_error no_catalog "acme" hello false default_route_options start the_error
      no_catalog_error

abbrev only_working : RouteOptions
only_working = record default_route_options { provider_only = "working" ∷ [] }

candidates_iff_example :
    In working (candidates str_eq only_working text (broken ∷ working ∷ []))
    ↔ (In working (broken ∷ working ∷ []) × IsWanted str_eq only_working text working)
candidates_iff_example = candidates_iff str_eq only_working text working (broken ∷ working ∷ [])
