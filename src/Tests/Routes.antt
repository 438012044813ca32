-- ===== src/Tests/Routes.antt =====
-- The theorems on the routes of the server, with a choice of the first route whose pattern is the path,
-- and those on the ledger.
use router_x.Base.Int.{pos}
use router_x.Base.Float.{Micros, micros_float}
use router_x.Base.{String, Bool, ◌&&◌, Option, some, List, ◌≡◌, refl, str_eq, In}
use router_x.Store.Db.{Tables, healthy, find_row}
use router_x.Store.Queries.{In-find_row}
use router_x.Startup.Routes.{Route, serve}
use router_x.Startup.Routes.Guarded.{IsAdmitted, serve-IsAdmitted}
use router_x.Store.Tenants.{has_id}
use router_x.Store.Settled.{last_after}
use router_x.Api.Ledger.{Settled}
use router_x.Api.Ledger.History.{start, then, routed, topped, History-Settled}
use router_x.Api.Billing.{account}
use router_x.Api.Tenants.{tenant_topup}
use router_x.Tests.Auth.{jwt_of, root_claims}
use router_x.Tests.Chat.{tables, acme, job, answered, services, id_micros, describe_topup}

abbrev is_asked : String → String → Route → Bool
is_asked method path r = str_eq r.method method && str_eq r.pattern path

abbrev pick : String → String → List Route → Option Route
pick method path rs = find_row (is_asked method path) rs

picks :
    (method path : String) (rs : List Route) (r : Route) → pick method path rs ≡ some r → In r rs
picks method path rs r h = In-find_row (is_asked method path) r rs h

serve-IsAdmitted_example :
    IsAdmitted
      (jwt_of root_claims)
      "key"
      5
      "Bearer token"
      (healthy tables)
      (serve
        (jwt_of root_claims)
        "key"
        pick
        5
        "GET"
        "/admin/stats"
        "Bearer token"
        (healthy tables)).0
serve-IsAdmitted_example =
    serve-IsAdmitted (jwt_of root_claims) "key" pick picks 5 "GET" "/admin/stats" "Bearer token"
      (healthy tables)

-- A charge, and a top-up after it.
abbrev charged : Tables Micros
charged = (account services job answered 9 (healthy tables)).1.tables

abbrev topped_up : Tables Micros
topped_up =
    let paid =
      tenant_topup id_micros describe_topup (some "acme") (some (pos 2_000_000))
        (healthy charged) in
    paid.1.tables

tables-Settled : Settled tables
unfolding last_after
tables-Settled id a h = cc

acme_there : find_row (has_id "acme") tables.tenants ≡ some acme
unfolding find_row
acme_there = refl

History-Settled_example : Settled topped_up
History-Settled_example =
    History-Settled services describe_topup (λ (a b : Micros). "adjusted") tables topped_up
      (then (then start (routed tables job answered 9 acme acme_there))
        (topped charged (some "acme") (some (pos 2_000_000))))
      tables-Settled
