-- ===== src/Startup/Routes/Guarded.antt =====
-- Which middleware stands before which handler.
use mathlib.Core.Path.{subst}
use router_x.Base.Float.{Float64}
use router_x.Base.{
  allb, In-allb, ℕ, String, Bool, true, false, ◌≡◌, refl, ◌≢◌, Option, none, some, List, In, Result,
  ok, err,
}
use router_x.Store.Types.{Tenant, TenantUser}
use router_x.Store.Db.{Db}
use router_x.Api.Tenants.{with_api_key}
use router_x.Auth.Tokens.{Jwt, admin_auth, tenant_user_auth, new_tenant_token}
use router_x.Auth.Tokens.Roles.{ReadsBack, admin_auth_of_tenant_token}
use router_x.Startup.Routes.{
  Handler, health, list_models, chat_completions, embeddings, metrics, admin_login, auth_login,
  auth_register, tenant_login, tenant_profile, tenant_usage, tenant_summary, tenant_api_keys,
  tenant_create_api_key, tenant_delete_api_key, tenant_topup, Guard, unguarded, api_key, admin,
  tenant_user, Route, routes, Context, Arrival, reached, pass, serve, no_context, serve_route,
  with_key, as_admin, as_user, after_pass,
}

-- Who may call a handler, by what it is for.
pub data Audience : Type 0 where
  anyone clients administrators users : Audience

-- Besides the logins, the registration and what is public, the handlers of `/v1` are for clients with
-- an API key, those of the user's pages for users, and all others for administrators.
abbrev pub audience : Handler → Audience
audience health = anyone
audience metrics = anyone
audience list_models = anyone
audience admin_login = anyone
audience auth_login = anyone
audience auth_register = anyone
audience tenant_login = anyone
audience chat_completions = clients
audience embeddings = clients
audience tenant_profile = users
audience tenant_usage = users
audience tenant_summary = users
audience tenant_api_keys = users
audience tenant_create_api_key = users
audience tenant_delete_api_key = users
audience tenant_topup = users
audience _ = administrators

abbrev guard_for : Audience → Guard
guard_for anyone = unguarded
guard_for clients = api_key
guard_for administrators = admin
guard_for users = tenant_user

abbrev same_guard : Guard → Guard → Bool
same_guard unguarded unguarded = true
same_guard api_key api_key = true
same_guard admin admin = true
same_guard tenant_user tenant_user = true
same_guard _ _ = false

same_guard-eq : (g h : Guard) → same_guard g h ≡ true → g ≡ h
same_guard-eq unguarded h e =
    elim h as (λ h. same_guard unguarded h ≡ true → unguarded ≡ h) [
      | unguarded ↦ λ x. refl
      | _ ↦ λ x. cc
    ]
      e
same_guard-eq api_key h e =
    elim h as (λ h. same_guard api_key h ≡ true → api_key ≡ h) [ api_key ↦ λ x. refl | _ ↦ λ x. cc ]
      e
same_guard-eq admin h e =
    elim h as (λ h. same_guard admin h ≡ true → admin ≡ h) [ admin ↦ λ x. refl | _ ↦ λ x. cc ] e
same_guard-eq tenant_user h e =
    elim h as (λ h. same_guard tenant_user h ≡ true → tenant_user ≡ h) [
      | tenant_user ↦ λ x. refl
      | _ ↦ λ x. cc
    ]
      e

-- Whether a route has the middleware of its handler's audience.
abbrev is_guarded : Route → Bool
is_guarded r = same_guard r.guard (guard_for (audience r.handler))

routes-guarded : allb is_guarded routes ≡ true
unfolding routes
routes-guarded = refl

module _ {F : Type 0} ⦃fl : Float64 F⦄ (jwt : Jwt) (secret : String) where
  -- What has let a request in.
  abbrev pub Admitted : Audience → ℕ → String → Db F → Context F → Type 0
  Admitted anyone now header db c = c ≡ no_context
  Admitted clients now header db c =
      (t : Tenant F) × ((with_api_key now (jwt.bearer header) db).0 ≡ ok t) × (c.tenant ≡ some t)
  Admitted administrators now header db c = admin_auth jwt secret now header ≡ ok tt
  Admitted users now header db c =
      (u : TenantUser) × ((tenant_user_auth jwt secret now header db).0 ≡ ok u) × (c.user ≡ some u)

  -- Of what a request arrives at.
  abbrev pub IsAdmitted : ℕ → String → Db F → Arrival F → Type 0
  IsAdmitted now header db (reached h c) = Admitted (audience h) now header db c
  IsAdmitted now header db _ = Unit

  with_key-clients :
      (x : Result (Tenant F) × Db F) (c : Context F)
      → (with_key jwt secret x).0 ≡ ok c
      → (t : Tenant F) × (x.0 ≡ ok t) × (c.tenant ≡ some t)
  with_key-clients (err e, db) c h = cc
  with_key-clients (ok t, db) c h = (t, refl, cc)

  as_admin-administrators :
      (x : Result (Unit {0})) (c : Context F) → as_admin jwt secret x ≡ ok c → x ≡ ok tt
  as_admin-administrators (err e) c h = cc
  as_admin-administrators (ok tt) c h = refl

  as_user-users :
      (x : Result TenantUser × Db F) (c : Context F)
      → (as_user jwt secret x).0 ≡ ok c
      → (u : TenantUser) × (x.0 ≡ ok u) × (c.user ≡ some u)
  as_user-users (err e, db) c h = cc
  as_user-users (ok u, db) c h = (u, refl, cc)

  passed-Admitted :
      (a : Audience) (now : ℕ) (header : String) (db : Db F) (c : Context F)
      → (pass jwt secret (guard_for a) now header db).0 ≡ ok c
      → Admitted a now header db c
  unfolding pass
  passed-Admitted anyone now header db c h = cc
  passed-Admitted clients now header db c h = with_key-clients _ c h
  passed-Admitted administrators now header db c h = as_admin-administrators _ c h
  passed-Admitted users now header db c h = as_user-users _ c h

  after_pass-IsAdmitted :
      (h : Handler) (now : ℕ) (header : String) (db : Db F) (x : Result (Context F) × Db F)
      → ((c : Context F) → x.0 ≡ ok c → Admitted (audience h) now header db c)
      → IsAdmitted now header db (after_pass jwt secret h x).0
  after_pass-IsAdmitted h now header db (err e, db') k = tt
  after_pass-IsAdmitted h now header db (ok c, db') k = k c refl

  serve_route-IsAdmitted :
      (now : ℕ) (header : String) (o : Option Route) (db : Db F)
      → ((r : Route) → o ≡ some r → In r routes)
      → IsAdmitted now header db (serve_route jwt secret now header o db).0
  serve_route-IsAdmitted now header none db at = tt
  serve_route-IsAdmitted now header (some r) db at =
      let g =
        same_guard-eq r.guard (guard_for (audience r.handler))
          (In-allb is_guarded r routes routes-guarded (at r refl)) in
      after_pass-IsAdmitted r.handler now header db _
        (λ c h. passed-Admitted (audience r.handler) now header db c (rw g at h))

  module _ (pick : String → String → List Route → Option Route)
      -- chi serves only routes that are registered.
      (picks : (method path : String) (rs : List Route) (r : Route)
        → pick method path rs ≡ some r
        → In r rs) where
    -- No handler runs before the middleware of its audience has let the request in, whatever the
    -- method, the path and the header are: a handler for administrators only after `AdminAuth`, one
    -- for users only after `TenantUserAuth`, with the user of the token in the context, and a chat or
    -- an embedding only after `WithAPIKey`, with the tenant of the key in the context.
    pub serve-IsAdmitted :
        (now : ℕ) (method path header : String) (db : Db F)
        → IsAdmitted now header db (serve jwt secret pick now method path header db).0
    unfolding serve
    serve-IsAdmitted now method path header db =
        serve_route-IsAdmitted now header (pick method path routes) db
          (λ r at. picks method path routes r at)

    -- No token that is issued for a tenant's user lets a request in to a handler for administrators.
    pub serve_of_tenant_token :
        ReadsBack jwt
        → (issued ttl now : ℕ) (username tenant_id token method path header : String) (db : Db F)
          (h : Handler) (c : Context F)
        → new_tenant_token jwt secret issued username tenant_id ttl ≡ ok token
        → jwt.bearer header ≡ some token
        → (serve jwt secret pick now method path header db).0 ≡ reached h c
        → audience h ≢ administrators
    serve_of_tenant_token law issued ttl now username tenant_id token method path header db h c made
          sent served e =
        let let_in =
          subst (IsAdmitted now header db) served (serve-IsAdmitted now method path header db) in
        let refused =
          admin_auth_of_tenant_token jwt secret law issued now ttl username tenant_id header token
            made sent in
        cc (subst (λ a. Admitted a now header db c) e let_in)
