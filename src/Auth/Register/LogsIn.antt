-- ===== src/Auth/Register/LogsIn.antt =====
-- A user who registered can log in.
use router_x.Base.Float.{Float64}
use router_x.Base.{
  Result-cases, ℕ, ◌+◌, ◌<◌, String, true, false, ◌||◌, ◌≡◌, refl, ap, ◌∙◌, none, some, List, [],
  ◌∷◌, ◌++◌, ok, arith, anyb, str_eq, eq_iff, Bool-cases, inl, inr, is_empty,
}
use router_x.Store.Types.{TenantUser}
use router_x.Store.Db.{Tables, Db, healthy, exec, exec_checked, query_row, find_row}
use router_x.Store.Tenants.{has_id, update_tenant_balance, change_tenant}
use router_x.Store.Users.{
  is_admin, is_user, create_tenant, create_tenant_user, get_admin_by_username,
  get_tenant_user_by_username,
}
use router_x.Auth.Tokens.{Jwt, tenant_user_auth, new_tenant_token}
use router_x.Auth.Tokens.Roles.{Accepts, tenant_user_auth_of_token}
use router_x.Auth.Login.{
  Credentials, issued, grant, with_role, token_and_role, Bcrypt, token_ttl, auth_login, status_ok,
}
use router_x.Auth.Register.{Registration, Fresh, new_user, user_created, workspace, auth_register}

find_row-fresh :
    (username : String) (id : String) (us : List TenantUser) (u : TenantUser)
    → anyb (λ (v : TenantUser). str_eq v.id id || str_eq v.username username) us ≡ false
    → str_eq u.username username ≡ true
    → find_row (is_user username) (us ++ u ∷ []) ≡ some u
unfolding find_row
find_row-fresh username id [] u h e = ground arith
find_row-fresh username id (v ∷ us) u h e = ground (arith, find_row-fresh username id us u)

-- The password of a hash is the one that it was made of.
pub record Matches (bcrypt : Bcrypt) : Type 0 where
  pub matches :
      (salt password hash : String)
      → bcrypt.generate salt password ≡ ok hash
      → bcrypt.compare hash password ≡ true

module _ {F : Type 0} ⦃fl : Float64 F⦄ (numeric : F → F) (bcrypt : Bcrypt) where
  -- What a successful registration leaves.
  pub record IsRegistered (fresh : Fresh) (p : Registration) (before : Tables F) (after : Db F)
      : Type 0 where
    pub hash : String
    pub made : bcrypt.generate fresh.salt p.password ≡ ok hash
    pub quiet : after.outages ≡ []
    pub admins : after.tables.admin_users ≡ before.admin_users
    pub found :
        find_row (is_user p.username) after.tables.tenant_users ≡ some (new_user fresh p hash)

  -- The tables with the new tenant.
  abbrev with_tenant : Fresh → Registration → Tables F → Tables F
  with_tenant fresh p tables =
      (update_tenant_balance numeric fresh.tenant_id fl.zero_f
        (create_tenant fresh.now fresh.tenant_id (workspace p) (healthy tables)).1).1.tables

  auth_register-user_created :
      (fresh : Fresh) (p : Registration) (tables : Tables F) (hash : String)
      → (is_empty p.username || is_empty p.password) ≡ false
      → bcrypt.generate fresh.salt p.password ≡ ok hash
      → auth_register numeric bcrypt fresh (some p) (healthy tables)
        ≡ user_created
            (create_tenant_user (new_user fresh p hash) (healthy (with_tenant fresh p tables)))
  unfolding auth_register create_tenant update_tenant_balance exec
  auth_register-user_created fresh p tables hash given made = rw (given, made) refl

  create_tenant_user-found :
      (u : TenantUser) (tables : Tables F)
      → (user_created (create_tenant_user u (healthy tables))).0 ≡ grant status_ok
      → let after = (user_created (create_tenant_user u (healthy tables))).1 in
        (after.outages ≡ [])
        × (after.tables.admin_users ≡ tables.admin_users)
        × (find_row (is_user u.username) after.tables.tenant_users ≡ some u)
  unfolding create_tenant_user exec_checked
  create_tenant_user-found u tables h =
      let taken = λ (v : TenantUser). str_eq v.id u.id || str_eq v.username u.username in
      elim (Bool-cases (anyb taken tables.tenant_users)) [
        | inl d ↦ cc (rw d at h)
        | inr d ↦ elim (Bool-cases (anyb (has_id u.tenant_id) tables.tenants)) [
          | inr k ↦ cc (rw (d, k) at h)
          | inl k ↦
              rw (d, k)
                (
                  refl,
                  refl,
                  find_row-fresh u.username u.id tables.tenant_users u d
                      ((eq_iff u.username u.username).1 refl),
                )
        ]
      ]

  auth_register-IsRegistered :
      (fresh : Fresh) (p : Registration) (tables : Tables F)
      → (auth_register numeric bcrypt fresh (some p) (healthy tables)).0 ≡ grant status_ok
      → IsRegistered fresh p tables (auth_register numeric bcrypt fresh (some p) (healthy tables)).1
  unfolding auth_register exec create_tenant update_tenant_balance change_tenant
  auth_register-IsRegistered fresh p tables h =
      elim (Bool-cases (is_empty p.username || is_empty p.password)) [
        | inl e ↦ cc (rw e at h)
        | inr e ↦ elim (Result-cases (bcrypt.generate fresh.salt p.password)) [
          | inr (m, g) ↦ cc (rw (e, g) at h)
          | inl (hash, g) ↦
              let step = auth_register-user_created fresh p tables hash e g in
              let left =
                create_tenant_user-found (new_user fresh p hash) (with_tenant fresh p tables)
                  (rw step at h) in
              rw step
                (record { hash = hash; made = g; quiet = left.0; admins = left.1; found = left.2 })
        ]
      ]

  abbrev credentials : Registration → Credentials
  credentials p = record { username = p.username; password = p.password }

  module _ (jwt : Jwt) (secret : String) where
    login_of_IsRegistered :
        Matches bcrypt
        → (fresh : Fresh) (p : Registration) (before : Tables F) (after : Db F) (now : ℕ)
        → IsRegistered fresh p before after
        → find_row (is_admin p.username) before.admin_users ≡ none
        → (auth_login jwt bcrypt secret now (some (credentials p)) after).0
          ≡ issued
              (with_role "tenant")
              (new_tenant_token jwt secret now p.username fresh.tenant_id token_ttl)
    unfolding auth_login get_admin_by_username get_tenant_user_by_username query_row
    login_of_IsRegistered law fresh p before after now r no_admin =
        rw (r.quiet, r.admins, no_admin, r.found, law.matches fresh.salt p.password r.hash r.made)
          refl

    -- After a registration that answers with success, the same name and password log in as a user of the
    -- new tenant, and until the token expires `TenantUserAuth` reads that tenant and that user from it.
    -- The conditions are that no administrator has the name, that a hash of `bcrypt` matches its password,
    -- that the JWT library signs the token, and that it reads a token back until it expires.
    pub auth_login-auth_register :
        Matches bcrypt
        → Accepts jwt
        → (fresh : Fresh) (p : Registration) (tables : Tables F) (now later : ℕ) (header t : String)
          (db : Db F)
        → (auth_register numeric bcrypt fresh (some p) (healthy tables)).0 ≡ grant status_ok
        → find_row (is_admin p.username) tables.admin_users ≡ none
        → new_tenant_token jwt secret now p.username fresh.tenant_id token_ttl ≡ ok t
        → jwt.bearer header ≡ some t
        → later < jwt.numeric_date (now + token_ttl)
        → let after = (auth_register numeric bcrypt fresh (some p) (healthy tables)).1 in
          ((auth_login jwt bcrypt secret now (some (credentials p)) after).0
            ≡ grant (token_and_role t "tenant"))
          × ((tenant_user_auth jwt secret later header db).0
              ≡ ok (record {
                id = "";
                tenant_id = fresh.tenant_id;
                username = p.username;
                password_hash = "";
              }))
    auth_login-auth_register law accepts fresh p tables now later header t db registered no_admin
          made sent early =
        let r = auth_register-IsRegistered fresh p tables registered in
        let after = (auth_register numeric bcrypt fresh (some p) (healthy tables)).1 in
        (
          login_of_IsRegistered law fresh p tables after now r no_admin
              ∙ ap (issued (with_role "tenant")) made,
          tenant_user_auth_of_token jwt secret accepts now later token_ttl p.username
              fresh.tenant_id header t db made sent early,
        )
