-- ===== src/Auth/Login/Admins.antt =====
-- Who gets a token of the administrator.
use router_x.Base.{
  ℕ, String, true, ◌≡◌, Option, none, some, Result, ok, err, arith, Option-cases, inl, inr,
}
use router_x.Store.Types.{AdminUser, TenantUser}
use router_x.Store.Db.{Db}
use router_x.Store.Users.{get_admin_by_username, get_tenant_user_by_username}
use router_x.Auth.Tokens.{Jwt, admin_auth, new_tenant_token}
use router_x.Auth.Tokens.Roles.{ReadsBack, admin_auth_of_tenant_token}
use router_x.Auth.Login.{
  Credentials, grant, issued, with_role, token_and_role, Bcrypt, checked_admin, checked_user,
  answer_user, token_ttl, auth_login,
}

pub checked_admin-some :
    (bcrypt : Bcrypt) (password : String) (r : Result AdminUser) (u : AdminUser)
    → checked_admin bcrypt password r ≡ some u
    → (r ≡ ok u) × (bcrypt.compare u.password_hash password ≡ true)
checked_admin-some bcrypt password (err e) u h = cc
checked_admin-some bcrypt password (ok v) u h = ground arith

issued-token :
    (role t r : String) (made : Result String)
    → issued (with_role role) made ≡ grant (token_and_role t r)
    → made ≡ ok t
issued-token role t r (err e) h = cc
issued-token role t r (ok s) h = cc

module _ (jwt : Jwt) (bcrypt : Bcrypt) (secret : String) where
  answer_user-token :
      (now : ℕ) (o : Option TenantUser) (t role : String)
      → answer_user jwt bcrypt secret (with_role "tenant") now o ≡ grant (token_and_role t role)
      → (u : TenantUser) × (new_tenant_token jwt secret now u.username u.tenant_id token_ttl ≡ ok t)
  answer_user-token now none t role h = cc
  answer_user-token now (some u) t role h = (u, issued-token "tenant" t role _ h)

  -- When a log-in answers with a token that later passes `AdminAuth`, the database has an administrator
  -- of that name, and the password is theirs. The condition on the JWT library is that a token is never
  -- read as other claims than those that were signed.
  pub auth_login-admins :
      {F : Type 0}
      → ReadsBack jwt
      → (now later : ℕ) (p : Credentials) (db : Db F) (t role header : String)
      → (auth_login jwt bcrypt secret now (some p) db).0 ≡ grant (token_and_role t role)
      → jwt.bearer header ≡ some t
      → admin_auth jwt secret later header ≡ ok tt
      → (u : AdminUser) × ((get_admin_by_username p.username db).0 ≡ ok u)
        × (bcrypt.compare u.password_hash p.password ≡ true)
  unfolding auth_login
  auth_login-admins law now later p db t role header answered sent passed =
      let found = (get_admin_by_username p.username db).0 in
      elim (Option-cases (checked_admin bcrypt p.password found)) [
        | inr (u, e) ↦
            let both = checked_admin-some bcrypt p.password found u e in (u, both.0, both.1)
        | inl e ↦
            let user =
              get_tenant_user_by_username p.username (get_admin_by_username p.username db).1 in
            let (v, made) =
              answer_user-token now (checked_user bcrypt p.password user.0) t role
                (rw e at answered) in
            let refused =
              admin_auth_of_tenant_token jwt secret law now later token_ttl v.username v.tenant_id
                header t made sent in
            cc
      ]
