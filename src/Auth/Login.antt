-- ===== src/Auth/Login.antt =====
-- `AdminLogin`, `AuthLogin` and `TenantLogin`. A body that does not decode is `none`.
pub mod Admins
use router_x.Base.{ℕ, String, Bool, Option, none, some, Result, ok, err, if◌then◌else◌}
use router_x.Store.Types.{AdminUser, TenantUser}
use router_x.Store.Db.{Db}
use router_x.Store.Users.{get_admin_by_username, get_tenant_user_by_username}
use router_x.Auth.Tokens.{Jwt, new_admin_token, new_tenant_token}

pub record Credentials : Type 0 where
  pub username : String
  pub password : String

pub data AuthBody : Type 0 where
  message : String → AuthBody
  token : String → AuthBody
  token_and_role : String → String → AuthBody
  status_ok : AuthBody

pub record AuthAnswer : Type 0 where
  pub status : ℕ
  pub body : AuthBody

abbrev pub refuse : ℕ → String → AuthAnswer
refuse status text = record { status = status; body = message text }

abbrev pub grant : AuthBody → AuthAnswer
grant body = record { status = 200; body = body }

-- `bcrypt`: whether a hash is that of a password, and the hash of a password for some salt.
pub record Bcrypt : Type 0 where
  pub compare : String → String → Bool
  pub generate : String → String → Result String

-- The user of a row, if there is one and the password is theirs.
abbrev pub checked_admin : Bcrypt → String → Result AdminUser → Option AdminUser
checked_admin bcrypt password (err e) = none
checked_admin bcrypt password (ok u) =
    if bcrypt.compare u.password_hash password then some u else none

abbrev pub checked_user : Bcrypt → String → Result TenantUser → Option TenantUser
checked_user bcrypt password (err e) = none
checked_user bcrypt password (ok u) =
    if bcrypt.compare u.password_hash password then some u else none

-- Eight hours.
abbrev pub token_ttl : ℕ
token_ttl = 28_800_000_000_000

abbrev pub issued : (String → AuthBody) → Result String → AuthAnswer
issued body (err e) = refuse 500 "failed to issue token"
issued body (ok t) = grant (body t)

abbrev pub with_role : String → String → AuthBody
with_role role t = token_and_role t role

module _ (jwt : Jwt) (bcrypt : Bcrypt) (secret : String) where
  abbrev pub answer_admin : (String → AuthBody) → ℕ → Option AdminUser → AuthAnswer
  answer_admin body now none = refuse 401 "invalid credentials"
  answer_admin body now (some u) = issued body (new_admin_token jwt secret now u.username token_ttl)

  abbrev pub answer_user : (String → AuthBody) → ℕ → Option TenantUser → AuthAnswer
  answer_user body now none = refuse 401 "invalid credentials"
  answer_user body now (some u) =
      issued body (new_tenant_token jwt secret now u.username u.tenant_id token_ttl)

  -- `AdminLogin`
  unfoldable pub admin_login : {F : Type 0} → ℕ → Option Credentials → Db F → AuthAnswer × Db F
  admin_login now none db = (refuse 400 "invalid json", db)
  admin_login now (some p) db =
      let (found, db') = get_admin_by_username p.username db in
      (answer_admin token now (checked_admin bcrypt p.password found), db')

  -- `TenantLogin`
  unfoldable pub tenant_login : {F : Type 0} → ℕ → Option Credentials → Db F → AuthAnswer × Db F
  tenant_login now none db = (refuse 400 "invalid json", db)
  tenant_login now (some p) db =
      let (found, db') = get_tenant_user_by_username p.username db in
      (answer_user token now (checked_user bcrypt p.password found), db')

  -- What follows the look-up of the administrator.
  abbrev pub then_user :
      {F : Type 0} → ℕ → Credentials → Option AdminUser → Db F → AuthAnswer × Db F
  then_user now p (some u) db = (answer_admin (with_role "admin") now (some u), db)
  then_user now p none db =
      let (found, db') = get_tenant_user_by_username p.username db in
      (answer_user (with_role "tenant") now (checked_user bcrypt p.password found), db')

  -- `AuthLogin`
  unfoldable pub auth_login : {F : Type 0} → ℕ → Option Credentials → Db F → AuthAnswer × Db F
  auth_login now none db = (refuse 400 "invalid json", db)
  auth_login now (some p) db =
      let (found, db') = get_admin_by_username p.username db in
      then_user now p (checked_admin bcrypt p.password found) db'
