-- ===== src/Auth/Tokens.antt =====
-- Tokens: how the middleware issues and reads them. The JWT library is the record `Jwt`. Times are
-- nanoseconds.
pub mod Roles
use router_x.Base.{
  ℕ, ◌+◌, String, Bool, false, not, ◌&&◌, Option, none, some, Result, ok, err, str_eq, ltb,
  if◌then◌else◌,
}
use router_x.Store.Types.{TenantUser}
use router_x.Store.Db.{Db}
use router_x.Store.Tenants.{update_tenant_last_active}

pub record Claims : Type 0 where
  pub username : String
  pub role : String
  pub tenant_id : String
  pub expires_at : Option ℕ
  pub issued_at : Option ℕ

pub record Jwt : Type 0 where
  -- `NewWithClaims` with HS256 and `SignedString`, the secret first
  pub sign : String → Claims → Result String
  -- `ParseWithClaims` at a time, the secret before the token: the claims if it has no error and the
  -- token is valid.
  pub parse : ℕ → String → String → Option Claims
  -- `NewNumericDate`
  pub numeric_date : ℕ → ℕ
  -- `strings.HasPrefix` with `TrimPrefix` for "Bearer "
  pub bearer : String → Option String

-- The condition on the claims that both middlewares have; the role is theirs.
abbrev not_expired : ℕ → Option ℕ → Bool
not_expired now none = false
not_expired now (some t) = not (ltb t now)

abbrev pub has_role : String → ℕ → Claims → Bool
has_role role now c = not_expired now c.expires_at && str_eq c.role role

module _ (jwt : Jwt) (secret : String) where
  abbrev pub read_token : String → ℕ → Option Claims → Result Claims
  read_token role now none = err "invalid token"
  read_token role now (some c) = if has_role role now c then ok c else err "invalid token"

  -- The claims of an `Authorization` header, or the text of the answer with status 401.
  unfoldable pub read_header : String → ℕ → String → Result Claims
  read_header role now header = elim (jwt.bearer header) [
    | none ↦ err "missing token"
    | some token ↦ read_token role now (jwt.parse now secret token)
  ]

  abbrev admitted : Result Claims → Result (Unit {0})
  admitted (err e) = err e
  admitted (ok c) = ok tt

  -- `AdminAuth`: whether the next handler runs.
  unfoldable pub admin_auth : ℕ → String → Result (Unit {0})
  unfolding read_header
  admin_auth now header = admitted (read_header "admin" now header)

  -- The user that is put into the context.
  abbrev pub user_of : Claims → TenantUser
  user_of c = record { id = ""; tenant_id = c.tenant_id; username = c.username; password_hash = "" }

  abbrev note_activity : {F : Type 0} → ℕ → Result Claims → Db F → Result TenantUser × Db F
  note_activity now (err e) db = (err e, db)
  note_activity now (ok c) db = (ok (user_of c), (update_tenant_last_active c.tenant_id now db).1)

  -- `TenantUserAuth` with a store
  unfoldable pub tenant_user_auth : {F : Type 0} → ℕ → String → Db F → Result TenantUser × Db F
  unfolding read_header
  tenant_user_auth now header db = note_activity now (read_header "tenant" now header) db

  -- `NewAdminToken`
  unfoldable pub new_admin_token : ℕ → String → ℕ → Result String
  new_admin_token now username ttl = jwt.sign secret (record {
    username = username;
    role = "admin";
    tenant_id = "";
    expires_at = some (jwt.numeric_date (now + ttl));
    issued_at = some (jwt.numeric_date now);
  })

  -- `NewTenantToken`
  unfoldable pub new_tenant_token : ℕ → String → String → ℕ → Result String
  new_tenant_token now username tenant_id ttl = jwt.sign secret (record {
    username = username;
    role = "tenant";
    tenant_id = tenant_id;
    expires_at = some (jwt.numeric_date (now + ttl));
    issued_at = some (jwt.numeric_date now);
  })
