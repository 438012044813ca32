-- ===== src/Auth/Tokens/Roles.antt =====
-- What the tokens of one role are good for.
use router_x.Base.{ℕ, ◌+◌, ◌<◌, String, ◌≡◌, refl, ◌⊎◌, inl, inr, none, some, ok, err, arith}
use router_x.Store.Db.{Db}
use router_x.Auth.Tokens.{
  Claims, Jwt, read_token, read_header, admin_auth, tenant_user_auth, new_tenant_token,
}

-- A token that was signed with a secret is read with that secret as its claims, if at all.
pub record ReadsBack (jwt : Jwt) : Type 0 where
  pub reads_back :
      (secret : String) (c : Claims) (t : String) (now : ℕ)
      → jwt.sign secret c ≡ ok t
      → (jwt.parse now secret t ≡ none) ⊎ (jwt.parse now secret t ≡ some c)

-- A token is read as its claims until they expire.
pub record Accepts (jwt : Jwt) : Type 0 where
  pub accepts :
      (secret : String) (c : Claims) (t : String) (now end : ℕ)
      → jwt.sign secret c ≡ ok t
      → c.expires_at ≡ some end
      → now < end
      → jwt.parse now secret t ≡ some c

module _ (jwt : Jwt) (secret : String) where
  read_header-bearer :
      (role header t : String) (now : ℕ)
      → jwt.bearer header ≡ some t
      → read_header jwt secret role now header
        ≡ read_token jwt secret role now (jwt.parse now secret t)
  unfolding read_header
  read_header-bearer role header t now e = ground arith

  -- No token that is issued for a tenant's user opens the routes of the administrator.
  pub admin_auth_of_tenant_token :
      ReadsBack jwt
      → (now later ttl : ℕ) (username tenant_id header t : String)
      → new_tenant_token jwt secret now username tenant_id ttl ≡ ok t
      → jwt.bearer header ≡ some t
      → admin_auth jwt secret later header ≡ err "invalid token"
  unfolding admin_auth new_tenant_token
  admin_auth_of_tenant_token law now later ttl username tenant_id header t made sent =
      rw (read_header-bearer "admin" header t later sent)
        (elim (law.reads_back secret _ t later made) [
          | inl e ↦ rw e refl
          | inr e ↦ rw e (ground arith)
        ])

  -- A token for a tenant's user lets that user in until it expires.
  pub tenant_user_auth_of_token :
      {F : Type 0}
      → Accepts jwt
      → (now later ttl : ℕ) (username tenant_id header t : String) (db : Db F)
      → new_tenant_token jwt secret now username tenant_id ttl ≡ ok t
      → jwt.bearer header ≡ some t
      → later < jwt.numeric_date (now + ttl)
      → (tenant_user_auth jwt secret later header db).0
        ≡ ok (record { id = ""; tenant_id = tenant_id; username = username; password_hash = "" })
  unfolding tenant_user_auth new_tenant_token
  tenant_user_auth_of_token law now later ttl username tenant_id header t db made sent early =
      rw
        (
          read_header-bearer "tenant" header t later sent,
          law.accepts secret _ t later (jwt.numeric_date (now + ttl)) made refl early,
        )
        (ground arith)
