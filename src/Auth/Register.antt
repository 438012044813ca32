-- ===== src/Auth/Register.antt =====
-- `AuthRegister`. A body that does not decode is `none`.
pub mod LogsIn
use Prim.Native.String.{◌++◌}
use router_x.Base.Float.{Float64}
use router_x.Base.{ℕ, String, ◌||◌, Option, none, some, Result, ok, err, is_empty, if◌then◌else◌}
use router_x.Store.Types.{TenantUser}
use router_x.Store.Db.{Db}
use router_x.Store.Tenants.{update_tenant_balance}
use router_x.Store.Users.{create_tenant, create_tenant_user}
use router_x.Auth.Login.{AuthAnswer, refuse, grant, status_ok, Bcrypt}

pub record Registration : Type 0 where
  pub username : String
  pub password : String
  pub tenant : String

-- What each registration gets from outside: two identifiers of `ksuid`, the salt of `bcrypt`, and the
-- time.
pub record Fresh : Type 0 where
  pub tenant_id : String
  pub user_id : String
  pub salt : String
  pub now : ℕ

abbrev pub workspace : Registration → String
workspace p = if is_empty p.tenant then p.username ++ " Workspace" else p.tenant

abbrev pub new_user : Fresh → Registration → String → TenantUser
new_user fresh p hash = record {
  id = fresh.user_id;
  tenant_id = fresh.tenant_id;
  username = p.username;
  password_hash = hash;
}

abbrev pub user_created : {F : Type 0} → Result (Unit {0}) × Db F → AuthAnswer × Db F
user_created (err e, db) = (refuse 500 "failed to create user", db)
user_created (ok u, db) = (grant status_ok, db)

module _ {F : Type 0} ⦃fl : Float64 F⦄ (numeric : F → F) (bcrypt : Bcrypt) where
  -- After the tenant was written; the error of the balance is dropped.
  abbrev tenant_created :
      Fresh → Registration → String → Result (Unit {0}) × Db F → AuthAnswer × Db F
  tenant_created fresh p hash (err e, db) = (refuse 500 "failed to create tenant", db)
  tenant_created fresh p hash (ok u, db) = user_created (
      create_tenant_user (new_user fresh p hash)
        (update_tenant_balance numeric fresh.tenant_id fl.zero_f db).1)

  abbrev hashed : Fresh → Registration → Result String → Db F → AuthAnswer × Db F
  hashed fresh p (err e) db = (refuse 500 "failed to register", db)
  hashed fresh p (ok hash) db =
      tenant_created fresh p hash (create_tenant fresh.now fresh.tenant_id (workspace p) db)

  -- `AuthRegister`
  unfoldable pub auth_register : Fresh → Option Registration → Db F → AuthAnswer × Db F
  auth_register fresh none db = (refuse 400 "invalid json", db)
  auth_register fresh (some p) db =
      if is_empty p.username || is_empty p.password
      then (refuse 400 "missing username or password", db)
      else hashed fresh p (bcrypt.generate fresh.salt p.password) db
