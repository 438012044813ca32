-- ===== src/Store/Users.antt =====
-- The methods of `Store` on users, and `CreateTenant`; the constraints are those of
-- migrations/001_init.sql and migrations/002_tenant_users.sql.
use router_x.Base.Int.{pos}
use router_x.Base.Float.{Float64}
use router_x.Base.{
  ℕ, String, Bool, not, ◌||◌, none, [], ◌∷◌, ◌++◌, Result, ok, err, str_eq, anyb, if◌then◌else◌,
}
use router_x.Store.Types.{Tenant, AdminUser, TenantUser}
use router_x.Store.Db.{Tables, Db, exec, exec_checked, query_row, find_row, upsert_row}
use router_x.Store.Tenants.{has_id}

abbrev pub is_admin : String → AdminUser → Bool
is_admin username u = str_eq u.username username

abbrev pub is_user : String → TenantUser → Bool
is_user username u = str_eq u.username username

module _ {F : Type 0} where
  -- `GetAdminByUsername`
  unfoldable pub get_admin_by_username : String → Db F → Result AdminUser × Db F
  get_admin_by_username username = query_row λ db. find_row (is_admin username) db.admin_users

  -- `GetTenantUserByUsername`
  unfoldable pub get_tenant_user_by_username : String → Db F → Result TenantUser × Db F
  get_tenant_user_by_username username = query_row λ db. find_row (is_user username) db.tenant_users

  -- The primary key and the unique user name, and the tenant that must be there.
  abbrev pub insert_user : TenantUser → Tables F → Result (Tables F)
  insert_user u db =
      if anyb (λ (v : TenantUser). str_eq v.id u.id || str_eq v.username u.username) db.tenant_users
      then err "duplicate key value violates unique constraint"
      else if not (anyb (has_id u.tenant_id) db.tenants)
      then err "insert or update violates foreign key constraint"
      else ok (record db { tenant_users = db.tenant_users ++ u ∷ [] })

  -- `CreateTenantUser`
  unfoldable pub create_tenant_user : TenantUser → Db F → Result (Unit {0}) × Db F
  create_tenant_user u = exec_checked (insert_user u)

module _ {F : Type 0} ⦃fl : Float64 F⦄ where
  -- A row that is given the identifier and the name; the other columns have their defaults.
  abbrev pub fresh_tenant : ℕ → String → String → Tenant F
  fresh_tenant now id name = record {
    id = id;
    name = name;
    balance_usd = fl.zero_f;
    created_at = now;
    last_active = none;
    suspended = Bool.false;
    total_topup_usd = fl.zero_f;
    total_spent_usd = fl.zero_f;
    rate_limit_rpm = pos 60;
    spend_limit_usd = fl.zero_f;
  }

  -- `CreateTenant`; `now` is the default of `created_at`.
  unfoldable pub create_tenant : ℕ → String → String → Db F → Result (Unit {0}) × Db F
  create_tenant now id name = exec λ db. record db {
    tenants =
        upsert_row (has_id id) (λ t. record t { name = name }) (fresh_tenant now id name)
          db.tenants;
  }
