-- ===== src/Store/Db.antt =====
-- The database as its tables, and how a method of `Store` runs one statement. PostgreSQL is not under
-- the repository: a table is the list of its rows in the order of insertion, a statement is read off
-- its SQL text, and whether a statement fails for a reason outside the text (a lost connection, a
-- full disk) is decided by `outages`, one entry for each statement to come, none of them after its end.
use router_x.Base.Int.{ℤ}
use router_x.Base.{
  ℕ, String, Bool, Option, none, some, List, [], ◌∷◌, Result, ok, err, if◌then◌else◌,
}
use router_x.Store.Types.{
  Tenant, ApiKey, Provider, RoutingRule, ModelPricing, ModelCatalog, BalanceTransaction, AdminUser,
  TenantUser, Webhook,
}

-- A row of `usage_daily`; `day` counts days.
pub record UsageRow (F : Type 0) : Type 0 where
  pub tenant_id : String
  pub provider : String
  pub model : String
  pub day : ℕ
  pub tokens : ℤ
  pub cost_usd : F

-- A row of `request_logs`.
pub record RequestLog (F : Type 0) : Type 0 where
  pub id : ℕ
  pub tenant_id : String
  pub provider : String
  pub model : String
  pub latency_ms : ℕ
  pub ttft_ms : ℕ
  pub tokens : ℤ
  pub cost_usd : F
  pub prompt_hash : String
  pub fallback_used : Bool
  pub status_code : ℕ
  pub error_code : String
  pub user_id : String
  pub app_title : String
  pub app_referer : String
  pub created_at : ℕ

pub record Tables (F : Type 0) : Type 0 where
  pub tenants : List (Tenant F)
  pub api_keys : List ApiKey
  pub providers : List Provider
  pub routing_rules : List RoutingRule
  pub model_pricing : List (ModelPricing F)
  pub model_catalog : List ModelCatalog
  pub request_logs : List (RequestLog F)
  pub usage_daily : List (UsageRow F)
  pub transactions : List (BalanceTransaction F)
  pub admin_users : List AdminUser
  pub tenant_users : List TenantUser
  pub webhooks : List Webhook
  -- The next serial number of `request_logs`
  pub next_log : ℕ

pub record Db (F : Type 0) : Type 0 where
  pub tables : Tables F
  pub outages : List Bool

abbrev pub db_down : String
db_down = "database unavailable"

-- The error of `Scan` on a query that has no row.
abbrev pub no_rows : String
no_rows = "no rows in result set"

abbrev pub or_no_rows : {A : Type 0} → Option A → Result A
or_no_rows none = err no_rows
or_no_rows (some a) = ok a

module _ {F : Type 0} where
  -- `DB.Exec` of a statement that changes the tables as `f` does.
  unfoldable pub exec : (Tables F → Tables F) → Db F → Result (Unit {0}) × Db F
  exec f db = elim db.outages [
    | [] ↦ (ok tt, record db { tables = f db.tables })
    | failing ∷ rest ↦
        if failing
        then (err db_down, record db { outages = rest })
        else (ok tt, record { tables = f db.tables; outages = rest })
  ]

  -- Behind the constraints of its tables.
  abbrev pub committed : Result (Tables F) → Db F → Result (Unit {0}) × Db F
  committed (err e) db = (err e, db)
  committed (ok tables) db = (ok tt, record db { tables = tables })

  -- `DB.Exec` of a statement that a constraint of its table may refuse.
  unfoldable pub exec_checked : (Tables F → Result (Tables F)) → Db F → Result (Unit {0}) × Db F
  exec_checked f db = elim db.outages [
    | [] ↦ committed (f db.tables) db
    | failing ∷ rest ↦
        if failing
        then (err db_down, record db { outages = rest })
        else committed (f db.tables) (record db { outages = rest })
  ]

  -- `DB.QueryRow(...).Scan(...)` of a query whose first row is `f` of the tables.
  unfoldable pub query_row : {A : Type 0} → (Tables F → Option A) → Db F → Result A × Db F
  query_row f db = elim db.outages [
    | [] ↦ (or_no_rows (f db.tables), db)
    | failing ∷ rest ↦
        if failing
        then (err db_down, record db { outages = rest })
        else (or_no_rows (f db.tables), record db { outages = rest })
  ]

-- `SELECT ... WHERE` that takes the first row.
unfoldable pub find_row : {A : Type 0} → (A → Bool) → List A → Option A
find_row p [] = none
find_row p (x ∷ xs) = if p x then some x else find_row p xs

-- `UPDATE ... SET ... WHERE`
unfoldable pub update_rows : {A : Type 0} → (A → Bool) → (A → A) → List A → List A
update_rows p f [] = []
update_rows p f (x ∷ xs) = (if p x then f x else x) ∷ update_rows p f xs

-- `INSERT ... ON CONFLICT ... DO UPDATE`
unfoldable pub upsert_row : {A : Type 0} → (A → Bool) → (A → A) → A → List A → List A
upsert_row p f new [] = new ∷ []
upsert_row p f new (x ∷ xs) = if p x then f x ∷ xs else x ∷ upsert_row p f new xs

-- A database that answers every statement to come.
abbrev pub healthy : {F : Type 0} → Tables F → Db F
healthy tables = record { tables = tables; outages = [] }
