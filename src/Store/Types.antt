-- ===== src/Store/Types.antt =====
-- The structs of backend/internal/store/store.go. Times are nanoseconds, amounts are of the float
-- type `F`.
use router_x.Base.Int.{ℤ}
use router_x.Base.{ℕ, String, Bool, Option, List}

pub record Provider : Type 0 where
  pub id : String
  pub name : String
  pub type : String
  pub base_url : String
  pub api_key : String
  pub has_api_key : Bool
  pub default_model : String
  pub supports_text : Bool
  pub supports_vision : Bool
  pub enabled : Bool

pub record RoutingRule : Type 0 where
  pub id : String
  pub tenant_id : String
  pub capability : String
  pub primary_provider_id : String
  pub secondary_provider_id : String
  pub model : String

pub record Tenant (F : Type 0) : Type 0 where
  pub id : String
  pub name : String
  pub balance_usd : F
  pub created_at : ℕ
  pub last_active : Option ℕ
  pub suspended : Bool
  pub total_topup_usd : F
  pub total_spent_usd : F
  pub rate_limit_rpm : ℤ
  pub spend_limit_usd : F

pub record ApiKey : Type 0 where
  pub key : String
  pub tenant_id : String
  pub name : String
  pub allowed_models : List String
  pub created_at : ℕ

pub record AdminUser : Type 0 where
  pub id : String
  pub username : String
  pub password_hash : String

pub record TenantUser : Type 0 where
  pub id : String
  pub tenant_id : String
  pub username : String
  pub password_hash : String

pub record ModelPricing (F : Type 0) : Type 0 where
  pub model : String
  pub price_per_1k_usd : F

pub record ModelCatalog : Type 0 where
  pub model : String
  pub provider_type : String

pub record BalanceTransaction (F : Type 0) : Type 0 where
  pub tenant_id : String
  pub type : String
  pub amount_usd : F
  pub balance_after : F
  pub description : String

pub record Webhook : Type 0 where
  pub id : ℤ
  pub url : String
  pub events : List String
  pub secret : String
  pub enabled : Bool
  pub created_at : ℕ
