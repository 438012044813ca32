-- ===== src/Store.antt =====
-- backend/internal/store/store.go: the rows of the database and the statements that the methods of
-- `Store` run on them.
pub mod Types
pub mod Db
pub mod Queries
pub mod Tenants
pub mod Keys
pub mod Pricing
pub mod Ledger
pub mod Settled
pub mod Providers
pub mod Users
pub mod Rules
pub mod Webhooks
pub mod Logs
pub mod Listings
pub mod Stats
pub mod Dashboard
