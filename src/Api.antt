-- ===== src/Api.antt =====
-- backend/internal/api/handlers.go: the handlers of the HTTP server.
pub mod Http
pub mod Options
pub mod Billing
pub mod Chat
pub mod Tenants
pub mod Providers
pub mod Rules
pub mod Logs
pub mod Embeddings
pub mod Listings
pub mod Ledger
pub mod Stats
