-- ===== src/Tests.antt =====
-- Concrete providers, services and databases, and the theorems of the library applied to them.
pub mod Data
pub mod Router
pub mod Circuits
pub mod Limits
pub mod Chat
pub mod Providers
pub mod Auth
pub mod Admin
pub mod Startup
pub mod Logs
pub mod Gateway
pub mod Routes
pub mod Stats
