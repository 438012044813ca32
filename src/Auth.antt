-- ===== src/Auth.antt =====
-- Users and their tokens: `AdminAuth`, `TenantUserAuth` and the issue of tokens of
-- backend/internal/middleware/auth.go, and the handlers of backend/internal/api/handlers.go that log a
-- user in or register one.
pub mod Tokens
pub mod Login
pub mod Register
