-- ===== src/Router.antt =====
-- backend/internal/router: the circuit breaker, the latency tracker, candidate selection and routing.
pub mod Circuit
pub mod Latency
pub mod Types
pub mod Candidates
pub mod Sorting
pub mod Env
pub mod Attempt
pub mod Routing
pub mod Reports
pub mod Pricing
