-- ===== src/Providers/Anthropic.antt =====
-- The Anthropic client of backend/internal/providers/provider.go: its answers and its streams.
pub mod Convert
pub mod Reply
