-- ===== src/Providers/Gemini.antt =====
-- The Gemini client of backend/internal/providers/provider.go.
pub mod Contents
pub mod Reply
