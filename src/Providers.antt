-- ===== src/Providers.antt =====
-- backend/internal/providers/provider.go: the clients of the language model providers.
pub mod Wire
pub mod Types
pub mod Stream
pub mod Openai
pub mod Anthropic
pub mod Gemini
pub mod Chat
pub mod Tokens
