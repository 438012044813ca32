-- ===== src/Providers/Chat.antt =====
-- `Chat` of the four clients of backend/internal/providers/provider.go.
pub mod Loops
pub mod Calls
pub mod Retries
pub mod Requests
pub mod Addressed
pub mod Panics
use router_x.Base.{Bool, Option, some, if◌then◌else◌}
use router_x.Models.{ChatCompletionRequest}
use router_x.Models.Content.{Json}
use router_x.Router.Env.{Reply}
use router_x.Providers.Wire.{Wire, Formats, StreamSender}
use router_x.Providers.Types.{Client, openai, anthropic, gemini, generic_openai, chat_dummy}
use router_x.Providers.Openai.{OpenaiJson, chat_openai, chat_generic}
use router_x.Providers.Anthropic.Reply.{AnthropicJson, chat_anthropic}
use router_x.Providers.Gemini.Reply.{GeminiJson, chat_gemini}

-- `encoding/json` at the types of the three interfaces.
pub record Codecs (F V : Type 0) : Type 0 where
  pub openai : OpenaiJson F
  pub anthropic : AnthropicJson F V
  pub gemini : GeminiJson F V
  pub json : Json

module _ {F V E : Type 0} (wire : Wire E) (formats : Formats) (codecs : Codecs F V) where
  abbrev pub replied : Reply × E → Option Reply × E
  replied (r, e) = (some r, e)

  -- The calls, with real calls enabled.
  unfoldable pub chat_real :
      Client → ChatCompletionRequest F → Bool → Option (StreamSender E) → E → Option Reply × E
  unfolding chat_openai chat_generic chat_anthropic chat_gemini
  chat_real c req stream send e = elim c.kind [
    | openai ↦ replied (chat_openai wire formats codecs.openai codecs.json c.info req stream send e)
    | generic_openai ↦
        replied (chat_generic wire formats codecs.openai codecs.json c.info req stream send e)
    | anthropic ↦
        replied (chat_anthropic wire formats codecs.anthropic codecs.json c.info req stream send e)
    | gemini ↦ chat_gemini wire formats codecs.gemini codecs.json c.info req stream send e
  ]

  -- `Chat`; `none` is a panic.
  unfoldable pub chat :
      Client → ChatCompletionRequest F → Bool → Option (StreamSender E) → E → Option Reply × E
  unfolding chat_real chat_dummy
  chat c req stream send e =
      if c.enable_real
      then chat_real c req stream send e
      else replied (chat_dummy wire formats c stream send req e)
