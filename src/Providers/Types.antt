-- ===== src/Providers/Types.antt =====
-- `NewProvider` of backend/internal/providers/provider.go, the answers that the clients build, and the
-- dummy answer.
use Prim.Native.String.{◌++◌}
use router_x.Base.Int.{ℤ, pos}
use router_x.Base.{
  ℕ, ◌-◌, ◌/◌, String, Bool, true, Option, none, some, List, [], ◌∷◌, str_eq, is_empty, length,
  if◌then◌else◌,
}
use router_x.Models.{ChatCompletionRequest, ChatCompletionResponse, Usage, no_response}
use router_x.Store.Types.{Provider}
use router_x.Router.Env.{Reply}
use router_x.Providers.Wire.{Wire, Formats, StreamSender}

-- The four implementations of the interface.
pub data Kind : Type 0 where
  openai anthropic gemini generic_openai : Kind

-- `baseProvider` with the implementation around it.
pub record Client : Type 0 where
  pub kind : Kind
  pub info : Provider
  pub enable_real : Bool
  pub provider_type : String

abbrev pub client : Kind → String → Bool → Provider → Client
client kind type real p = record { kind = kind; info = p; enable_real = real; provider_type = type }

abbrev pub with_base : String → Provider → Provider
with_base url p = if is_empty p.base_url then record p { base_url = url } else p

unfoldable pub new_provider : Provider → Bool → Client
new_provider p real =
    if str_eq p.type "openai"
    then client openai "openai" real p
    else if str_eq p.type "anthropic"
    then client anthropic "anthropic" real p
    else if str_eq p.type "gemini"
    then client gemini "gemini" real p
    else if str_eq p.type "deepseek"
    then client generic_openai "deepseek" real (with_base "https://api.deepseek.com" p)
    else if str_eq p.type "mistral"
    then client generic_openai "mistral" real (with_base "https://api.mistral.ai" p)
    else client generic_openai "generic-openai" real p

abbrev pub failure : ℕ → ℤ → String → Reply
failure ttft tokens e = record {
  response = no_response;
  ttft = ttft;
  tokens = tokens;
  error = some e;
}

-- A completion with one choice.
abbrev pub completion :
    String → ℕ → String → Option String → String → String → Usage → ChatCompletionResponse
completion id created model content tool_calls finish usage = record {
  id = id;
  object = "chat.completion";
  created = created;
  model = model;
  choices =
      record {
        index = 0;
        message = record { role = "assistant"; content = content; tool_calls = tool_calls };
        finish = finish;
      }
      ∷ [];
  usage = usage;
}

abbrev pub total_only : ℤ → Usage
total_only n = record { prompt_tokens = pos 0; completion_tokens = pos 0; total_tokens = n }

abbrev pub unix : ℕ → ℕ
unix t = t / 1_000_000_000

abbrev pub dummy_chunks : List String
dummy_chunks = "This is a dummy " ∷ "streamed response " ∷ "from RouterX." ∷ []

module _ {E : Type 0} (wire : Wire E) (formats : Formats) where
  -- The loop over the chunks: the error that stops it.
  unfoldable pub send_chunks : StreamSender E → List String → E → Option String × E
  send_chunks send [] e = (none, (send "[DONE]" e).1)
  send_chunks send (c ∷ cs) e =
      let event = ("{\"choices\":[{\"delta\":{\"content\":" ++ formats.quoted c) ++ "}}]}" in
      let (failed, e') = send event e in
      elim failed [ some m ↦ (some m, e') | none ↦ send_chunks send cs (wire.sleep 50_000_000 e') ]

  abbrev pub stream_dummy : Bool → Option (StreamSender E) → E → Option String × E
  stream_dummy true (some send) e = send_chunks send dummy_chunks e
  stream_dummy _ _ e = (none, e)

module _ {F E : Type 0} (wire : Wire E) (formats : Formats) where
  open formats use {decimal}

  -- `dummyResponse`; its number of tokens is always 25.
  unfoldable pub dummy_response : String → ChatCompletionRequest F → E → ChatCompletionResponse
  dummy_response name req e =
      let text =
        ((("Dummy response from " ++ name) ++ (". Model=" ++ req.model))
          ++ (". Messages=" ++ decimal (pos (length req.messages))))
        ++ "." in
      completion ("dummy_" ++ decimal (pos (wire.now e))) (unix (wire.now e)) req.model (some text)
        "" "stop"
        (record { prompt_tokens = pos 10; completion_tokens = pos 15; total_tokens = pos 25 })

  -- `chatDummy`
  unfoldable pub chat_dummy :
      Client → Bool → Option (StreamSender E) → ChatCompletionRequest F → E → Reply × E
  unfolding dummy_response
  chat_dummy c stream send req e =
      let (failed, e') = stream_dummy wire formats stream send e in
      (
        record {
          response = dummy_response c.info.name req e;
          ttft = wire.now e' - wire.now e;
          tokens = pos 25;
          error = failed;
        },
        e',
      )
