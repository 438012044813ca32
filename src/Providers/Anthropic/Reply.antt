-- ===== src/Providers/Anthropic/Reply.antt =====
-- The second half of `anthropicProvider.Chat`, and `handleAnthropicStream`.
use Prim.Native.String.{◌++◌}
use router_x.Base.Int.{ℤ, pos, ltb_ℤ, ◌+ℤ◌}
use router_x.Base.{
  ℕ, ◌-◌, String, Bool, true, Option, none, some, List, [], ◌∷◌, Result, ok, err, str_eq, is_empty,
  leb, if◌then◌else◌,
}
use mathlib.Core.List
use router_x.Models.{ChatCompletionRequest}
use router_x.Models.Content.{Json}
use router_x.Store.Types.{Provider}
use router_x.Router.Env.{Reply}
use router_x.Providers.Wire.{Wire, Formats, HttpRequest, HttpResponse, StreamSender}
use router_x.Providers.Types.{failure, completion, total_only, unix}
use router_x.Providers.Stream.{
  Progress, no_progress, Ended, finished, broken, event_of, settled_tokens,
}
use router_x.Providers.Anthropic.Convert.{Payload, RequestJson, payload}

-- One entry of `anthropicResp.Content`; `input` is raw JSON.
pub record ResponseBlock : Type 0 where
  pub type : String
  pub text : String
  pub id : String
  pub name : String
  pub input : String

pub record AnthropicResponse : Type 0 where
  pub id : String
  pub model : String
  pub content : List ResponseBlock
  pub stop_reason : String
  pub input_tokens : ℤ
  pub output_tokens : ℤ

-- `event` of the stream; `delta` is the text of its delta.
pub record StreamEvent : Type 0 where
  pub type : String
  pub delta : String
  pub input_tokens : ℤ
  pub output_tokens : ℤ

-- One entry of `toolCallsList`.
pub record FunctionCall : Type 0 where
  pub id : String
  pub name : String
  pub arguments : String

pub record AnthropicJson (F V : Type 0) : Type 0 where
  pub request : RequestJson V
  -- `json.Marshal`, its error dropped
  pub marshal_payload : Payload F V → String
  pub marshal_raw : String → String
  pub marshal_calls : List FunctionCall → String
  pub decode_response : String → Result AnthropicResponse
  pub decode_event : String → Option StreamEvent

abbrev is_text_block : ResponseBlock → Bool
is_text_block c = str_eq c.type "text"

-- The texts of the content, one after the other.
unfoldable pub block_text : String → List ResponseBlock → String
block_text text [] = text
block_text text (c ∷ cs) = block_text (if is_text_block c then text ++ c.text else text) cs

module _ {F V : Type 0} (codec : AnthropicJson F V) where
  abbrev pub function_call : ResponseBlock → FunctionCall
  function_call c = record { id = c.id; name = c.name; arguments = codec.marshal_raw c.input }

  unfoldable pub function_calls : List FunctionCall → List ResponseBlock → List FunctionCall
  function_calls calls [] = calls
  function_calls calls (c ∷ cs) =
      function_calls
        (if str_eq c.type "tool_use" then List.◌++◌ calls (function_call c ∷ []) else calls) cs

  abbrev pub marshalled : List FunctionCall → String
  marshalled [] = ""
  marshalled (c ∷ cs) = codec.marshal_calls (c ∷ cs)

abbrev pub content_chunk : Formats → String → String
content_chunk formats text =
    ("{\"choices\":[{\"delta\":{\"content\":" ++ formats.json_string text) ++ "}}]}"

module _ {E : Type 0} (formats : Formats) (send : StreamSender E) where
  -- The switch on `event.Type`: what is collected then, and the error of a `send` that matters.
  unfoldable pub take_event : Progress → StreamEvent → E → Progress × (Option String × E)
  take_event p ev e =
      if str_eq ev.type "content_block_delta"
      then (if is_empty ev.delta
          then (p, (none, e))
          else (record p { text = p.text ++ ev.delta }, send (content_chunk formats ev.delta) e))
      else if str_eq ev.type "message_delta"
      then (
        record p {
          tokens =
              if ltb_ℤ (pos 0) ev.output_tokens
              then ev.input_tokens +ℤ ev.output_tokens
              else p.tokens;
        },
        (none, e),
      )
      else if str_eq ev.type "message_stop"
      then (p, (none, (send "[DONE]" e).1))
      else (p, (none, e))

abbrev pub decoded : {A : Type 0} → (String → Option A) → Option String → Option A
decoded decode none = none
decoded decode (some event) = decode event

module _ {F V E : Type 0} (formats : Formats) (codec : AnthropicJson F V)
    (send : StreamSender E) where
  -- The loop of `handleAnthropicStream`.
  unfoldable pub read_anthropic : List String → Progress → E → Ended × E
  unfolding take_event
  read_anthropic [] p e = (finished p, e)
  read_anthropic (line ∷ rest) p e = elim (decoded codec.decode_event (event_of formats line)) [
    | none ↦ read_anthropic rest p e
    | some ev ↦
        let p' = (take_event formats send p ev e).0 in
        let e' = (take_event formats send p ev e).1.1 in
        elim (take_event formats send p ev e).1.0 [
          | some m ↦ (broken p'.tokens m, e')
          | none ↦ read_anthropic rest p' e'
        ]
  ]

module _ {F V E : Type 0} (wire : Wire E) (formats : Formats) (codec : AnthropicJson F V)
    (json : Json) where
  abbrev pub anthropic_stream_reply : String → ℕ → Ended × E → Reply × E
  anthropic_stream_reply model start (broken tokens m, e) =
      (failure (wire.now e - start) tokens m, e)
  anthropic_stream_reply model start (finished p, e) =
      let tokens = settled_tokens formats p in
      (
        record {
          response =
              completion ("anthropic_" ++ formats.decimal (pos (wire.now e))) (unix (wire.now e))
                model (some p.text) "" "stop" (total_only tokens);
          ttft = wire.now e - start;
          tokens = tokens;
          error = none;
        },
        e,
      )

  -- `handleAnthropicStream`
  unfoldable pub handle_anthropic_stream :
      HttpResponse → String → StreamSender E → ℕ → E → Reply × E
  unfolding read_anthropic
  handle_anthropic_stream resp model send start e =
      if leb 300 resp.status
      then (failure (wire.now e - start) (pos 0) resp.body, e)
      else anthropic_stream_reply model start
          (read_anthropic formats codec send (wire.scan 65_536 resp) no_progress e)

  -- The answer in the form of OpenAI.
  abbrev pub translated : AnthropicResponse → ℕ → ℕ → Reply
  translated a start now =
      let text = block_text "" a.content in
      let total = a.input_tokens +ℤ a.output_tokens in
      record {
        response =
            completion a.id (unix now) a.model (if is_empty text then none else some text)
              (marshalled codec (function_calls codec [] a.content))
              (if str_eq a.stop_reason "tool_use" then "tool_calls" else "stop")
              (record {
                prompt_tokens = a.input_tokens;
                completion_tokens = a.output_tokens;
                total_tokens = total;
              });
        ttft = now - start;
        tokens = total;
        error = none;
      }

  abbrev pub anthropic_whole_reply : ℕ → Result AnthropicResponse → E → Reply × E
  anthropic_whole_reply start (err m) e = (failure (wire.now e - start) (pos 0) m, e)
  anthropic_whole_reply start (ok a) e = (translated a start (wire.now e), e)

  abbrev pub anthropic_after_request :
      String → Bool → Option (StreamSender E) → ℕ → Result HttpResponse × E → Reply × E
  anthropic_after_request model stream send start (err m, e) = (failure 0 (pos 0) m, e)
  anthropic_after_request model true (some send) start (ok resp, e) =
      handle_anthropic_stream resp model send start e
  anthropic_after_request model stream send start (ok resp, e) =
      if leb 300 resp.status
      then (failure (wire.now e - start) (pos 0) resp.body, e)
      else anthropic_whole_reply start (codec.decode_response resp.body) e

  abbrev pub anthropic_request : Provider → ChatCompletionRequest F → Bool → HttpRequest
  anthropic_request info req stream = record {
    url = "https://api.anthropic.com/v1/messages";
    headers =
        ("Content-Type", "application/json")
        ∷ ("x-api-key", info.api_key)
        ∷ ("anthropic-version", "2023-06-01")
        ∷ [];
    body = codec.marshal_payload (payload formats codec.request json req stream);
  }

  -- `anthropicProvider.Chat` with real calls enabled.
  unfoldable pub chat_anthropic :
      Provider → ChatCompletionRequest F → Bool → Option (StreamSender E) → E → Reply × E
  unfolding handle_anthropic_stream
  chat_anthropic info req stream send e =
      if is_empty info.api_key
      then (
        failure 0 (pos 0) (("no API key configured for provider " ++ info.name) ++ " (anthropic)"),
        e,
      )
      else anthropic_after_request req.model stream send (wire.now e)
          (wire.post (anthropic_request info req stream) e)
