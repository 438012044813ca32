-- ===== src/Providers/Openai.antt =====
-- The OpenAI client and the generic client of backend/internal/providers/provider.go.
pub mod Events
use Prim.Native.String.{◌++◌}
use router_x.Base.Int.{ℤ, pos, ltb_ℤ}
use router_x.Base.{
  ℕ, ◌-◌, String, Bool, true, false, not, ◌&&◌, Option, none, some, List, [], ◌∷◌, Result, ok, err,
  str_eq, is_empty, leb, if◌then◌else◌, map,
}
use router_x.Models.{ChatCompletionRequest, ChatCompletionResponse, Choice, Usage}
use router_x.Models.Content.{Json}
use router_x.Store.Types.{Provider}
use router_x.Router.Env.{Reply}
use router_x.Providers.Wire.{Wire, Formats, HttpResponse, StreamSender}
use router_x.Providers.Types.{failure, completion, total_only, unix}
use router_x.Providers.Stream.{
  Progress, no_progress, Ended, finished, broken, event_of, settled_tokens,
}

-- One entry of `raw.Choices`; `content` is raw JSON.
pub record RawChoice : Type 0 where
  pub index : ℕ
  pub role : String
  pub content : String
  pub tool_calls : String
  pub finish : String

pub record RawResponse : Type 0 where
  pub id : String
  pub object : String
  pub created : ℕ
  pub model : String
  pub choices : List RawChoice
  pub usage : Usage

-- `chunk`: its ID, the contents of its deltas, and its total of tokens, if it has a usage.
pub record Chunk : Type 0 where
  pub id : String
  pub deltas : List String
  pub usage : Option ℤ

-- What is decoded from and encoded to JSON.
pub record OpenaiJson (F : Type 0) : Type 0 where
  pub marshal_request : ChatCompletionRequest F → Result String
  pub decode_response : String → Result RawResponse
  -- `json.Unmarshal` of a stream's event; `none` is its error.
  pub decode_chunk : String → Option Chunk

abbrev raw_content : Json → String → Option String
raw_content json raw =
    if not (is_empty raw) && not (str_eq raw "null") then json.unmarshal_string raw else none

abbrev read_choice : Json → RawChoice → Choice
read_choice json c = record {
  index = c.index;
  message = record {
    role = c.role;
    content = raw_content json c.content;
    tool_calls = c.tool_calls;
  };
  finish = c.finish;
}

abbrev read_response : Json → String → RawResponse → ChatCompletionResponse
read_response json model raw = record {
  id = raw.id;
  object = raw.object;
  created = raw.created;
  model = if is_empty raw.model then model else raw.model;
  choices = map (read_choice json) raw.choices;
  usage = raw.usage;
}

abbrev read_or_fail : Json → String → Result RawResponse → Result ChatCompletionResponse
read_or_fail json model (err e) = err e
read_or_fail json model (ok raw) = ok (read_response json model raw)

-- Everything that `WriteString` appends for one chunk.
unfoldable pub append_deltas : String → List String → String
append_deltas text [] = text
append_deltas text (d ∷ ds) = append_deltas (text ++ d) ds

abbrev reported : Option ℤ → ℤ → ℤ
reported none tokens = tokens
reported (some n) tokens = if ltb_ℤ (pos 0) n then n else tokens

unfoldable pub read_chunk : Progress → Option Chunk → Progress
read_chunk p none = p
read_chunk p (some c) = record {
  text = append_deltas p.text c.deltas;
  tokens = reported c.usage p.tokens;
  id = if is_empty c.id then p.id else c.id;
}

abbrev pub prepared : {F : Type 0} → Bool → ChatCompletionRequest F → ChatCompletionRequest F
prepared true req = record req { stream = true; stream_options = some true }
prepared false req = record req { stream = false }

-- The bearer key, unless it is empty.
abbrev pub request_headers : String → List (String × String)
request_headers key =
    ("Content-Type", "application/json")
    ∷ (if is_empty key then [] else ("Authorization", "Bearer " ++ key) ∷ [])

module _ {F : Type 0} (codec : OpenaiJson F) (json : Json) where
  -- `parseOpenAIResponse`
  unfoldable pub parse_openai_response : HttpResponse → String → Result ChatCompletionResponse
  parse_openai_response resp model =
      if leb 300 resp.status
      then err resp.body
      else read_or_fail json model (codec.decode_response resp.body)

module _ {F E : Type 0} (formats : Formats) (codec : OpenaiJson F) where
  -- The loop of `handleOpenAIStream`.
  unfoldable pub read_events : StreamSender E → List String → Progress → E → Ended × E
  read_events send [] p e = (finished p, e)
  read_events send (line ∷ rest) p e = elim (event_of formats line) [
    | none ↦ read_events send rest p e
    | some event ↦ elim (str_eq event "[DONE]") [
      | true ↦ (finished p, (send "[DONE]" e).1)
      | false ↦ elim (send event e).0 [
        | some m ↦ (broken p.tokens m, (send event e).1)
        | none ↦ read_events send rest (read_chunk p (codec.decode_chunk event)) (send event e).1
      ]
    ]
  ]

module _ {F E : Type 0} (wire : Wire E) (formats : Formats) (codec : OpenaiJson F)
    (json : Json) where
  abbrev pub openai_stream_reply : String → ℕ → Ended × E → Reply × E
  openai_stream_reply model start (broken tokens m, e) = (failure (wire.now e - start) tokens m, e)
  openai_stream_reply model start (finished p, e) =
      let tokens = settled_tokens formats p in
      (
        record {
          response =
              completion p.id (unix (wire.now e)) model (some p.text) "" "stop" (total_only tokens);
          ttft = wire.now e - start;
          tokens = tokens;
          error = none;
        },
        e,
      )

  -- `handleOpenAIStream`
  unfoldable pub handle_openai_stream : HttpResponse → String → StreamSender E → ℕ → E → Reply × E
  unfolding read_events
  handle_openai_stream resp model send start e =
      if leb 300 resp.status
      then (failure (wire.now e - start) (pos 0) resp.body, e)
      else openai_stream_reply model start
          (read_events formats codec send (wire.scan 65_536 resp) no_progress e)

  abbrev pub openai_whole_reply : ℕ → Result ChatCompletionResponse → E → Reply × E
  openai_whole_reply start (err m) e = (failure (wire.now e - start) (pos 0) m, e)
  openai_whole_reply start (ok out) e = (
    record {
      response = out;
      ttft = wire.now e - start;
      tokens = out.usage.total_tokens;
      error = none;
    },
    e,
  )

  -- What follows `doOpenAIRequest`.
  abbrev pub openai_after_request :
      String → Bool → Option (StreamSender E) → ℕ → Result HttpResponse × E → Reply × E
  openai_after_request model stream send start (err m, e) = (failure 0 (pos 0) m, e)
  openai_after_request model true (some send) start (ok resp, e) =
      handle_openai_stream resp model send start e
  openai_after_request model stream send start (ok resp, e) =
      openai_whole_reply start (parse_openai_response codec json resp model) e

  abbrev pub post_body : String → String → Result String → E → Result HttpResponse × E
  post_body url key (err m) e = (err m, e)
  post_body url key (ok body) e = elim (wire.url_error url) [
    | some m ↦ (err m, e)
    | none ↦ wire.post (record { url = url; headers = request_headers key; body = body }) e
  ]

  -- `doOpenAIRequest`
  unfoldable pub do_openai_request :
      String → ChatCompletionRequest F → String → E → Result HttpResponse × E
  do_openai_request url req key e = post_body url key (codec.marshal_request req) e

  -- The call that the two clients share, once they have a URL.
  unfoldable pub call_openai :
      String → Provider → ChatCompletionRequest F → Bool → Option (StreamSender E) → E → Reply × E
  unfolding do_openai_request
  call_openai url info req stream send e =
      openai_after_request req.model stream send (wire.now e)
        (do_openai_request url (prepared stream req) info.api_key e)

  -- `openAIProvider.Chat` with real calls enabled.
  unfoldable pub chat_openai :
      Provider → ChatCompletionRequest F → Bool → Option (StreamSender E) → E → Reply × E
  unfolding call_openai
  chat_openai info req stream send e =
      if is_empty info.api_key
      then (
        failure 0 (pos 0) (("no API key configured for provider " ++ info.name) ++ " (openai)"),
        e,
      )
      else call_openai "https://api.openai.com/v1/chat/completions" info req stream send e

  -- `genericOpenAIProvider.Chat` with real calls enabled.
  unfoldable pub chat_generic :
      Provider → ChatCompletionRequest F → Bool → Option (StreamSender E) → E → Reply × E
  unfolding call_openai
  chat_generic info req stream send e =
      if is_empty info.api_key
      then (
        failure 0 (pos 0)
            (("no API key configured for provider " ++ info.name) ++ " (generic-openai)"),
        e,
      )
      else if is_empty info.base_url
      then (failure 0 (pos 0) "base_url required", e)
      else call_openai (formats.trim_slashes info.base_url ++ "/v1/chat/completions") info req
          stream send e
