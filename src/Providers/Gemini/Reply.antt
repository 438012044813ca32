-- ===== src/Providers/Gemini/Reply.antt =====
-- The calls and answers of `geminiProvider.Chat`, and `handleGeminiStream`.
use Prim.Native.String.{◌++◌}
use router_x.Base.Int.{ℤ, pos, ltb_ℤ, ◌+ℤ◌}
use router_x.Base.{
  ℕ, ◌-◌, String, Bool, true, false, not, ◌&&◌, Option, none, some, List, [], ◌∷◌, Result, ok, err,
  is_empty, leb, if◌then◌else◌,
}
use router_x.Models.{ChatCompletionRequest}
use router_x.Models.Content.{Json}
use router_x.Store.Types.{Provider}
use router_x.Router.Env.{Reply}
use router_x.Providers.Wire.{Wire, Formats, HttpResponse, StreamSender}
use router_x.Providers.Types.{failure, completion, unix}
use router_x.Providers.Stream.{
  Progress, no_progress, Ended, finished, broken, event_of, settled_tokens, is_zero,
}
use router_x.Providers.Anthropic.Reply.{content_chunk}
use router_x.Providers.Gemini.Contents.{GeminiPayload, gemini_payload, gemini_url}

-- `geminiResponse`: the texts of the parts of each candidate, and the counts of tokens.
pub record GeminiResponse : Type 0 where
  pub candidates : List (List String)
  pub prompt_tokens : ℤ
  pub candidates_tokens : ℤ
  pub total_tokens : ℤ

pub record GeminiJson (F V : Type 0) : Type 0 where
  pub value : String → Option V
  -- `json.Marshal`, its error dropped
  pub marshal_payload : GeminiPayload F V → String
  pub decode_response : String → Result GeminiResponse
  -- `json.Unmarshal` of a stream's event; `none` is its error.
  pub decode_event : String → Option GeminiResponse

-- The parts of the first candidate that are not empty, on lines of their own.
unfoldable pub join_parts : String → List String → String
join_parts text [] = text
join_parts text (t ∷ ts) =
    join_parts (if is_empty t then text else if is_empty text then t else (text ++ "\n") ++ t) ts

abbrev first_text : List (List String) → String
first_text [] = ""
first_text (parts ∷ more) = join_parts "" parts

abbrev or_empty_note : String → String
or_empty_note text = if is_empty text then "(empty gemini response)" else text

module _ {E : Type 0} (formats : Formats) (send : StreamSender E) where
  -- The loop over the parts of a candidate: the text so far, and the error that stops it.
  unfoldable pub send_parts : String → List String → E → String × (Option String × E)
  send_parts text [] e = (text, (none, e))
  send_parts text (t ∷ ts) e = elim (is_empty t) [
    | true ↦ send_parts text ts e
    | false ↦ elim (send (content_chunk formats t) e).0 [
      | some m ↦ (text ++ t, (some m, (send (content_chunk formats t) e).1))
      | none ↦ send_parts (text ++ t) ts (send (content_chunk formats t) e).1
    ]
  ]

  -- The loop over the candidates.
  unfoldable pub send_candidates : String → List (List String) → E → String × (Option String × E)
  unfolding send_parts
  send_candidates text [] e = (text, (none, e))
  send_candidates text (parts ∷ more) e =
      let text' = (send_parts text parts e).0 in
      let e' = (send_parts text parts e).1.1 in
      elim (send_parts text parts e).1.0 [
        | some m ↦ (text', (some m, e'))
        | none ↦ send_candidates text' more e'
      ]

abbrev pub gemini_decoded : {A : Type 0} → (String → Option A) → Option String → Option A
gemini_decoded decode none = none
gemini_decoded decode (some event) = decode event

abbrev pub counted : ℤ → ℤ → ℤ
counted total tokens = if ltb_ℤ (pos 0) total then total else tokens

module _ {F V E : Type 0} (formats : Formats) (codec : GeminiJson F V) (send : StreamSender E) where
  -- The loop of `handleGeminiStream`.
  unfoldable pub read_gemini : List String → Progress → E → Ended × E
  unfolding send_candidates
  read_gemini [] p e = (finished p, e)
  read_gemini (line ∷ rest) p e = elim (gemini_decoded codec.decode_event (event_of formats line)) [
    | none ↦ read_gemini rest p e
    | some g ↦
        let text' = (send_candidates formats send p.text g.candidates e).0 in
        let e' = (send_candidates formats send p.text g.candidates e).1.1 in
        elim (send_candidates formats send p.text g.candidates e).1.0 [
          | some m ↦ (broken p.tokens m, e')
          | none ↦
              read_gemini rest (record p { text = text'; tokens = counted g.total_tokens p.tokens })
                e'
        ]
  ]

module _ {F V E : Type 0} (wire : Wire E) (formats : Formats) (codec : GeminiJson F V)
    (json : Json) where
  abbrev pub gemini_completion : String → String → ℕ → ℤ → ℤ → ℤ → ℕ → Reply
  gemini_completion model text start prompt completed total now = record {
    response =
        completion ("gemini_" ++ formats.decimal (pos now)) (unix now) model (some text) "" "stop"
          (record { prompt_tokens = prompt; completion_tokens = completed; total_tokens = total });
    ttft = now - start;
    tokens = total;
    error = none;
  }

  abbrev pub gemini_stream_reply : String → StreamSender E → ℕ → Ended × E → Reply × E
  gemini_stream_reply model send start (broken tokens m, e) =
      (failure (wire.now e - start) tokens m, e)
  gemini_stream_reply model send start (finished p, e) =
      let e' = (send "[DONE]" e).1 in
      (
        gemini_completion model p.text start (pos 0) (pos 0) (settled_tokens formats p)
            (wire.now e'),
        e',
      )

  -- `handleGeminiStream`
  unfoldable pub handle_gemini_stream : HttpResponse → String → StreamSender E → ℕ → E → Reply × E
  unfolding read_gemini
  handle_gemini_stream resp model send start e =
      gemini_stream_reply model send start
        (read_gemini formats codec send (wire.scan 1_048_576 resp) no_progress e)

  abbrev pub translated : String → ℕ → GeminiResponse → ℕ → Reply
  translated model start g now =
      gemini_completion model (or_empty_note (first_text g.candidates)) start g.prompt_tokens
        g.candidates_tokens
        (if is_zero g.total_tokens then g.prompt_tokens +ℤ g.candidates_tokens else g.total_tokens)
        now

  abbrev pub gemini_whole_reply : String → ℕ → HttpResponse → Result GeminiResponse → E → Reply × E
  gemini_whole_reply model start resp (err m) e = (failure (wire.now e - start) (pos 0) m, e)
  gemini_whole_reply model start resp (ok g) e = (translated model start g (wire.now e), e)

  -- From the response that is not an error on.
  unfoldable pub gemini_answer :
      String → Bool → Option (StreamSender E) → ℕ → HttpResponse → E → Reply × E
  unfolding handle_gemini_stream
  gemini_answer model true (some send) start resp e = handle_gemini_stream resp model send start e
  gemini_answer model stream send start resp e = elim resp.read_error [
    | some m ↦ (failure (wire.now e - start) (pos 0) m, e)
    | none ↦ gemini_whole_reply model start resp (codec.decode_response resp.body) e
  ]

  -- `makeRequest`. A URL that `NewRequestWithContext` refuses leaves a nil request, and setting a
  -- header on it panics: `none`.
  unfoldable pub make_request :
      String → ChatCompletionRequest F → Bool → String → E → Option (Result HttpResponse) × E
  make_request key req stream model e =
      let url = gemini_url formats key stream model in
      elim (wire.url_error url) [
        | some m ↦ (none, e)
        | none ↦
            let (r, e') =
              wire.post
                (record {
                  url = url;
                  headers =
                      ("Content-Type", "application/json")
                      ∷ (if is_empty key then [] else ("x-goog-api-key", key) ∷ []);
                  body = codec.marshal_payload (gemini_payload json codec.value req);
                })
                e in
            (some r, e')
      ]

  abbrev pub answered : Reply × E → Option Reply × E
  answered (r, e) = (some r, e)

  -- After the second request, which asks for the `-latest` version of the model.
  abbrev pub after_retry :
      String
      → Bool
      → Option (StreamSender E)
      → ℕ
      → Option (Result HttpResponse) × E
      → Option Reply × E
  after_retry model stream send start (none, e) = (none, e)
  after_retry model stream send start (some (err m), e) =
      (some (failure (wire.now e - start) (pos 0) m), e)
  after_retry model stream send start (some (ok resp), e) =
      if leb 300 resp.status
      then (some (failure (wire.now e - start) (pos 0) resp.body), e)
      else answered (gemini_answer model stream send start resp e)

  abbrev pub wants_retry : String → HttpResponse → Bool
  wants_retry model resp =
      formats.contains_text resp.body "not found" && not (formats.has_suffix model "-latest")

  -- After the first request.
  abbrev pub after_first :
      Provider
      → ChatCompletionRequest F
      → Bool
      → Option (StreamSender E)
      → ℕ
      → Option (Result HttpResponse) × E
      → Option Reply × E
  after_first info req stream send start (none, e) = (none, e)
  after_first info req stream send start (some (err m), e) = (some (failure 0 (pos 0) m), e)
  after_first info req stream send start (some (ok resp), e) =
      if leb 300 resp.status
      then (if wants_retry req.model resp
          then after_retry req.model stream send start
              (make_request info.api_key req stream (req.model ++ "-latest") e)
          else (some (failure (wire.now e - start) (pos 0) resp.body), e))
      else answered (gemini_answer req.model stream send start resp e)

  -- `geminiProvider.Chat` with real calls enabled; `none` is a panic.
  unfoldable pub chat_gemini :
      Provider → ChatCompletionRequest F → Bool → Option (StreamSender E) → E → Option Reply × E
  unfolding gemini_answer make_request
  chat_gemini info req stream send e =
      if is_empty info.api_key
      then (
        some (
            failure 0 (pos 0)
              (("no API key configured for provider " ++ info.name) ++ " (gemini)")),
        e,
      )
      else after_first info req stream send (wire.now e)
          (make_request info.api_key req stream req.model e)
