-- ===== src/Providers/Tokens.antt =====
-- The tokens that a stream reports.
use router_x.Base.Int.{pos, ◌≤ℤ◌}
use router_x.Base.{
  Option-split, Bool-split, if-split, ℕ, String, ◌≡◌, refl, Option, none, List, [], ◌∷◌, arith, leb,
  str_eq,
}
use router_x.Models.Content.{Json}
use router_x.Router.Env.{Reply}
use router_x.Providers.Wire.{Wire, Formats, HttpResponse, StreamSender}
use router_x.Providers.Stream.{
  Progress, no_progress, Ended, finished, broken, event_of, settled_tokens,
}
use router_x.Providers.Openai.{
  OpenaiJson, Chunk, read_chunk, read_events, openai_stream_reply, handle_openai_stream,
}
use router_x.Providers.Chat.{Codecs}
use router_x.Providers.Gemini.Reply.{
  GeminiJson, gemini_decoded, send_candidates, read_gemini, gemini_stream_reply,
  handle_gemini_stream,
}

abbrev IsCount : Ended → Type 0
IsCount (finished p) = pos 0 ≤ℤ p.tokens
IsCount (broken tokens m) = Unit

settled_tokens-pos :
    (formats : Formats) (p : Progress) → pos 0 ≤ℤ p.tokens → pos 1 ≤ℤ settled_tokens formats p
unfolding settled_tokens
settled_tokens-pos formats p h = ground arith

read_chunk-count :
    (p : Progress) (c : Option Chunk) → pos 0 ≤ℤ p.tokens → pos 0 ≤ℤ (read_chunk p c).tokens
unfolding read_chunk
read_chunk-count p c h = ground arith

-- The answer is an error, or it reports at least one token, in its usage too.
abbrev pub HasTokens : Reply → Type 0
HasTokens r = r.error ≡ none → (pos 1 ≤ℤ r.tokens) × (r.response.usage.total_tokens ≡ r.tokens)

module _ {F E : Type 0} (formats : Formats) (codec : OpenaiJson F) (send : StreamSender E) where
  read_events-IsCount :
      (lines : List String) (p : Progress) (e : E)
      → pos 0 ≤ℤ p.tokens
      → IsCount (read_events formats codec send lines p e).0
  unfolding read_events
  read_events-IsCount [] p e h = h
  read_events-IsCount (line ∷ rest) p e h =
      let P = λ (r : Ended × E). IsCount r.0 in
      Option-split P (event_of formats line) (read_events-IsCount rest p e h) (λ x.
        Bool-split P (str_eq x "[DONE]") h (
          Option-split P (send x e).0
            (read_events-IsCount rest _ _ (read_chunk-count p (codec.decode_chunk x) h)) (λ m. tt)))

module _ {F E : Type 0} (wire : Wire E) (formats : Formats) (codec : OpenaiJson F) (json : Json)
    (send : StreamSender E) where
  openai_stream_reply-HasTokens :
      (model : String) (start : ℕ) (x : Ended × E)
      → IsCount x.0
      → HasTokens (openai_stream_reply wire formats codec json model start x).0
  openai_stream_reply-HasTokens model start (finished p, e) h error =
      (settled_tokens-pos formats p h, refl)
  openai_stream_reply-HasTokens model start (broken tokens m, e) h error = cc

  handle_openai_stream-HasTokens :
      (resp : HttpResponse) (model : String) (start : ℕ) (e : E)
      → HasTokens (handle_openai_stream wire formats codec json resp model send start e).0
  unfolding handle_openai_stream
  handle_openai_stream-HasTokens resp model start e =
      if-split (λ (r : Reply × E). HasTokens r.0) (leb 300 resp.status) (λ error. cc)
        (openai_stream_reply-HasTokens model start _
          (read_events-IsCount formats codec send _ no_progress e (omega arith)))

module _ {F V E : Type 0} (formats : Formats) (codec : GeminiJson F V) (send : StreamSender E) where
  read_gemini-IsCount :
      (lines : List String) (p : Progress) (e : E)
      → pos 0 ≤ℤ p.tokens
      → IsCount (read_gemini formats codec send lines p e).0
  unfolding read_gemini
  read_gemini-IsCount [] p e h = h
  read_gemini-IsCount (line ∷ rest) p e h =
      let P = λ (r : Ended × E). IsCount r.0 in
      Option-split P (gemini_decoded codec.decode_event (event_of formats line))
        (read_gemini-IsCount rest p e h)
        (λ g.
          Option-split P (send_candidates formats send p.text g.candidates e).1.0
            (read_gemini-IsCount rest _ _ (ground arith)) (λ m. tt))

module _ {F V E : Type 0} (wire : Wire E) (formats : Formats) (codec : GeminiJson F V) (json : Json)
    (send : StreamSender E) where
  gemini_stream_reply-HasTokens :
      (model : String) (start : ℕ) (x : Ended × E)
      → IsCount x.0
      → HasTokens (gemini_stream_reply wire formats codec json model send start x).0
  gemini_stream_reply-HasTokens model start (finished p, e) h error =
      (settled_tokens-pos formats p h, refl)
  gemini_stream_reply-HasTokens model start (broken tokens m, e) h error = cc

  handle_gemini_stream-HasTokens :
      (resp : HttpResponse) (model : String) (start : ℕ) (e : E)
      → HasTokens (handle_gemini_stream wire formats codec json resp model send start e).0
  unfolding handle_gemini_stream
  handle_gemini_stream-HasTokens resp model start e =
      gemini_stream_reply-HasTokens model start _
        (read_gemini-IsCount formats codec send _ no_progress e (omega arith))

-- A stream in the form of OpenAI or of Gemini that is answered without an error is reported with at least
-- one token, in the usage of its response too, whatever its events say.
pub streams_report_tokens :
    {F V E : Type 0}
    → (wire : Wire E) (formats : Formats) (codecs : Codecs F V) (send : StreamSender E)
      (resp : HttpResponse) (model : String) (start : ℕ) (e : E)
    → HasTokens
        (handle_openai_stream wire formats codecs.openai codecs.json resp model send start e).0
      × HasTokens
          (handle_gemini_stream wire formats codecs.gemini codecs.json resp model send start e).0
streams_report_tokens wire formats codecs send resp model start e = (
  handle_openai_stream-HasTokens wire formats codecs.openai codecs.json send resp model start e,
  handle_gemini_stream-HasTokens wire formats codecs.gemini codecs.json send resp model start e,
)
