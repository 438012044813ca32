-- ===== src/Providers/Chat/Retries.antt =====
-- The Gemini client, which may call twice.
use router_x.Base.Int.{pos}
use router_x.Base.{
  Option-split, if-split, ℕ, ◌+◌, ◌-◌, ◌≤◌, String, Bool, true, false, ◌≡◌, refl, Option, none,
  some, arith, ok, err, Result, is_empty, leb,
}
use router_x.Models.{ChatCompletionRequest}
use router_x.Models.Content.{Json}
use router_x.Store.Types.{Provider}
use router_x.Router.Env.{Reply}
use router_x.Providers.Wire.{Wire, Formats, HttpResponse, StreamSender}
use router_x.Providers.Stream.{no_progress, Ended, finished, broken}
use router_x.Providers.Gemini.Reply.{
  GeminiJson, handle_gemini_stream, gemini_answer, make_request, chat_gemini, GeminiResponse,
  gemini_stream_reply, gemini_whole_reply, after_retry, after_first, wants_retry,
}
use router_x.Providers.Gemini.Contents.{gemini_url}
use router_x.Providers.Chat.Loops.{KeepsStream, read_gemini-IsSafe}
use router_x.Providers.Chat.Calls.{KeepsSender, LeavesRequests, stream-LeavesRequests}
use router_x.Providers.Types.{failure}

module _ {F V E : Type 0} (wire : Wire E) (formats : Formats) (Safe : E → Type 0)
    (codec : GeminiJson F V) (json : Json) where
  abbrev SafeReply : Reply × E → Type 0
  SafeReply (r, e) = Safe e

  gemini_stream_reply-IsSafe :
      (model : String) (send : StreamSender E) (start : ℕ) (x : Ended × E)
      → KeepsStream wire send Safe
      → Safe x.1
      → Safe (gemini_stream_reply wire formats codec json model send start x).1
  gemini_stream_reply-IsSafe model send start (finished p, e) k s = k.sends "[DONE]" e s
  gemini_stream_reply-IsSafe model send start (broken tokens m, e) k s = s

  gemini_whole_reply-IsSafe :
      (model : String) (start : ℕ) (resp : HttpResponse) (r : Result GeminiResponse) (e : E)
      → Safe e
      → Safe (gemini_whole_reply wire formats codec json model start resp r e).1
  gemini_whole_reply-IsSafe model start resp (ok g) e s = s
  gemini_whole_reply-IsSafe model start resp (err m) e s = s

  gemini_read-IsSafe :
      (model : String) (start : ℕ) (resp : HttpResponse) (e : E)
      → Safe e
      → SafeReply (elim resp.read_error as (λ (o : Option String). Reply × E) [
        | some m ↦ (failure (wire.now e - start) (pos 0) m, e)
        | none ↦
            gemini_whole_reply wire formats codec json model start resp
              (codec.decode_response resp.body)
              e
      ])
  gemini_read-IsSafe model start resp e s =
      Option-split SafeReply resp.read_error (gemini_whole_reply-IsSafe model start resp _ e s)
        (λ m. s)

  pub gemini_answer-IsSafe :
      (model : String) (stream : Bool) (sender : Option (StreamSender E)) (start : ℕ)
      (resp : HttpResponse) (e : E)
      → KeepsSender wire Safe sender
      → Safe e
      → Safe (gemini_answer wire formats codec json model stream sender start resp e).1
  unfolding gemini_answer handle_gemini_stream
  gemini_answer-IsSafe model true (some send) start resp e k s =
      gemini_stream_reply-IsSafe model send start _ k
        (read_gemini-IsSafe wire formats send Safe k codec _ no_progress e s)
  gemini_answer-IsSafe model true none start resp e k s = gemini_read-IsSafe model start resp e s
  gemini_answer-IsSafe model false sender start resp e k s = gemini_read-IsSafe model start resp e s

  pub after_retry-IsSafe :
      (model : String) (stream : Bool) (sender : Option (StreamSender E)) (start : ℕ)
      (x : Option (Result HttpResponse) × E)
      → KeepsSender wire Safe sender
      → Safe x.1
      → Safe (after_retry wire formats codec json model stream sender start x).1
  after_retry-IsSafe model stream sender start (none, e) k s = s
  after_retry-IsSafe model stream sender start (some (err m), e) k s = s
  after_retry-IsSafe model stream sender start (some (ok resp), e) k s =
      if-split (λ (r : Option Reply × E). Safe r.1) (leb 300 resp.status) s
        (gemini_answer-IsSafe model stream sender start resp e k s)

module _ {F V E : Type 0} (wire : Wire E) (formats : Formats) (sender : Option (StreamSender E))
    (requests : E → ℕ) (l : LeavesRequests wire sender requests) (codec : GeminiJson F V)
    (json : Json) where
  gemini_answer-requests :
      (model : String) (stream : Bool) (start : ℕ) (resp : HttpResponse) (e : E)
      → requests (gemini_answer wire formats codec json model stream sender start resp e).1
        ≡ requests e
  gemini_answer-requests model stream start resp e =
      gemini_answer-IsSafe wire formats _ codec json model stream sender start resp e
        (stream-LeavesRequests wire requests sender l (requests e)) refl

  make_request-requests :
      (key : String) (req : ChatCompletionRequest F) (stream : Bool) (model : String) (e : E)
      → requests (make_request wire formats codec json key req stream model e).1 ≤ requests e + 1
  unfolding make_request
  make_request-requests key req stream model e =
      Option-split (λ (x : Option (Result HttpResponse) × E). requests x.1 ≤ requests e + 1)
        (wire.url_error (gemini_url formats key stream model)) (omega (arith, l.posts _ e))
        (λ m. omega arith)

  after_retry-requests :
      (model : String) (stream : Bool) (start : ℕ) (x : Option (Result HttpResponse) × E)
      → requests (after_retry wire formats codec json model stream sender start x).1 ≡ requests x.1
  after_retry-requests model stream start x =
      after_retry-IsSafe wire formats _ codec json model stream sender start x
        (stream-LeavesRequests wire requests sender l (requests x.1)) refl

  after_first-requests :
      (info : Provider) (req : ChatCompletionRequest F) (stream : Bool) (start : ℕ)
      (x : Option (Result HttpResponse) × E)
      → requests (after_first wire formats codec json info req stream sender start x).1
        ≤ requests x.1 + 1
  after_first-requests info req stream start (none, e) = omega arith
  after_first-requests info req stream start (some (err m), e) = omega arith
  after_first-requests info req stream start (some (ok resp), e) =
      let P = λ (r : Option Reply × E). requests r.1 ≤ requests e + 1 in
      if-split P (leb 300 resp.status)
        (if-split P (wants_retry wire formats codec json req.model resp)
          (rw (after_retry-requests req.model stream start _)
            (make_request-requests info.api_key req stream _ e))
          (omega arith))
        (omega (arith, gemini_answer-requests req.model stream start resp e))

  pub chat_gemini-requests :
      (info : Provider) (req : ChatCompletionRequest F) (stream : Bool) (e : E)
      → requests (chat_gemini wire formats codec json info req stream sender e).1 ≤ requests e + 2
  unfolding chat_gemini
  chat_gemini-requests info req stream e =
      if-split (λ (r : Option Reply × E). requests r.1 ≤ requests e + 2) (is_empty info.api_key)
        (omega arith)
        (omega (
          arith,
          after_first-requests info req stream (wire.now e)
              (make_request wire formats codec json info.api_key req stream req.model e),
          make_request-requests info.api_key req stream req.model e,
        ))
