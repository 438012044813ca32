-- ===== src/Providers/Chat/Calls.antt =====
-- The clients with one call: OpenAI, the generic one and Anthropic. What follows their call reaches the
-- surroundings only through the sender of events.
use router_x.Base.{
  Option-split, if-split, ℕ, ◌+◌, ◌≤◌, String, Bool, true, false, ◌≡◌, refl, ◌∙◌, Option, none,
  some, arith, ok, err, Result, leb,
}
use router_x.Models.{ChatCompletionRequest, ChatCompletionResponse}
use router_x.Models.Content.{Json}
use router_x.Store.Types.{Provider}
use router_x.Router.Env.{Reply}
use router_x.Providers.Wire.{Wire, Formats, HttpRequest, HttpResponse, StreamSender}
use router_x.Providers.Types.{stream_dummy, dummy_chunks}
use router_x.Providers.Stream.{no_progress, Ended, finished, broken}
use router_x.Providers.Openai.{
  OpenaiJson, handle_openai_stream, openai_after_request, openai_stream_reply, openai_whole_reply,
  do_openai_request, call_openai, post_body,
}
use router_x.Providers.Anthropic.Reply.{
  AnthropicJson, handle_anthropic_stream, AnthropicResponse, anthropic_stream_reply,
  anthropic_whole_reply, anthropic_after_request,
}
use router_x.Providers.Chat.Loops.{
  KeepsStream, send_chunks-IsSafe, read_events-IsSafe, read_anthropic-IsSafe,
}

-- `KeepsStream` for a sender that may be nil.
abbrev pub KeepsSender : {E : Type 0} → Wire E → (E → Type 0) → Option (StreamSender E) → Type 0
KeepsSender wire Safe none = Unit
KeepsSender wire Safe (some send) = KeepsStream wire send Safe

module _ {E : Type 0} (wire : Wire E) (formats : Formats) (Safe : E → Type 0) where
  abbrev SafeReply : Reply × E → Type 0
  SafeReply (r, e) = Safe e

  pub stream_dummy-IsSafe :
      (stream : Bool) (sender : Option (StreamSender E)) (e : E)
      → KeepsSender wire Safe sender
      → Safe e
      → Safe (stream_dummy wire formats stream sender e).1
  stream_dummy-IsSafe true (some send) e k s =
      send_chunks-IsSafe wire formats send Safe k dummy_chunks e s
  stream_dummy-IsSafe true none e k s = s
  stream_dummy-IsSafe false sender e k s = s

  module _ {F : Type 0} (codec : OpenaiJson F) (json : Json) where
    openai_stream_reply-IsSafe :
        (model : String) (start : ℕ) (x : Ended × E)
        → Safe x.1
        → Safe (openai_stream_reply wire formats codec json model start x).1
    openai_stream_reply-IsSafe model start (finished p, e) s = s
    openai_stream_reply-IsSafe model start (broken tokens m, e) s = s

    openai_whole_reply-IsSafe :
        (start : ℕ) (r : Result ChatCompletionResponse) (e : E)
        → Safe e
        → Safe (openai_whole_reply wire formats codec json start r e).1
    openai_whole_reply-IsSafe start (ok out) e s = s
    openai_whole_reply-IsSafe start (err m) e s = s

    pub openai_after_request-IsSafe :
        (model : String) (stream : Bool) (sender : Option (StreamSender E)) (start : ℕ)
        (x : Result HttpResponse × E)
        → KeepsSender wire Safe sender
        → Safe x.1
        → Safe (openai_after_request wire formats codec json model stream sender start x).1
    unfolding handle_openai_stream
    openai_after_request-IsSafe model stream sender start (err m, e) k s = s
    openai_after_request-IsSafe model true (some send) start (ok resp, e) k s =
        if-split SafeReply (leb 300 resp.status) s (
          openai_stream_reply-IsSafe model start _
            (read_events-IsSafe wire formats send Safe k codec _ no_progress e s))
    openai_after_request-IsSafe model true none start (ok resp, e) k s =
        openai_whole_reply-IsSafe start _ e s
    openai_after_request-IsSafe model false sender start (ok resp, e) k s =
        openai_whole_reply-IsSafe start _ e s

  module _ {F V : Type 0} (codec : AnthropicJson F V) (json : Json) where
    anthropic_stream_reply-IsSafe :
        (model : String) (start : ℕ) (x : Ended × E)
        → Safe x.1
        → Safe (anthropic_stream_reply wire formats codec json model start x).1
    anthropic_stream_reply-IsSafe model start (finished p, e) s = s
    anthropic_stream_reply-IsSafe model start (broken tokens m, e) s = s

    anthropic_whole_reply-IsSafe :
        (start : ℕ) (r : Result AnthropicResponse) (e : E)
        → Safe e
        → Safe (anthropic_whole_reply wire formats codec json start r e).1
    anthropic_whole_reply-IsSafe start (ok a) e s = s
    anthropic_whole_reply-IsSafe start (err m) e s = s

    pub anthropic_after_request-IsSafe :
        (model : String) (stream : Bool) (sender : Option (StreamSender E)) (start : ℕ)
        (x : Result HttpResponse × E)
        → KeepsSender wire Safe sender
        → Safe x.1
        → Safe (anthropic_after_request wire formats codec json model stream sender start x).1
    unfolding handle_anthropic_stream
    anthropic_after_request-IsSafe model stream sender start (err m, e) k s = s
    anthropic_after_request-IsSafe model true (some send) start (ok resp, e) k s =
        if-split SafeReply (leb 300 resp.status) s (
          anthropic_stream_reply-IsSafe model start _
            (read_anthropic-IsSafe wire formats send Safe k codec _ no_progress e s))
    anthropic_after_request-IsSafe model true none start (ok resp, e) k s =
        if-split SafeReply (leb 300 resp.status) s (anthropic_whole_reply-IsSafe start _ e s)
    anthropic_after_request-IsSafe model false sender start (ok resp, e) k s =
        if-split SafeReply (leb 300 resp.status) s (anthropic_whole_reply-IsSafe start _ e s)

-- A count of HTTP requests, which posts alone move; a request may come without a sender of events.
pub record LeavesRequests {E : Type 0} (wire : Wire E) (sender : Option (StreamSender E))
    (requests : E → ℕ) : Type 0 where
  pub posts : (r : HttpRequest) (e : E) → requests (wire.post r e).1 ≡ requests e + 1
  pub sends :
      (send : StreamSender E) (event : String) (e : E)
      → sender ≡ some send
      → requests (send event e).1 ≡ requests e
  pub sleeps : (t : ℕ) (e : E) → requests (wire.sleep t e) ≡ requests e

module _ {E : Type 0} (wire : Wire E) (requests : E → ℕ) where
  pub stream-LeavesRequests :
      (sender : Option (StreamSender E))
      → LeavesRequests wire sender requests
      → (n : ℕ) → KeepsSender wire (λ e. requests e ≡ n) sender
  stream-LeavesRequests none l n = tt
  stream-LeavesRequests (some send) l n = record {
    sends = λ event e same. l.sends send event e refl ∙ same;
    sleeps = λ t e same. l.sleeps t e ∙ same;
  }

module _ {E : Type 0} (wire : Wire E) (formats : Formats) (sender : Option (StreamSender E))
    (requests : E → ℕ) (l : LeavesRequests wire sender requests) where
  pub stream_dummy-requests :
      (stream : Bool) (e : E) → requests (stream_dummy wire formats stream sender e).1 ≡ requests e
  stream_dummy-requests stream e =
      stream_dummy-IsSafe wire formats _ stream sender e
        (stream-LeavesRequests wire requests sender l (requests e)) refl

  module _ {F : Type 0} (codec : OpenaiJson F) (json : Json) where
    openai_after_request-requests :
        (model : String) (stream : Bool) (start : ℕ) (x : Result HttpResponse × E)
        → requests (openai_after_request wire formats codec json model stream sender start x).1
          ≡ requests x.1
    openai_after_request-requests model stream start x =
        openai_after_request-IsSafe wire formats _ codec json model stream sender start x
          (stream-LeavesRequests wire requests sender l (requests x.1)) refl

    post_body-requests :
        (url key : String) (body : Result String) (e : E)
        → requests (post_body wire formats codec json url key body e).1 ≤ requests e + 1
    post_body-requests url key (err m) e = omega arith
    post_body-requests url key (ok body) e =
        Option-split (λ (x : Result HttpResponse × E). requests x.1 ≤ requests e + 1)
          (wire.url_error url) (omega (arith, l.posts _ e)) (λ m. omega arith)

    pub call_openai-requests :
        (url : String) (info : Provider) (req : ChatCompletionRequest F) (stream : Bool) (e : E)
        → requests (call_openai wire formats codec json url info req stream sender e).1
          ≤ requests e + 1
    unfolding call_openai do_openai_request
    call_openai-requests url info req stream e =
        rw (openai_after_request-requests req.model stream (wire.now e) _)
          (post_body-requests url info.api_key _ e)

  module _ {F V : Type 0} (codec : AnthropicJson F V) (json : Json) where
    pub anthropic_after_request-requests :
        (model : String) (stream : Bool) (start : ℕ) (x : Result HttpResponse × E)
        → requests (anthropic_after_request wire formats codec json model stream sender start x).1
          ≡ requests x.1
    anthropic_after_request-requests model stream start x =
        anthropic_after_request-IsSafe wire formats _ codec json model stream sender start x
          (stream-LeavesRequests wire requests sender l (requests x.1)) refl
