-- ===== src/Providers/Chat/Requests.antt =====
-- How many HTTP requests one `Chat` sends.
use router_x.Base.{if-split, ℕ, ◌+◌, ◌≤◌, Bool, true, false, Option, arith, if◌then◌else◌, is_empty}
use router_x.Models.{ChatCompletionRequest}
use router_x.Router.Env.{Reply}
use router_x.Providers.Wire.{Wire, Formats, StreamSender}
use router_x.Providers.Types.{Client, Kind, openai, anthropic, gemini, generic_openai, chat_dummy}
use router_x.Providers.Openai.{chat_openai, chat_generic}
use router_x.Providers.Anthropic.Reply.{chat_anthropic, anthropic_request}
use router_x.Providers.Chat.{Codecs, chat, chat_real}
use router_x.Providers.Chat.Calls.{
  LeavesRequests, stream_dummy-requests, call_openai-requests, anthropic_after_request-requests,
}
use router_x.Providers.Chat.Retries.{chat_gemini-requests}

-- The requests that a client may need: Gemini asks again for the `-latest` version of a model.
abbrev pub request_limit : Kind → ℕ
request_limit gemini = 2
request_limit _ = 1

module _ {F V E : Type 0} (wire : Wire E) (formats : Formats) (sender : Option (StreamSender E))
    (requests : E → ℕ) (l : LeavesRequests wire sender requests) (codecs : Codecs F V) where
  chat_real-requests :
      (k : Kind) (c : Client) (req : ChatCompletionRequest F) (stream : Bool) (e : E)
      → requests (chat_real wire formats codecs (record c { kind = k }) req stream sender e).1
        ≤ requests e + request_limit k
  unfolding chat_real chat_openai chat_generic chat_anthropic
  chat_real-requests openai c req stream e =
      if-split (λ (r : Reply × E). requests r.1 ≤ requests e + 1) (is_empty c.info.api_key)
        (omega arith)
        (call_openai-requests wire formats sender requests l codecs.openai codecs.json _ c.info req
          stream e)
  chat_real-requests generic_openai c req stream e =
      let P = λ (r : Reply × E). requests r.1 ≤ requests e + 1 in
      if-split P (is_empty c.info.api_key) (omega arith) (
        if-split P (is_empty c.info.base_url) (omega arith) (
          call_openai-requests wire formats sender requests l codecs.openai codecs.json _ c.info req
            stream e))
  chat_real-requests anthropic c req stream e =
      let sent = anthropic_request wire formats codecs.anthropic codecs.json c.info req stream in
      if-split (λ (r : Reply × E). requests r.1 ≤ requests e + 1) (is_empty c.info.api_key)
        (omega arith)
        (omega (
          arith,
          anthropic_after_request-requests wire formats sender requests l codecs.anthropic
              codecs.json req.model stream (wire.now e) (wire.post sent e),
          l.posts sent e,
        ))
  chat_real-requests gemini c req stream e =
      chat_gemini-requests wire formats sender requests l codecs.gemini codecs.json c.info req
        stream e

  -- One `Chat` of a client sends at most one HTTP request, and at most two if it is a Gemini client;
  -- it sends none when real calls are not enabled. It may be a stream or not, and come with a sender of
  -- events or without. The condition is that only a post counts as a request: the sender of events, if
  -- there is one, and the clock leave the count alone.
  pub chat-requests :
      (c : Client) (req : ChatCompletionRequest F) (stream : Bool) (e : E)
      → requests (chat wire formats codecs c req stream sender e).1
        ≤ requests e + (if c.enable_real then request_limit c.kind else 0)
  unfolding chat chat_real chat_dummy chat_openai chat_generic chat_anthropic
  chat-requests c req stream e =
      elim c.enable_real
        as (λ real.
          requests
            (chat wire formats codecs (record c { enable_real = real }) req stream sender e).1
          ≤ requests e + (if real then request_limit c.kind else 0)) [
            | true ↦ chat_real-requests c.kind (record c { enable_real = true }) req stream e
            | false ↦ omega (arith, stream_dummy-requests wire formats sender requests l stream e)
          ]
