-- ===== src/Providers/Chat/Addressed.antt =====
-- Where the clients send a provider's key.
use Prim.Native.String.{◌++◌}
use mathlib.Core.Path.{subst}
use router_x.Base.{
  ℕ, sym, String, Bool, true, false, ◌≡◌, refl, Option, none, some, List, [], ◌∷◌, Result, ok, err,
  Bool-cases, if-split, Option-split, inl, inr, is_empty, leb,
}
use router_x.Models.{ChatCompletionRequest}
use router_x.Models.Content.{Json}
use router_x.Store.Types.{Provider}
use router_x.Router.Env.{Reply}
use router_x.Providers.Wire.{Wire, Formats, HttpRequest, HttpResponse, StreamSender}
use router_x.Providers.Types.{Client, Kind, openai, anthropic, gemini, generic_openai, chat_dummy}
use router_x.Providers.Openai.{
  OpenaiJson, chat_openai, chat_generic, call_openai, do_openai_request, post_body,
}
use router_x.Providers.Anthropic.Reply.{chat_anthropic, anthropic_request}
use router_x.Providers.Gemini.Contents.{gemini_url}
use router_x.Providers.Gemini.Reply.{
  GeminiJson, make_request, after_first, chat_gemini, wants_retry,
}
use router_x.Providers.Chat.{Codecs, chat, chat_real}
use router_x.Providers.Chat.Calls.{
  KeepsSender, stream_dummy-IsSafe, openai_after_request-IsSafe, anthropic_after_request-IsSafe,
}
use router_x.Providers.Chat.Retries.{after_retry-IsSafe, gemini_answer-IsSafe}

-- The URL that a client asks; Gemini's names the model and whether to stream.
abbrev pub endpoint : Formats → Kind → Provider → Bool → String → String
endpoint formats openai info stream model = "https://api.openai.com/v1/chat/completions"
endpoint formats anthropic info stream model = "https://api.anthropic.com/v1/messages"
endpoint formats gemini info stream model = gemini_url formats info.api_key stream model
endpoint formats generic_openai info stream model =
    formats.trim_slashes info.base_url ++ "/v1/chat/completions"

-- The headers that carry the key.
abbrev pub key_headers : Kind → String → List (String × String)
key_headers anthropic key = ("x-api-key", key) ∷ ("anthropic-version", "2023-06-01") ∷ []
key_headers gemini key = ("x-goog-api-key", key) ∷ []
key_headers _ key = ("Authorization", "Bearer " ++ key) ∷ []

-- A request to the endpoint of the provider's own client, with the provider's own key, which is given.
pub record IsAddressed (formats : Formats) (k : Kind) (info : Provider) (r : HttpRequest)
    : Type 0 where
  pub keyed : is_empty info.api_key ≡ false
  pub stream : Bool
  pub model : String
  pub to : r.url ≡ endpoint formats k info stream model
  pub carries : r.headers ≡ ("Content-Type", "application/json") ∷ key_headers k info.api_key

module _ {E : Type 0} (wire : Wire E) (formats : Formats) (Safe : E → Type 0) where
  -- Posts for one provider keep the property.
  abbrev pub KeepsPosts : Kind → Provider → Type 0
  KeepsPosts k info =
      (r : HttpRequest) (e : E) → IsAddressed formats k info r → Safe e → Safe (wire.post r e).1

  module _ {F : Type 0} (codec : OpenaiJson F) (json : Json) where
    post_body-IsSafe :
        (k : Kind) (url : String) (info : Provider) (body : Result String) (e : E)
        → is_empty info.api_key ≡ false
        → key_headers k info.api_key ≡ ("Authorization", "Bearer " ++ info.api_key) ∷ []
        → endpoint formats k info true "" ≡ url
        → KeepsPosts k info
        → Safe e
        → Safe (post_body wire formats codec json url info.api_key body e).1
    post_body-IsSafe k url info (err m) e keyed hs at posts s = s
    post_body-IsSafe k url info (ok body) e keyed hs at posts s =
        Option-split (λ (x : Result HttpResponse × E). Safe x.1) (wire.url_error url)
          (posts _ e
            (record {
              keyed = keyed;
              stream = true;
              model = "";
              to = sym at;
              carries = rw (keyed, hs) refl;
            })
            s)
          (λ m. s)

    call_openai-IsSafe :
        (k : Kind) (url : String) (info : Provider) (req : ChatCompletionRequest F) (stream : Bool)
        (sender : Option (StreamSender E)) (e : E)
        → is_empty info.api_key ≡ false
        → key_headers k info.api_key ≡ ("Authorization", "Bearer " ++ info.api_key) ∷ []
        → endpoint formats k info true "" ≡ url
        → KeepsSender wire Safe sender
        → KeepsPosts k info
        → Safe e
        → Safe (call_openai wire formats codec json url info req stream sender e).1
    unfolding call_openai do_openai_request
    call_openai-IsSafe k url info req stream sender e keyed hs at sends posts s =
        openai_after_request-IsSafe wire formats Safe codec json req.model stream sender
          (wire.now e) _ sends (post_body-IsSafe k url info _ e keyed hs at posts s)

  module _ {F V : Type 0} (codec : GeminiJson F V) (json : Json) where
    make_request-IsSafe :
        (info : Provider) (req : ChatCompletionRequest F) (stream : Bool) (model : String) (e : E)
        → is_empty info.api_key ≡ false
        → KeepsPosts gemini info
        → Safe e
        → Safe (make_request wire formats codec json info.api_key req stream model e).1
    unfolding make_request
    make_request-IsSafe info req stream model e keyed posts s =
        Option-split (λ (x : Option (Result HttpResponse) × E). Safe x.1)
          (wire.url_error (gemini_url formats info.api_key stream model))
          (posts _ e
            (record {
              keyed = keyed;
              stream = stream;
              model = model;
              to = refl;
              carries = rw keyed refl;
            })
            s)
          (λ m. s)

    after_first-IsSafe :
        (info : Provider) (req : ChatCompletionRequest F) (stream : Bool)
        (sender : Option (StreamSender E)) (start : ℕ) (x : Option (Result HttpResponse) × E)
        → is_empty info.api_key ≡ false
        → KeepsSender wire Safe sender
        → KeepsPosts gemini info
        → Safe x.1
        → Safe (after_first wire formats codec json info req stream sender start x).1
    after_first-IsSafe info req stream sender start (none, e) keyed sends posts s = s
    after_first-IsSafe info req stream sender start (some (err m), e) keyed sends posts s = s
    after_first-IsSafe info req stream sender start (some (ok resp), e) keyed sends posts s =
        let P = λ (r : Option Reply × E). Safe r.1 in
        if-split P (leb 300 resp.status)
          (if-split P (wants_retry wire formats codec json req.model resp)
            (after_retry-IsSafe wire formats Safe codec json req.model stream sender start
              (make_request wire formats codec json info.api_key req stream (req.model ++ "-latest")
                e)
              sends (make_request-IsSafe info req stream (req.model ++ "-latest") e keyed posts s))
            s)
          (gemini_answer-IsSafe wire formats Safe codec json req.model stream sender start resp e
            sends s)

  module _ {F V : Type 0} (codecs : Codecs F V) where
    -- With a key, and one of the four clients.
    keyed-IsSafe :
        (k : Kind) (c : Client) (req : ChatCompletionRequest F) (stream : Bool)
        (sender : Option (StreamSender E)) (e : E)
        → is_empty c.info.api_key ≡ false
        → KeepsSender wire Safe sender
        → KeepsPosts k c.info
        → Safe e
        → Safe (chat_real wire formats codecs (record c { kind = k }) req stream sender e).1
    unfolding chat_real chat_openai chat_generic chat_anthropic chat_gemini
    keyed-IsSafe openai c req stream sender e keyed sends posts s = rw keyed (
        call_openai-IsSafe codecs.openai codecs.json openai _ c.info req stream sender e keyed refl
          refl sends posts s)
    keyed-IsSafe generic_openai c req stream sender e keyed sends posts s = rw keyed (
        if-split (λ (r : Reply × E). Safe r.1) (is_empty c.info.base_url) s
          (call_openai-IsSafe codecs.openai codecs.json generic_openai _ c.info req stream sender e
            keyed refl refl sends posts s))
    keyed-IsSafe anthropic c req stream sender e keyed sends posts s = rw keyed (
        anthropic_after_request-IsSafe wire formats Safe codecs.anthropic codecs.json req.model
          stream sender (wire.now e) _ sends
          (posts (anthropic_request wire formats codecs.anthropic codecs.json c.info req stream) e
            (record { keyed = keyed; stream = stream; model = ""; to = refl; carries = refl }) s))
    keyed-IsSafe gemini c req stream sender e keyed sends posts s = rw keyed (
        after_first-IsSafe codecs.gemini codecs.json c.info req stream sender (wire.now e)
          (make_request wire formats codecs.gemini codecs.json c.info.api_key req stream req.model
            e)
          keyed sends posts
          (make_request-IsSafe codecs.gemini codecs.json c.info req stream req.model e keyed posts
            s))

    -- Without one, no client changes the surroundings.
    chat_real-eq_of_no_key :
        (k : Kind) (c : Client) (req : ChatCompletionRequest F) (stream : Bool)
        (sender : Option (StreamSender E)) (e : E)
        → is_empty c.info.api_key ≡ true
        → (chat_real wire formats codecs (record c { kind = k }) req stream sender e).1 ≡ e
    unfolding chat_real chat_openai chat_generic chat_anthropic chat_gemini
    chat_real-eq_of_no_key openai c req stream sender e h = rw h refl
    chat_real-eq_of_no_key generic_openai c req stream sender e h = rw h refl
    chat_real-eq_of_no_key anthropic c req stream sender e h = rw h refl
    chat_real-eq_of_no_key gemini c req stream sender e h = rw h refl

    chat_real-IsSafe :
        (c : Client) (req : ChatCompletionRequest F) (stream : Bool)
        (sender : Option (StreamSender E)) (e : E)
        → KeepsSender wire Safe sender
        → KeepsPosts c.kind c.info
        → Safe e
        → Safe (chat_real wire formats codecs c req stream sender e).1
    chat_real-IsSafe c req stream sender e sends posts s =
        elim (Bool-cases (is_empty c.info.api_key)) [
          | inr keyed ↦ keyed-IsSafe c.kind c req stream sender e keyed sends posts s
          | inl bare ↦ subst Safe (sym (chat_real-eq_of_no_key c.kind c req stream sender e bare)) s
        ]

    -- A `Chat` with real calls enabled posts nowhere but to the endpoint of the provider's own client,
    -- with the provider's own key, which is not empty: each property of the surroundings that such posts,
    -- the sender of events and the clock keep holds after `Chat` if it held before, on every branch.
    -- Without real calls it posts nothing.
    pub chat-IsSafe :
        (c : Client) (req : ChatCompletionRequest F) (stream : Bool)
        (sender : Option (StreamSender E)) (e : E)
        → KeepsSender wire Safe sender
        → (c.enable_real ≡ true → KeepsPosts c.kind c.info)
        → Safe e
        → Safe (chat wire formats codecs c req stream sender e).1
    unfolding chat chat_dummy
    chat-IsSafe c req stream sender e sends posts s =
        elim c.enable_real
            as (λ real.
              (real ≡ true → KeepsPosts c.kind c.info)
              → Safe
                  (chat wire formats codecs (record c { enable_real = real }) req stream sender
                    e).1) [
                      | true ↦ λ posts'.
                          chat_real-IsSafe (record c { enable_real = true }) req stream sender e
                            sends (posts' refl) s
                      | false ↦
                          λ posts'. stream_dummy-IsSafe wire formats Safe stream sender e sends s
                    ]
          posts
