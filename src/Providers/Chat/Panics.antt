-- ===== src/Providers/Chat/Panics.antt =====
-- When `Chat` does not panic: the Gemini client sets headers on the request that
-- `http.NewRequestWithContext` returns, which is nil for a URL that it refuses.
use Prim.Native.String.{◌++◌}
use router_x.Base.{
  ℕ, String, Bool, ◌≡◌, refl, ◌≢◌, Option, none, some, ok, err, Result, is_empty, leb, if-split,
  true, false, ◌⊎◌, inl, inr, Option-cases, Bool-cases,
}
use router_x.Models.{ChatCompletionRequest}
use router_x.Models.Content.{Json}
use router_x.Store.Types.{Provider}
use router_x.Router.Env.{Reply}
use router_x.Providers.Wire.{Wire, Formats, StreamSender, HttpResponse}
use router_x.Providers.Types.{Client, Kind, openai, anthropic, gemini, generic_openai}
use router_x.Providers.Gemini.Contents.{gemini_url}
use router_x.Providers.Gemini.Reply.{
  GeminiJson, make_request, after_retry, after_first, chat_gemini, wants_retry,
}
use router_x.Providers.Chat.{Codecs, chat, chat_real}

module _ {E : Type 0} (wire : Wire E) (formats : Formats) where
  -- There is a result.
  abbrev Returns : {A : Type 0} → Option A × E → Type 0
  Returns (o, e) = o ≢ none

  -- `http.NewRequestWithContext` accepts the URL of Gemini for a model.
  abbrev pub Accepts : String → Bool → String → Type 0
  Accepts key stream model = wire.url_error (gemini_url formats key stream model) ≡ none

  module _ {F V : Type 0} (codec : GeminiJson F V) (json : Json) (info : Provider)
      (req : ChatCompletionRequest F) (stream : Bool) where
    make_request-Returns :
        (model : String) (e : E)
        → Accepts info.api_key stream model
        → Returns (make_request wire formats codec json info.api_key req stream model e)
    unfolding make_request
    make_request-Returns model e accepts = rw (make_request, accepts) (λ x. cc)

    make_request-eq-none :
        (model : String) (e : E)
        → ¬ Accepts info.api_key stream model
        → (make_request wire formats codec json info.api_key req stream model e).0 ≡ none
    unfolding make_request
    make_request-eq-none model e refuses =
        elim (Option-cases (wire.url_error (gemini_url formats info.api_key stream model))) [
          | inl h ↦ absurd (refuses h)
          | inr (m, h) ↦ rw (make_request, h) refl
        ]

    after_retry-Returns :
        (model : String) (sender : Option (StreamSender E)) (start : ℕ)
        (x : Option (Result HttpResponse) × E)
        → Returns x
        → Returns (after_retry wire formats codec json model stream sender start x)
    after_retry-Returns model sender start (none, e) r = absurd (r refl)
    after_retry-Returns model sender start (some (err m), e) r = λ x. cc
    after_retry-Returns model sender start (some (ok resp), e) r =
        if-split (λ (y : Option Reply × E). Returns y) (leb 300 resp.status) (λ x. cc) (λ x. cc)

    after_first-Returns :
        (sender : Option (StreamSender E)) (start : ℕ) (x : Option (Result HttpResponse) × E)
        → Accepts info.api_key stream (req.model ++ "-latest")
        → Returns x
        → Returns (after_first wire formats codec json info req stream sender start x)
    after_first-Returns sender start (none, e) accepts r = absurd (r refl)
    after_first-Returns sender start (some (err m), e) accepts r = λ x. cc
    after_first-Returns sender start (some (ok resp), e) accepts r =
        let P = λ (y : Option Reply × E). Returns y in
        if-split P (leb 300 resp.status)
          (if-split P (wants_retry wire formats codec json req.model resp)
            (after_retry-Returns req.model sender start
              (make_request wire formats codec json info.api_key req stream (req.model ++ "-latest")
                e)
              (make_request-Returns (req.model ++ "-latest") e accepts))
            (λ x. cc))
          (λ x. cc)

    chat_gemini-Returns :
        (sender : Option (StreamSender E)) (e : E)
        → Accepts info.api_key stream req.model
        → Accepts info.api_key stream (req.model ++ "-latest")
        → Returns (chat_gemini wire formats codec json info req stream sender e)
    unfolding chat_gemini
    chat_gemini-Returns sender e accepts later =
        if-split (λ (y : Option Reply × E). Returns y) (is_empty info.api_key) (λ x. cc)
          (after_first-Returns sender (wire.now e)
            (make_request wire formats codec json info.api_key req stream req.model e) later
            (make_request-Returns req.model e accepts))

    after_first-eq-none :
        (sender : Option (StreamSender E)) (start : ℕ) (x : Option (Result HttpResponse) × E)
        → x.0 ≡ none
        → (after_first wire formats codec json info req stream sender start x).0 ≡ none
    after_first-eq-none sender start (none, e) h = refl
    after_first-eq-none sender start (some r, e) h = cc

    chat_gemini-eq-none :
        (sender : Option (StreamSender E)) (e : E)
        → is_empty info.api_key ≡ false
        → ¬ Accepts info.api_key stream req.model
        → (chat_gemini wire formats codec json info req stream sender e).0 ≡ none
    unfolding chat_gemini
    chat_gemini-eq-none sender e keyed refuses = rw keyed (
        after_first-eq-none sender (wire.now e)
          (make_request wire formats codec json info.api_key req stream req.model e)
          (make_request-eq-none req.model e refuses))

    -- One of the two URLs is refused, or there is a result.
    refused_or_returns :
        (sender : Option (StreamSender E)) (e : E)
        → (chat_gemini wire formats codec json info req stream sender e).0 ≡ none
        → (¬ Accepts info.api_key stream req.model)
          ⊎ (¬ Accepts info.api_key stream (req.model ++ "-latest"))
    refused_or_returns sender e h =
        elim (Option-cases (wire.url_error (gemini_url formats info.api_key stream req.model))) [
          | inr (m, r) ↦ inl (λ a. cc)
          | inl a ↦
              elim (Option-cases (
                wire.url_error (gemini_url formats info.api_key stream (req.model ++ "-latest")))) [
                  | inr (m, r) ↦ inr (λ b. cc)
                  | inl b ↦ absurd (chat_gemini-Returns sender e a b h)
                ]
        ]

    chat_gemini-keyed :
        (sender : Option (StreamSender E)) (e : E)
        → (chat_gemini wire formats codec json info req stream sender e).0 ≡ none
        → is_empty info.api_key ≡ false
    unfolding chat_gemini
    chat_gemini-keyed sender e h = elim (Bool-cases (is_empty info.api_key)) [
      | inr keyed ↦ keyed
      | inl bare ↦ cc (rw bare at h)
    ]

  module _ {F V : Type 0} (codecs : Codecs F V) (c : Client) (req : ChatCompletionRequest F)
      (stream : Bool) where
    -- A client of Gemini with real calls and a key.
    abbrev pub IsGemini : Type 0
    IsGemini = (c.enable_real ≡ true) × (c.kind ≡ gemini) × (is_empty c.info.api_key ≡ false)

    gemini_alone :
        (k : Kind) (sender : Option (StreamSender E)) (e : E)
        → (chat_real wire formats codecs (record c { kind = k }) req stream sender e).0 ≡ none
        → (k ≡ gemini)
          × ((chat_gemini wire formats codecs.gemini codecs.json c.info req stream sender e).0
              ≡ none)
    unfolding chat_real
    gemini_alone openai sender e h = cc
    gemini_alone generic_openai sender e h = cc
    gemini_alone anthropic sender e h = cc
    gemini_alone gemini sender e h = (refl, h)

    only_gemini_panics :
        (sender : Option (StreamSender E)) (e : E)
        → (chat wire formats codecs c req stream sender e).0 ≡ none
        → IsGemini
          × ((¬ Accepts c.info.api_key stream req.model)
              ⊎ (¬ Accepts c.info.api_key stream (req.model ++ "-latest")))
    unfolding chat
    only_gemini_panics sender e h = elim (Bool-cases c.enable_real) [
      | inr off ↦ cc (rw off at h)
      | inl on ↦
          let (k, n) = gemini_alone c.kind sender e (rw on at h) in
          (
            (on, k, chat_gemini-keyed codecs.gemini codecs.json c.info req stream sender e n),
            refused_or_returns codecs.gemini codecs.json c.info req stream sender e n,
          )
    ]

    gemini_panics :
        (sender : Option (StreamSender E)) (e : E)
        → IsGemini
        → ¬ Accepts c.info.api_key stream req.model
        → (chat wire formats codecs c req stream sender e).0 ≡ none
    unfolding chat chat_real
    gemini_panics sender e (on, k, keyed) refuses =
        rw (on, k)
          (chat_gemini-eq-none codecs.gemini codecs.json c.info req stream sender e keyed refuses)

    -- When `Chat` panics. It does only in a client of Gemini with real calls and a key, and only where
    -- `http.NewRequestWithContext` refuses its URL for the model that is asked or for that model with
    -- "-latest". It does whenever the first of these URLs is refused.
    pub chat_panics :
        (sender : Option (StreamSender E)) (e : E)
        → ((chat wire formats codecs c req stream sender e).0 ≡ none
            → IsGemini
              × ((¬ Accepts c.info.api_key stream req.model)
                  ⊎ (¬ Accepts c.info.api_key stream (req.model ++ "-latest"))))
          × (IsGemini
              → ¬ Accepts c.info.api_key stream req.model
              → (chat wire formats codecs c req stream sender e).0 ≡ none)
    chat_panics sender e = (only_gemini_panics sender e, gemini_panics sender e)
