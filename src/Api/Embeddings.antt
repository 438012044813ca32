-- ===== src/Api/Embeddings.antt =====
-- `Embeddings` of backend/internal/api/handlers.go.
pub mod Answers
pub mod Free
use Prim.Native.String.{◌++◌}
use router_x.Base.Float.{Float64}
use router_x.Base.{
  ℕ, String, Bool, true, false, ◌&&◌, not, Option, none, some, List, [], ◌∷◌, Result, ok, err,
  str_eq, is_empty, leb, if◌then◌else◌,
}
use router_x.Store.Types.{Tenant, Provider}
use router_x.Store.Db.{Db}
use router_x.Store.Providers.{get_model_provider, get_enabled_providers_by_type}
use router_x.Providers.Wire.{Wire, Formats, HttpRequest, HttpResponse}

-- The tenant that the middleware put into the context, and the body, unless reading it fails.
pub record EmbeddingsHttp (F : Type 0) : Type 0 where
  pub tenant : Option (Tenant F)
  pub body : Option String

pub data EmbeddingsAnswer : Type 0 where
  rejected : ℕ → String → EmbeddingsAnswer
  -- `writeError` with the last error
  failed : String → EmbeddingsAnswer
  -- The body of the provider's answer
  forwarded : String → EmbeddingsAnswer

abbrev pub is_success : HttpResponse → Bool
is_success resp = not (leb 300 resp.status)

module _ {E : Type 0} (wire : Wire E) (formats : Formats) where
  abbrev pub embeddings_url : String → Provider → String
  embeddings_url type p =
      if str_eq type "generic-openai" && not (is_empty p.base_url)
      then formats.trim_slashes p.base_url ++ "/v1/embeddings"
      else "https://api.openai.com/v1/embeddings"

  abbrev pub embeddings_request : String → String → Provider → HttpRequest
  embeddings_request type body p = record {
    url = embeddings_url type p;
    headers = ("Content-Type", "application/json") ∷ ("Authorization", "Bearer " ++ p.api_key) ∷ [];
    body = body;
  }

  abbrev pub no_success : Option String → EmbeddingsAnswer
  no_success none = rejected 502 "no provider with API key for embeddings"
  no_success (some m) = failed ("embeddings failed: " ++ m)

  -- The loop over the providers, with `lastErr`. A URL that `NewRequestWithContext` refuses leaves a nil
  -- request, and setting a header on it panics: `none`.
  unfoldable pub try_embeddings :
      String → String → List Provider → Option String → E → Option EmbeddingsAnswer × E
  try_embeddings type body [] last e = (some (no_success last), e)
  try_embeddings type body (p ∷ ps) last e = elim (is_empty p.api_key) [
    | true ↦ try_embeddings type body ps last e
    | false ↦ elim (wire.url_error (embeddings_url type p)) [
      | some m ↦ (none, e)
      | none ↦
          let sent = wire.post (embeddings_request type body p) e in
          elim sent.0 [
            | err m ↦ try_embeddings type body ps (some m) sent.1
            | ok resp ↦ elim (is_success resp) [
              | true ↦ (some (forwarded resp.body), sent.1)
              | false ↦ try_embeddings type body ps (some resp.body) sent.1
            ]
          ]
    ]
  ]

abbrev or_openai : Result String → String
or_openai (err e) = "openai"
or_openai (ok type) = if is_empty type then "openai" else type

-- What the handler leaves: its answer, the database and the rest of the surroundings.
pub record Served (F E : Type 0) : Type 0 where
  pub answer : Option EmbeddingsAnswer
  pub db : Db F
  pub env : E

module _ {F E : Type 0} ⦃fl : Float64 F⦄ (wire : Wire E) (formats : Formats)
    (parse_model : String → Option String) where
  abbrev declined : ℕ → String → Db F → E → Served F E
  declined status text db e = record { answer = some (rejected status text); db = db; env = e }

  abbrev pub ask_providers : String → String → Result (List Provider) × Db F → E → Served F E
  ask_providers type body (err m, db) e = declined 502 "no provider available for embeddings" db e
  ask_providers type body (ok [], db) e = declined 502 "no provider available for embeddings" db e
  ask_providers type body (ok (p ∷ ps), db) e =
      let (answer, e') = try_embeddings wire formats type body (p ∷ ps) none e in
      record { answer = answer; db = db; env = e' }

  abbrev pub find_providers : String → Result String × Db F → E → Served F E
  find_providers body (found, db) e =
      ask_providers (or_openai found) body (get_enabled_providers_by_type (or_openai found) db) e

  abbrev pub read_model : String → Option String → Db F → E → Served F E
  read_model body none db e = declined 400 "invalid json" db e
  read_model body (some model) db e = find_providers body (get_model_provider model db) e

  abbrev pub read_body : Option String → Db F → E → Served F E
  read_body none db e = declined 400 "failed to read body" db e
  read_body (some body) db e = read_model body (parse_model body) db e

  -- `Embeddings`
  unfoldable pub embeddings : EmbeddingsHttp F → Db F → E → Served F E
  unfolding try_embeddings
  embeddings http db e = elim http.tenant [
    | none ↦ declined 401 "missing tenant" db e
    | some t ↦
        if t.suspended
        then declined 403 "account suspended" db e
        else if fl.le t.balance_usd fl.zero_f
        then declined 402 "insufficient balance" db e
        else read_body http.body db e
  ]
