-- ===== src/Api/Embeddings/Free.antt =====
-- What an embedding that is answered comes from, and what it costs.
use router_x.Base.Float.{Float64}
use router_x.Base.{
  String, ◌≡◌, refl, ◌∙◌, Option, none, some, List, [], ◌∷◌, Result, ok, err, if-split, map,
  filterb,
}
use router_x.Store.Queries.{query_row-eq-ok, query_row-tables}
use router_x.Store.Types.{Provider}
use router_x.Store.Db.{Tables, Db}
use router_x.Store.Providers.{get_model_provider, get_enabled_providers_by_type, loaded, is_offered}
use router_x.Providers.Wire.{Wire, Formats}
use router_x.Api.Embeddings.{
  EmbeddingsHttp, forwarded, Served, find_providers, ask_providers, read_model, read_body,
  or_openai, embeddings,
}
use router_x.Api.Embeddings.Answers.{IsAnswer, try_embeddings-IsAnswer}

module _ {F E : Type 0} ⦃fl : Float64 F⦄ (wire : Wire E) (formats : Formats)
    (parse_model : String → Option String) where
  -- The providers of a type that the tables list as enabled.
  abbrev rows_of : String → Tables F → List Provider
  rows_of type tables = map loaded (filterb (is_offered type) tables.providers)

  -- What is known of a request that is answered, by the body that was given and the database at the start:
  -- the tables are as before, and the answer is that of an enabled provider in them, of the type that
  -- the catalog has for the model of the body.
  pub record IsServed (given : Option String) (before : Db F) (text : String) (s : Served F E)
      : Type 0 where
    pub free : s.db.tables ≡ before.tables
    pub body : String
    pub asked : given ≡ some body
    pub model : String
    pub parsed : parse_model body ≡ some model
    pub answer :
        let type = or_openai (get_model_provider model before).0 in
        IsAnswer wire formats type body (rows_of type before.tables) text s.env

  abbrev Found : Tables F → String → String → String → Served F E → Type 0
  Found before type body text s =
      s.answer ≡ some (forwarded text)
      → (s.db.tables ≡ before) × IsAnswer wire formats type body (rows_of type before) text s.env

  ask_providers-Found :
      (before : Tables F) (text type body : String) (x : Result (List Provider) × Db F) (e : E)
      → ((ps : List Provider) → x.0 ≡ ok ps → rows_of type before ≡ ps)
      → x.1.tables ≡ before
      → Found before type body text (ask_providers wire formats parse_model type body x e)
  ask_providers-Found before text type body (err m, db) e found free h = cc
  ask_providers-Found before text type body (ok [], db) e found free h = cc
  ask_providers-Found before text type body (ok (p ∷ ps), db) e found free h = (
    free,
    rw (found (p ∷ ps) refl)
        (try_embeddings-IsAnswer wire formats type body (p ∷ ps) none e text h),
  )

  listed_rows :
      (type : String) (db : Db F) (ps : List Provider)
      → (get_enabled_providers_by_type type db).0 ≡ ok ps
      → rows_of type db.tables ≡ ps
  unfolding get_enabled_providers_by_type
  listed_rows type db ps h =
      let e : some (rows_of type db.tables) ≡ some ps =
        query_row-eq-ok (λ (tb : Tables F). some (rows_of type tb)) db ps h in
      cc

  find_providers-Found :
      (before : Tables F) (text body : String) (x : Result String × Db F) (e : E)
      → x.1.tables ≡ before
      → Found before (or_openai x.0) body text (find_providers wire formats parse_model body x e)
  unfolding get_enabled_providers_by_type
  find_providers-Found before text body x e free =
      ask_providers-Found before text (or_openai x.0) body
        (get_enabled_providers_by_type (or_openai x.0) x.1) e
        (λ ps h. rw (← free) (listed_rows (or_openai x.0) x.1 ps h)) (query_row-tables _ x.1 ∙ free)

  get_model_provider-tables :
      (model : String) (db : Db F) → (get_model_provider model db).1.tables ≡ db.tables
  unfolding get_model_provider
  get_model_provider-tables model db = query_row-tables _ db

  abbrev Q : Option String → Db F → String → Served F E → Type 0
  Q given before text s = s.answer ≡ some (forwarded text) → IsServed given before text s

  read_model-IsServed :
      (parsed : Option String) (body : String) (db : Db F) (e : E) (text : String)
      → parse_model body ≡ parsed
      → Q (some body) db text (read_model wire formats parse_model body parsed db e)
  read_model-IsServed none body db e text parsed h = cc
  read_model-IsServed (some model) body db e text parsed h =
      let (free, answer) =
        find_providers-Found db.tables text body (get_model_provider model db) e
          (get_model_provider-tables model db) h in
      record {
        free = free;
        body = body;
        asked = refl;
        model = model;
        parsed = parsed;
        answer = answer;
      }

  read_body-IsServed :
      (given : Option String) (db : Db F) (e : E) (text : String)
      → Q given db text (read_body wire formats parse_model given db e)
  read_body-IsServed none db e text = λ h. cc
  read_body-IsServed (some body) db e text =
      read_model-IsServed (parse_model body) body db e text refl

  -- Embeddings that are answered are not charged: the tables stay as they are. The answer is that of a
  -- provider that these tables list as enabled, of the type that the catalog has for the model of the
  -- request ("openai" if it has none). It has a key, and it answered with success to the last request that
  -- was sent.
  pub embeddings_answered :
      (http : EmbeddingsHttp F) (db : Db F) (e : E) (text : String)
      → (embeddings wire formats parse_model http db e).answer ≡ some (forwarded text)
      → IsServed http.body db text (embeddings wire formats parse_model http db e)
  unfolding embeddings
  embeddings_answered http db e text =
      elim http.tenant
        as (λ tenant.
          Q http.body db text
            (embeddings wire formats parse_model (record http { tenant = tenant }) db e)) [
              | none ↦ λ h. cc
              | some t ↦
                  if-split (Q http.body db text) t.suspended (λ h. cc)
                    (if-split (Q http.body db text) (fl.le t.balance_usd fl.zero_f) (λ h. cc)
                      (read_body-IsServed http.body db e text))
            ]
