-- ===== src/Api/Embeddings/Answers.antt =====
-- The answers of the loop of `Embeddings` over the providers.
use mathlib.Core.Path.{subst}
use router_x.Base.{
  String, true, false, ◌≡◌, refl, sym, Option, none, some, List, [], ◌∷◌, Result, ok, err, In, inl,
  inr, arith, is_empty, Bool-cases, Option-cases, Result-cases,
}
use router_x.Store.Types.{Provider}
use router_x.Providers.Wire.{Wire, Formats, HttpResponse}
use router_x.Api.Embeddings.{
  EmbeddingsAnswer, forwarded, is_success, embeddings_url, embeddings_request, try_embeddings,
}

module _ {E : Type 0} (wire : Wire E) (formats : Formats) (type body : String) where
  -- One of the providers has a key, was asked with it, and answered with this text.
  pub record IsAnswer (ps : List Provider) (text : String) (last : E) : Type 0 where
    pub provider : Provider
    pub listed : In provider ps
    pub keyed : is_empty provider.api_key ≡ false
    pub reached : E
    pub resp : HttpResponse
    pub answered :
        wire.post (embeddings_request wire formats type body provider) reached ≡ (ok resp, last)
    pub success : is_success resp ≡ true
    pub same : resp.body ≡ text

  IsAnswer-cons :
      (p : Provider) (ps : List Provider) (text : String) (last : E)
      → IsAnswer ps text last
      → IsAnswer (p ∷ ps) text last
  IsAnswer-cons p ps text last a = record {
    provider = a.provider;
    listed = inr a.listed;
    keyed = a.keyed;
    reached = a.reached;
    resp = a.resp;
    answered = a.answered;
    success = a.success;
    same = a.same;
  }

  abbrev asked : Provider → E → Result HttpResponse × E
  asked p e = wire.post (embeddings_request wire formats type body p) e

  module _ (p : Provider) (ps : List Provider) (last : Option String) (e : E) where
    skip_keyless :
        is_empty p.api_key ≡ true
        → try_embeddings wire formats type body (p ∷ ps) last e
          ≡ try_embeddings wire formats type body ps last e
    unfolding try_embeddings
    skip_keyless k = ground arith

    stop_nil :
        (m : String)
        → is_empty p.api_key ≡ false
        → wire.url_error (embeddings_url wire formats type p) ≡ some m
        → try_embeddings wire formats type body (p ∷ ps) last e ≡ (none, e)
    unfolding try_embeddings
    stop_nil m k u = ground arith

    next_error :
        (m : String)
        → is_empty p.api_key ≡ false
        → wire.url_error (embeddings_url wire formats type p) ≡ none
        → (asked p e).0 ≡ err m
        → try_embeddings wire formats type body (p ∷ ps) last e
          ≡ try_embeddings wire formats type body ps (some m) (asked p e).1
    unfolding try_embeddings
    next_error m k u r = ground arith

    next_failure :
        (resp : HttpResponse)
        → is_empty p.api_key ≡ false
        → wire.url_error (embeddings_url wire formats type p) ≡ none
        → (asked p e).0 ≡ ok resp
        → is_success resp ≡ false
        → try_embeddings wire formats type body (p ∷ ps) last e
          ≡ try_embeddings wire formats type body ps (some resp.body) (asked p e).1
    unfolding try_embeddings
    next_failure resp k u r bad = ground arith

    stop_success :
        (resp : HttpResponse)
        → is_empty p.api_key ≡ false
        → wire.url_error (embeddings_url wire formats type p) ≡ none
        → (asked p e).0 ≡ ok resp
        → is_success resp ≡ true
        → try_embeddings wire formats type body (p ∷ ps) last e
          ≡ (some (forwarded resp.body), (asked p e).1)
    unfolding try_embeddings
    stop_success resp k u r good = ground arith

  abbrev Good : List Provider → String → Option EmbeddingsAnswer × E → Type 0
  Good ps text r = r.0 ≡ some (forwarded text) → IsAnswer ps text r.1

  no_providers :
      (last : Option String) (e : E) (text : String)
      → Good [] text (try_embeddings wire formats type body [] last e)
  unfolding try_embeddings
  no_providers none e text h = cc
  no_providers (some m) e text h = cc

  first_answers :
      (p : Provider) (ps : List Provider) (e : E) (text : String) (resp : HttpResponse)
      → is_empty p.api_key ≡ false
      → (asked p e).0 ≡ ok resp
      → is_success resp ≡ true
      → Good (p ∷ ps) text (some (forwarded resp.body), (asked p e).1)
  first_answers p ps e text resp k r good h = record {
    provider = p;
    listed = inl refl;
    keyed = k;
    reached = e;
    resp = resp;
    answered = λ i. (r i, (asked p e).1);
    success = good;
    same = cc (h);
  }

  pub try_embeddings-IsAnswer :
      (ps : List Provider) (last : Option String) (e : E) (text : String)
      → Good ps text (try_embeddings wire formats type body ps last e)
  try_embeddings-IsAnswer [] last e text = no_providers last e text
  try_embeddings-IsAnswer (p ∷ ps) last e text =
      let G = Good (p ∷ ps) text in
      let later =
        λ (last' : Option String) (e' : E)
            (h : (try_embeddings wire formats type body ps last' e').0 ≡ some (forwarded text)).
          IsAnswer-cons p ps text _ (try_embeddings-IsAnswer ps last' e' text h) in
      elim (Bool-cases (is_empty p.api_key)) [
        | inl k ↦ subst G (sym (skip_keyless p ps last e k)) (later last e)
        | inr k ↦ elim (Option-cases (wire.url_error (embeddings_url wire formats type p))) [
          | inr (m, u) ↦ subst G (sym (stop_nil p ps last e m k u)) (λ h. cc)
          | inl u ↦ elim (Result-cases (asked p e).0) [
            | inr (m, r) ↦
                subst G (sym (next_error p ps last e m k u r)) (later (some m) (asked p e).1)
            | inl (resp, r) ↦ elim (Bool-cases (is_success resp)) [
              | inl good ↦
                  subst G (sym (stop_success p ps last e resp k u r good))
                    (first_answers p ps e text resp k r good)
              | inr bad ↦
                  subst G (sym (next_failure p ps last e resp k u r bad))
                    (later (some resp.body) (asked p e).1)
            ]
          ]
        ]
      ]
