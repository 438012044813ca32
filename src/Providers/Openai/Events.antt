-- ===== src/Providers/Openai/Events.antt =====
-- What `handleOpenAIStream` forwards and collects.
use mathlib.Core.List.{append_assoc, append-nil}
use router_x.Base.Int.{ℤ}
use router_x.Base.{
  String, true, false, ◌≡◌, refl, sym, ap, ◌∙◌, none, some, List, [], ◌∷◌, ◌++◌, str_eq, arith,
  eq_iff, if◌then◌else◌, Bool-cases, Option-cases, inl, inr,
}
use router_x.Providers.Wire.{Formats, StreamSender}
use router_x.Providers.Stream.{Progress, finished, broken, event_of}
use router_x.Providers.Openai.{OpenaiJson, read_chunk, read_events}

-- The events of the lines, in their order.
unfoldable pub events : Formats → List String → List String
events formats [] = []
events formats (line ∷ rest) = elim (event_of formats line) [
  | none ↦ events formats rest
  | some event ↦ event ∷ events formats rest
]

-- Up to the end mark, with it and without it.
unfoldable pub until_done : List String → List String
until_done [] = []
until_done (x ∷ xs) = if str_eq x "[DONE]" then x ∷ [] else x ∷ until_done xs

unfoldable pub before_done : List String → List String
before_done [] = []
before_done (x ∷ xs) = if str_eq x "[DONE]" then [] else x ∷ before_done xs

-- A client that takes every event, and keeps them.
pub record Keeps {E : Type 0} (send : StreamSender E) (sent : E → List String) : Type 0 where
  pub accepts : (event : String) (e : E) → (send event e).0 ≡ none
  pub keeps : (event : String) (e : E) → sent (send event e).1 ≡ sent e ++ event ∷ []

module _ {F : Type 0} (codec : OpenaiJson F) where
  unfoldable pub collect : Progress → List String → Progress
  collect p [] = p
  collect p (x ∷ xs) = collect (read_chunk p (codec.decode_chunk x)) xs

events_skip :
    (formats : Formats) (line : String) (rest : List String)
    → event_of formats line ≡ none
    → events formats (line ∷ rest) ≡ events formats rest
unfolding events
events_skip formats line rest q = ground arith

events_take :
    (formats : Formats) (line : String) (rest : List String) (x : String)
    → event_of formats line ≡ some x
    → events formats (line ∷ rest) ≡ x ∷ events formats rest
unfolding events
events_take formats line rest x q = ground arith

module _ {F E : Type 0} (formats : Formats) (codec : OpenaiJson F) (send : StreamSender E)
    (line : String) (rest : List String) (p : Progress) (e : E) where
  read_skip :
      event_of formats line ≡ none
      → read_events formats codec send (line ∷ rest) p e ≡ read_events formats codec send rest p e
  unfolding read_events
  read_skip q = ground arith

  read_done :
      (x : String)
      → event_of formats line ≡ some x
      → str_eq x "[DONE]" ≡ true
      → read_events formats codec send (line ∷ rest) p e ≡ (finished p, (send "[DONE]" e).1)
  unfolding read_events
  read_done x q d = ground arith

  read_next :
      (x : String)
      → event_of formats line ≡ some x
      → str_eq x "[DONE]" ≡ false
      → (send x e).0 ≡ none
      → read_events formats codec send (line ∷ rest) p e
        ≡ read_events formats codec send rest (read_chunk p (codec.decode_chunk x)) (send x e).1
  unfolding read_events
  read_next x q d accepted = ground arith

  read_stop :
      (x m : String)
      → event_of formats line ≡ some x
      → str_eq x "[DONE]" ≡ false
      → (send x e).0 ≡ some m
      → read_events formats codec send (line ∷ rest) p e ≡ (broken p.tokens m, (send x e).1)
  unfolding read_events
  read_stop x m q d bad = ground arith

module _ {F E : Type 0} (formats : Formats) (codec : OpenaiJson F) (send : StreamSender E) where
  -- To a client that takes everything, the reader forwards the events of the stream in their order, up
  -- to the end mark and with it, and it finishes with what the events before the mark say, whether the
  -- mark came or not.
  pub read_events_forwards :
      (sent : E → List String) (lines : List String) (p : Progress) (e : E)
      → Keeps send sent
      → let (r, e') = read_events formats codec send lines p e in
        (r ≡ finished (collect codec p (before_done (events formats lines))))
        × (sent e' ≡ sent e ++ until_done (events formats lines))
  unfolding read_events events until_done before_done collect
  read_events_forwards sent [] p e k = (refl, sym (append-nil (sent e)))
  read_events_forwards sent (line ∷ rest) p e k = elim (Option-cases (event_of formats line)) [
    | inl q ↦
        rw (read_skip formats codec send line rest p e q, events_skip formats line rest q)
          (read_events_forwards sent rest p e k)
    | inr (x, q) ↦ elim (Bool-cases (str_eq x "[DONE]")) [
      | inl d ↦
          let mark : x ≡ "[DONE]" = (eq_iff x "[DONE]").0 d in
          rw (read_done formats codec send line rest p e x q d, events_take formats line rest x q)
            (rw d (refl, k.keeps "[DONE]" e ∙ ap (λ (y : String). sent e ++ y ∷ []) (sym mark)))
      | inr d ↦
          let ih =
            read_events_forwards sent rest (read_chunk p (codec.decode_chunk x)) (send x e).1 k in
          let later = until_done (events formats rest) in
          rw
            (
              read_next formats codec send line rest p e x q d (k.accepts x e),
              events_take formats line rest x q,
            )
            (rw d (
              ih.0,
              ih.1 ∙ ap (λ l. l ++ later) (k.keeps x e) ∙ append_assoc (sent e) (x ∷ []) later,
            ))
    ]
  ]

  -- The client took these events one after the other, from the first state to the second.
  pub data Took : List String → E → E → Type 0 where
    none_yet : {e : E} → Took [] e e
    took :
        {x : String} {xs : List String} {e e' : E}
        → (send x e).0 ≡ none
        → Took xs (send x e).1 e'
        → Took (x ∷ xs) e e'

  -- How a reader got to the event that the client did not take.
  pub record Refused (xs : List String) (e : E) (m : String) (last : E) : Type 0 where
    pub before : List String
    pub event : String
    pub after : List String
    pub reached : E
    pub split : xs ≡ before ++ event ∷ after
    pub taken : Took before e reached
    pub refused : (send event reached).0 ≡ some m
    pub ended : last ≡ (send event reached).1

  Refused-cons :
      (x : String) (xs : List String) (e : E) (m : String) (last : E)
      → (send x e).0 ≡ none
      → Refused xs (send x e).1 m last
      → Refused (x ∷ xs) e m last
  Refused-cons x xs e m last accepted r = record {
    before = x ∷ r.before;
    event = r.event;
    after = r.after;
    reached = r.reached;
    split = ap (◌∷◌ x) r.split;
    taken = took accepted r.taken;
    refused = r.refused;
    ended = r.ended;
  }

  -- A reader that ends with an error has forwarded the events in their order up to the first one that
  -- the client does not take, reports that error, and forwards nothing after it.
  pub read_events-broken :
      (lines : List String) (p : Progress) (e : E) (tokens : ℤ) (m : String)
      → (read_events formats codec send lines p e).0 ≡ broken tokens m
      → Refused
          (before_done (events formats lines))
          e
          m
          (read_events formats codec send lines p e).1
  unfolding read_events events before_done
  read_events-broken [] p e tokens m h = cc
  read_events-broken (line ∷ rest) p e tokens m h = elim (Option-cases (event_of formats line)) [
    | inl q ↦
        let step = read_skip formats codec send line rest p e q in
        rw (step, events_skip formats line rest q)
          (read_events-broken rest p e tokens m (rw step at h))
    | inr (x, q) ↦ elim (Bool-cases (str_eq x "[DONE]")) [
      | inl d ↦ cc (read_done formats codec send line rest p e x q d)
      | inr d ↦ elim (Option-cases (send x e).0) [
        | inl accepted ↦
            let step = read_next formats codec send line rest p e x q d accepted in
            rw (step, events_take formats line rest x q)
              (rw d (
                Refused-cons x (before_done (events formats rest)) e m _ accepted (
                  read_events-broken rest (read_chunk p (codec.decode_chunk x)) (send x e).1 tokens
                    m (rw step at h))))
        | inr (n, bad) ↦
            let step = read_stop formats codec send line rest p e x n q d bad in
            rw (step, events_take formats line rest x q)
              (rw d (record {
                before = [];
                event = x;
                after = before_done (events formats rest);
                reached = e;
                split = refl;
                taken = none_yet;
                refused = cc (step);
                ended = refl;
              }))
      ]
    ]
  ]
