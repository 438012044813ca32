-- ===== src/Providers/Chat/Loops.antt =====
-- What the loops of the clients leave alone: they reach the surroundings only through the sender of
-- events and the clock.
use router_x.Base.{Option-split, Bool-split, ℕ, String, List, [], ◌∷◌, arith, is_empty, str_eq}
use router_x.Providers.Wire.{Wire, Formats, StreamSender}
use router_x.Providers.Types.{send_chunks}
use router_x.Providers.Stream.{Progress, event_of}
use router_x.Providers.Openai.{OpenaiJson, read_events}
use router_x.Providers.Anthropic.Reply.{
  AnthropicJson, StreamEvent, content_chunk, decoded, take_event, read_anthropic,
}
use router_x.Providers.Gemini.Reply.{
  GeminiJson, gemini_decoded, send_parts, send_candidates, read_gemini,
}

-- A property of the surroundings that the sender and the clock keep.
pub record KeepsStream {E : Type 0} (wire : Wire E) (send : StreamSender E) (Safe : E → Type 0)
    : Type 0 where
  pub sends : (event : String) (e : E) → Safe e → Safe (send event e).1
  pub sleeps : (t : ℕ) (e : E) → Safe e → Safe (wire.sleep t e)

module _ {E : Type 0} (wire : Wire E) (formats : Formats) (send : StreamSender E)
    (Safe : E → Type 0) (k : KeepsStream wire send Safe) where
  abbrev SafeAfter : {A : Type 0} → A × E → Type 0
  SafeAfter (a, e) = Safe e

  pub send_chunks-IsSafe :
      (cs : List String) (e : E) → Safe e → Safe (send_chunks wire formats send cs e).1
  unfolding send_chunks
  send_chunks-IsSafe [] e s = k.sends "[DONE]" e s
  send_chunks-IsSafe (c ∷ cs) e s =
      Option-split SafeAfter (send _ e).0
        (send_chunks-IsSafe cs (wire.sleep 50_000_000 _) (k.sleeps 50_000_000 _ (k.sends _ e s)))
        (λ m. k.sends _ e s)

  pub read_events-IsSafe :
      {F : Type 0}
      → (codec : OpenaiJson F) (lines : List String) (p : Progress) (e : E) → Safe e
      → Safe (read_events formats codec send lines p e).1
  unfolding read_events
  read_events-IsSafe codec [] p e s = s
  read_events-IsSafe codec (line ∷ rest) p e s =
      Option-split SafeAfter (event_of formats line) (read_events-IsSafe codec rest p e s) (λ x.
        Bool-split SafeAfter (str_eq x "[DONE]") (k.sends "[DONE]" e s) (
          Option-split SafeAfter (send x e).0
            (read_events-IsSafe codec rest _ (send x e).1 (k.sends x e s)) (λ m. k.sends x e s)))

  take_event-IsSafe :
      (p : Progress) (ev : StreamEvent) (e : E) → Safe e → Safe (take_event formats send p ev e).1.1
  unfolding take_event
  take_event-IsSafe p ev e s =
      ground (arith, k.sends (content_chunk formats ev.delta) e s, k.sends "[DONE]" e s)

  pub read_anthropic-IsSafe :
      {F V : Type 0}
      → (codec : AnthropicJson F V) (lines : List String) (p : Progress) (e : E) → Safe e
      → Safe (read_anthropic formats codec send lines p e).1
  unfolding read_anthropic
  read_anthropic-IsSafe codec [] p e s = s
  read_anthropic-IsSafe codec (line ∷ rest) p e s =
      Option-split SafeAfter (decoded codec.decode_event (event_of formats line))
        (read_anthropic-IsSafe codec rest p e s)
        (λ ev.
          let s' = take_event-IsSafe p ev e s in
          Option-split SafeAfter (take_event formats send p ev e).1.0
            (read_anthropic-IsSafe codec rest _ _ s') (λ m. s'))

  -- Under the two components of what the loops over parts return.
  abbrev SafeInside : {A B : Type 0} → A × (B × E) → Type 0
  SafeInside (a, (b, e)) = Safe e

  send_parts-IsSafe :
      (ts : List String) (text : String) (e : E)
      → Safe e
      → Safe (send_parts formats send text ts e).1.1
  unfolding send_parts
  send_parts-IsSafe [] text e s = s
  send_parts-IsSafe (t ∷ ts) text e s =
      let s' = k.sends (content_chunk formats t) e s in
      Bool-split SafeInside (is_empty t) (send_parts-IsSafe ts text e s) (
        Option-split SafeInside (send (content_chunk formats t) e).0 (send_parts-IsSafe ts _ _ s')
          (λ m. s'))

  send_candidates-IsSafe :
      (cs : List (List String)) (text : String) (e : E)
      → Safe e
      → Safe (send_candidates formats send text cs e).1.1
  unfolding send_candidates
  send_candidates-IsSafe [] text e s = s
  send_candidates-IsSafe (parts ∷ more) text e s =
      let s' = send_parts-IsSafe parts text e s in
      Option-split SafeInside (send_parts formats send text parts e).1.0
        (send_candidates-IsSafe more _ _ s') (λ m. s')

  pub read_gemini-IsSafe :
      {F V : Type 0}
      → (codec : GeminiJson F V) (lines : List String) (p : Progress) (e : E) → Safe e
      → Safe (read_gemini formats codec send lines p e).1
  unfolding read_gemini
  read_gemini-IsSafe codec [] p e s = s
  read_gemini-IsSafe codec (line ∷ rest) p e s =
      Option-split SafeAfter (gemini_decoded codec.decode_event (event_of formats line))
        (read_gemini-IsSafe codec rest p e s)
        (λ g.
          let s' = send_candidates-IsSafe g.candidates p.text e s in
          Option-split SafeAfter (send_candidates formats send p.text g.candidates e).1.0
            (read_gemini-IsSafe codec rest _ _ s') (λ m. s'))
