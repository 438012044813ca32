-- ===== src/Providers/Anthropic/Convert/Messages.antt =====
-- The loop over the messages against a description without state.
use mathlib.Core.List.{append_assoc, append-nil}
use Prim.Native.String
use router_x.Base.{
  String, Bool, true, false, not, ◌≡◌, refl, sym, ap, ◌∙◌, List, [], ◌∷◌, ◌++◌, map, filterb,
  if◌then◌else◌, Bool-cases, inl, inr,
}
use router_x.Models.{Message}
use router_x.Models.Content.{Json, content_text}
use router_x.Providers.Anthropic.Convert.{
  RequestJson, AnthropicMessage, convert_message, convert_messages, is_system,
}

-- The texts, each with a new line at its end, behind one another.
abbrev pub lines_after : String → List String → String
lines_after s [] = s
lines_after s (t ∷ ts) = lines_after (String.◌++◌ s (String.◌++◌ t "\n")) ts

module _ {V : Type 0} (codec : RequestJson V) (json : Json) where
  abbrev pub is_turn : Message → Bool
  is_turn m = not (is_system codec json m)

  abbrev with_line : String → Message → String
  with_line system m = String.◌++◌ system (String.◌++◌ (content_text json m.content) "\n")

  convert_messages-system :
      (system : String) (done : List (AnthropicMessage V)) (m : Message) (ms : List Message)
      → is_system codec json m ≡ true
      → convert_messages codec json system done (m ∷ ms)
        ≡ convert_messages codec json (with_line system m) done ms
  unfolding convert_messages
  convert_messages-system system done m ms e =
      ap
        (λ b.
          convert_messages codec json (if b then with_line system m else system)
            (if b then done else done ++ convert_message codec json m ∷ []) ms)
        e

  convert_messages-turn :
      (system : String) (done : List (AnthropicMessage V)) (m : Message) (ms : List Message)
      → is_system codec json m ≡ false
      → convert_messages codec json system done (m ∷ ms)
        ≡ convert_messages codec json system (done ++ convert_message codec json m ∷ []) ms
  unfolding convert_messages
  convert_messages-turn system done m ms e =
      ap
        (λ b.
          convert_messages codec json (if b then with_line system m else system)
            (if b then done else done ++ convert_message codec json m ∷ []) ms)
        e

  convert_messages-nil :
      (system : String) (done : List (AnthropicMessage V))
      → convert_messages codec json system done [] ≡ (system, done)
  unfolding convert_messages
  convert_messages-nil system done = refl

  convert_messages_from :
      (system : String) (done : List (AnthropicMessage V)) (ms : List Message)
      → convert_messages codec json system done ms ≡ (
        lines_after system
            (map (λ m. content_text json m.content) (filterb (is_system codec json) ms)),
        done ++ map (convert_message codec json) (filterb is_turn ms),
      )
  convert_messages_from system done [] =
      convert_messages-nil system done ∙ ap (λ d. (system, d)) (sym (append-nil done))
  convert_messages_from system done (m ∷ ms) = elim (Bool-cases (is_system codec json m)) [
    | inl e ↦ rw e (
        convert_messages-system system done m ms e
        ∙ convert_messages_from (with_line system m) done ms)
    | inr e ↦
        let entry = convert_message codec json m in
        rw
          (
            e,
            sym (
                append_assoc done (entry ∷ [])
                  (map (convert_message codec json) (filterb is_turn ms))),
          )
          (convert_messages-turn system done m ms e
            ∙ convert_messages_from system (done ++ entry ∷ []) ms)
  ]

  -- What Anthropic is sent of the messages: the texts of the system messages, each on lines of its own
  -- and in their order, as the system text, and one entry for each other message, in their order.
  pub convert_messages-eq :
      (ms : List Message)
      → convert_messages codec json "" [] ms ≡ (
        lines_after "" (map (λ m. content_text json m.content) (filterb (is_system codec json) ms)),
        map (convert_message codec json) (filterb is_turn ms),
      )
  convert_messages-eq ms = convert_messages_from "" [] ms
