-- ===== src/Providers/Gemini/Contents/Shape.antt =====
-- The shape of what `toGeminiContents` sends.
use router_x.Base.{String, ◌≡◌, ◌⊎◌, List, [], ◌∷◌, arith, length, ◌↔◌, ◌≤◌, ◌+◌, eq_iff}
use router_x.Models.{Message}
use router_x.Models.Content.{Json, ContentPart, parse_content_parts}
use router_x.Providers.Gemini.Contents.{
  GeminiContent, gemini_parts, at_least_one, gemini_content, to_gemini_contents,
}

-- The entry of a message: Gemini knows two roles, and wants a part in each content.
pub record IsEntry (json : Json) (m : Message) (c : GeminiContent) : Type 0 where
  pub role : (c.role ≡ "user") ⊎ (c.role ≡ "model")
  pub model_role : (c.role ≡ "model") ↔ (m.role ≡ "assistant")
  pub some_part : 1 ≤ length c.parts
  pub few_parts : length c.parts ≤ length (parse_content_parts json m.content) + 1

-- The entries of the messages, one for each and in their order.
abbrev pub AreEntries : Json → List Message → List GeminiContent → Type 0
AreEntries json [] [] = Unit
AreEntries json (m ∷ ms) (c ∷ cs) = IsEntry json m c × AreEntries json ms cs
AreEntries json _ _ = ⊥

length-gemini_parts : (m : Message) (ps : List ContentPart) → length (gemini_parts m ps) ≤ length ps
unfolding gemini_parts
length-gemini_parts m [] = omega arith
length-gemini_parts m (p ∷ ps) = ground (arith, length-gemini_parts m ps)

length-at_least_one :
    (ts : List String) → (1 ≤ length (at_least_one ts)) × (length (at_least_one ts) ≤ length ts + 1)
length-at_least_one [] = omega arith
length-at_least_one (t ∷ ts) = omega arith

gemini_content-IsEntry : (json : Json) (m : Message) → IsEntry json m (gemini_content json m)
unfolding gemini_content
gemini_content-IsEntry json m =
    let parts = gemini_parts m (parse_content_parts json m.content) in
    let bounds = length-at_least_one parts in
    record {
      role = ground arith;
      model_role = ground (arith, eq_iff m.role "assistant", eq_iff "user" "model");
      some_part = bounds.0;
      few_parts = omega (arith, bounds, length-gemini_parts m (parse_content_parts json m.content));
    }

-- Each message becomes one content, in the order of the messages: its role is `model` just for an
-- answer of the assistant and `user` otherwise, and it has at least one part and at most one more than
-- the message.
pub to_gemini_contents-AreEntries :
    (json : Json) (ms : List Message) → AreEntries json ms (to_gemini_contents json ms)
unfolding to_gemini_contents
to_gemini_contents-AreEntries json [] = tt
to_gemini_contents-AreEntries json (m ∷ ms) =
    (gemini_content-IsEntry json m, to_gemini_contents-AreEntries json ms)
