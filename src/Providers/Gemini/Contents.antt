-- ===== src/Providers/Gemini/Contents.antt =====
-- `toGeminiContents` and the payload and URL of `geminiProvider.Chat`.
pub mod Shape
use Prim.Native.String.{◌++◌}
use router_x.Base.Int.{ℤ, pos, ltb_ℤ}
use router_x.Base.{
  String, Bool, true, false, not, ◌&&◌, Option, none, some, List, [], ◌∷◌, str_eq, is_empty,
  if◌then◌else◌,
}
use router_x.Models.{ChatCompletionRequest, Message}
use router_x.Models.Content.{Json, ContentPart, parse_content_parts, is_text, is_image}
use router_x.Providers.Wire.{Formats}

-- A part is its text.
pub record GeminiContent : Type 0 where
  pub role : String
  pub parts : List String

abbrev text_part : Message → ContentPart → String
text_part m p =
    if str_eq m.role "system" && not (is_empty p.text) then "System: " ++ p.text else p.text

-- The loop over the content parts.
unfoldable pub gemini_parts : Message → List ContentPart → List String
gemini_parts m [] = []
gemini_parts m (p ∷ ps) =
    let rest = gemini_parts m ps in
    if is_text p
    then text_part m p ∷ rest
    else if is_image p
    then ("[image] " ++ p.image_url) ∷ rest
    else rest

abbrev pub at_least_one : List String → List String
at_least_one [] = "" ∷ []
at_least_one (t ∷ ts) = t ∷ ts

unfoldable pub gemini_content : Json → Message → GeminiContent
unfolding gemini_parts
gemini_content json m = record {
  role = if str_eq m.role "assistant" then "model" else "user";
  parts = at_least_one (gemini_parts m (parse_content_parts json m.content));
}

-- `toGeminiContents`
unfoldable pub to_gemini_contents : Json → List Message → List GeminiContent
unfolding gemini_content
to_gemini_contents json [] = []
to_gemini_contents json (m ∷ ms) = gemini_content json m ∷ to_gemini_contents json ms

-- The map `gen`; an absent key is `none`.
pub record GenerationConfig (F V : Type 0) : Type 0 where
  pub max_output_tokens : Option ℤ
  pub temperature : Option F
  pub top_p : Option F
  pub stop_sequences : Option V

pub record GeminiPayload (F V : Type 0) : Type 0 where
  pub contents : List GeminiContent
  pub config : Option (GenerationConfig F V)

abbrev is_absent : {A : Type 0} → Option A → Bool
is_absent none = true
is_absent (some a) = false

abbrev output_limit : ℤ → ℤ → Option ℤ
output_limit limit completion =
    if ltb_ℤ (pos 0) completion
    then some completion
    else if ltb_ℤ (pos 0) limit
    then some limit
    else none

module _ {F V : Type 0} (json : Json) (value : String → Option V) where
  abbrev generation : ChatCompletionRequest F → GenerationConfig F V
  generation req = record {
    max_output_tokens = output_limit req.max_tokens req.max_completion_tokens;
    temperature = req.temperature;
    top_p = req.top_p;
    stop_sequences =
        if not (is_empty req.stop) && not (str_eq req.stop "null") then value req.stop else none;
  }

  abbrev unless_empty : GenerationConfig F V → Option (GenerationConfig F V)
  unless_empty g =
      if is_absent g.max_output_tokens
        && (is_absent g.temperature && (is_absent g.top_p && is_absent g.stop_sequences))
      then none
      else some g

  unfoldable pub gemini_payload : ChatCompletionRequest F → GeminiPayload F V
  unfolding to_gemini_contents
  gemini_payload req = record {
    contents = to_gemini_contents json req.messages;
    config = unless_empty (generation req);
  }

-- The URL that `makeRequest` builds for a model.
unfoldable pub gemini_url : Formats → String → Bool → String → String
gemini_url formats key stream model =
    let method = if stream then "streamGenerateContent?alt=sse" else "generateContent" in
    let url =
      ("https://generativelanguage.googleapis.com/v1beta/models/" ++ model) ++ (":" ++ method) in
    if not (is_empty key) && not (formats.contains_text url "key=")
    then (if formats.contains_text url "?"
        then (url ++ "&key=") ++ key
        else (url ++ "?key=") ++ key)
    else url
