-- ===== src/Models/Content.antt =====
-- `ParseContentParts`, `ContentText` and `ContentHasImage` of backend/internal/models/models.go.
use Prim.Native.String.{◌++◌}
use text.Mathlib.Text.{starts_with}
use router_x.Base.{
  String, Bool, not, ◌&&◌, ◌||◌, Option, none, some, List, [], ◌∷◌, str_eq, is_empty, if◌then◌else◌,
  anyb,
}

pub record ContentPart : Type 0 where
  pub type : String
  pub text : String
  pub image_url : String

-- `json.Unmarshal` into a string and into a list of parts; `none` is its error.
pub record Json : Type 0 where
  pub unmarshal_string : String → Option String
  pub unmarshal_parts : String → Option (List ContentPart)

abbrev pub text_part : String → ContentPart
text_part s = record { type = "text"; text = s; image_url = "" }

abbrev parts_or_nil : Option (List ContentPart) → List ContentPart
parts_or_nil none = []
parts_or_nil (some parts) = parts

abbrev string_parts : Option String → List ContentPart
string_parts none = []
string_parts (some s) = text_part s ∷ []

unfoldable pub parse_content_parts : Json → String → List ContentPart
parse_content_parts json raw =
    if is_empty raw || str_eq raw "null"
    then []
    else if starts_with raw "\""
    then string_parts (json.unmarshal_string raw)
    else if starts_with raw "["
    then parts_or_nil (json.unmarshal_parts raw)
    else []

abbrev pub is_text : ContentPart → Bool
is_text p = is_empty p.type || str_eq p.type "text"

abbrev pub is_image : ContentPart → Bool
is_image p = str_eq p.type "image_url" && not (is_empty p.image_url)

-- `text += p.Text` over the parts that are text.
unfoldable pub concat_text : String → List ContentPart → String
concat_text acc [] = acc
concat_text acc (p ∷ ps) = concat_text (if is_text p then acc ++ p.text else acc) ps

unfoldable pub content_text : Json → String → String
content_text json raw = concat_text "" (parse_content_parts json raw)

unfoldable pub content_has_image : Json → String → Bool
content_has_image json raw = anyb is_image (parse_content_parts json raw)
