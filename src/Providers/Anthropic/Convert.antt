-- ===== src/Providers/Anthropic/Convert.antt =====
-- The request of `anthropicProvider.Chat`. `V` is the type of Go's `interface{}` values.
pub mod Messages
use Prim.Native.String.{◌++◌}
use router_x.Base.Int.{ℤ, pos, ltb_ℤ}
use router_x.Base.{
  String, Bool, not, ◌&&◌, Option, none, some, List, [], ◌∷◌, str_eq, is_empty, map, if◌then◌else◌,
}
use mathlib.Core.List
use router_x.Models.{ChatCompletionRequest, Message}
use router_x.Models.Content.{Json, content_text}
use router_x.Providers.Wire.{Formats}

-- One entry of `toolCalls`.
pub record ToolCall : Type 0 where
  pub id : String
  pub name : String
  pub arguments : String

-- One entry of `openaiTools`; `parameters` is raw JSON.
pub record OpenaiTool : Type 0 where
  pub name : String
  pub description : String
  pub parameters : String

pub data Block (V : Type 0) : Type 0 where
  text_block : String → Block V
  tool_use : String → String → V → Block V
  tool_result : String → String → Block V

pub data BlockContent (V : Type 0) : Type 0 where
  plain : String → BlockContent V
  blocks : List (Block V) → BlockContent V

pub record AnthropicMessage (V : Type 0) : Type 0 where
  pub role : String
  pub content : BlockContent V

pub record AnthropicTool : Type 0 where
  pub name : String
  pub input_schema : String
  pub description : Option String

pub data ToolChoice : Type 0 where
  auto any : ToolChoice
  tool : String → ToolChoice

-- The map `payload`; an absent key is `none`.
pub record Payload (F V : Type 0) : Type 0 where
  pub model : String
  pub messages : List (AnthropicMessage V)
  pub max_tokens : ℤ
  pub system : Option String
  pub stream : Bool
  pub temperature : Option F
  pub top_p : Option F
  pub stop_sequences : Option V
  pub tools : Option (List AnthropicTool)
  pub tool_choice : Option ToolChoice

-- `json.Unmarshal` into the types that the code names; `none` is its error.
pub record RequestJson (V : Type 0) : Type 0 where
  pub tool_calls : String → Option (List ToolCall)
  pub tools : String → Option (List OpenaiTool)
  pub value : String → Option V
  -- The nil interface, which a failed decode leaves.
  pub nil : V
  -- The type assertions `v.(string)` and `v.(map[string]interface{})[key]`
  pub as_string : V → Option String
  pub member : String → V → Option V

-- `len(raw) > 0 && string(raw) != "null"`
abbrev pub is_given_json : String → Bool
is_given_json raw = not (is_empty raw) && not (str_eq raw "null")

abbrev or_value : {V : Type 0} → V → Option V → V
or_value v none = v
or_value v (some w) = w

module _ {V : Type 0} (codec : RequestJson V) (json : Json) where
  abbrev call_block : ToolCall → Block V
  call_block c = tool_use c.id c.name (or_value codec.nil (codec.value c.arguments))

  abbrev regular : Message → AnthropicMessage V
  regular m = record { role = m.role; content = plain (content_text json m.content) }

  abbrev with_calls : Message → Option (List ToolCall) → AnthropicMessage V
  with_calls m none = regular m
  with_calls m (some calls) =
      let text = content_text json m.content in
      let uses = map call_block calls in
      record {
        role = "assistant";
        content = blocks (if is_empty text then uses else text_block text ∷ uses);
      }

  -- The entry of a message that is not of the system.
  unfoldable pub convert_message : Message → AnthropicMessage V
  convert_message m =
      if str_eq m.role "tool"
      then record {
        role = "user";
        content = blocks (tool_result m.tool_call_id (content_text json m.content) ∷ []);
      }
      else if str_eq m.role "assistant" && is_given_json m.tool_calls
      then with_calls m (codec.tool_calls m.tool_calls)
      else regular m

  abbrev pub is_system : Message → Bool
  is_system m = str_eq m.role "system"

  -- The loop over the messages, with `system` and `anthropicMsgs`.
  unfoldable pub convert_messages :
      String → List (AnthropicMessage V) → List Message → String × List (AnthropicMessage V)
  convert_messages system done [] = (system, done)
  convert_messages system done (m ∷ ms) =
      convert_messages
        (if is_system m then system ++ (content_text json m.content ++ "\n") else system)
        (if is_system m then done else List.◌++◌ done (convert_message m ∷ [])) ms

abbrev pub limit_tokens : ℤ → ℤ → ℤ → ℤ
limit_tokens default limit completion =
    if ltb_ℤ (pos 0) completion then completion else if ltb_ℤ (pos 0) limit then limit else default

abbrev convert_tool : OpenaiTool → AnthropicTool
convert_tool t = record {
  name = t.name;
  input_schema = t.parameters;
  description = if is_empty t.description then none else some t.description;
}

abbrev convert_tools : Option (List OpenaiTool) → Option (List AnthropicTool)
convert_tools none = none
convert_tools (some ts) = some (map convert_tool ts)

abbrev named_tool : Option String → Option ToolChoice
named_tool none = none
named_tool (some name) = some (tool name)

abbrev text_choice : String → Option ToolChoice
text_choice s =
    if str_eq s "auto" then some auto else if str_eq s "required" then some any else none

module _ {V : Type 0} (codec : RequestJson V) where
  abbrev string_member : String → Option V → Option String
  string_member key none = none
  string_member key (some v) = elim (codec.member key v) [
    | none ↦ none
    | some w ↦ codec.as_string w
  ]

  abbrev read_choice : V → Option ToolChoice
  read_choice v = elim (codec.as_string v) [
    | some s ↦ text_choice s
    | none ↦ named_tool (string_member "name" (codec.member "function" v))
  ]

  abbrev choice_of : Option V → Option ToolChoice
  choice_of none = none
  choice_of (some v) = read_choice v

  -- The switch on `req.ToolChoice`.
  unfoldable pub convert_tool_choice : String → Option ToolChoice
  convert_tool_choice raw = if is_given_json raw then choice_of (codec.value raw) else none

module _ {F V : Type 0} (formats : Formats) (codec : RequestJson V) (json : Json) where
  -- The map that is sent.
  unfoldable pub payload : ChatCompletionRequest F → Bool → Payload F V
  unfolding convert_messages
  payload req stream =
      let (system, messages) = convert_messages codec json "" [] req.messages in
      record {
        model = req.model;
        messages = messages;
        max_tokens = limit_tokens (pos 4096) req.max_tokens req.max_completion_tokens;
        system = if is_empty system then none else some (formats.trim_space system);
        stream = stream;
        temperature = req.temperature;
        top_p = req.top_p;
        stop_sequences = if is_given_json req.stop then codec.value req.stop else none;
        tools = if is_given_json req.tools then convert_tools (codec.tools req.tools) else none;
        tool_choice = convert_tool_choice codec req.tool_choice;
      }
