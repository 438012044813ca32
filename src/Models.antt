-- ===== src/Models.antt =====
-- backend/internal/models/models.go: chat requests and responses, and the content of a message. Raw
-- JSON is kept as its text; `encoding/json` is the parameter `Json`.
pub mod Content
use router_x.Base.Int.{ℤ, pos}
use router_x.Base.{ℕ, String, Bool, true, false, Option, none, some, List, [], ◌∷◌}

pub record Message : Type 0 where
  pub role : String
  pub content : String
  pub name : String
  pub tool_calls : String
  pub tool_call_id : String

pub record ChatCompletionRequest (F : Type 0) : Type 0 where
  pub model : String
  pub messages : List Message
  pub stream : Bool
  -- `StreamOptions.IncludeUsage`, where the options are given
  pub stream_options : Option Bool
  pub max_tokens : ℤ
  pub max_completion_tokens : ℤ
  pub temperature : Option F
  pub top_p : Option F
  pub n : ℤ
  pub stop : String
  pub frequency_penalty : Option F
  pub presence_penalty : Option F
  pub seed : Option ℤ
  pub tools : String
  pub tool_choice : String
  pub parallel_tool_calls : Option Bool
  pub response_format : String
  pub log_probs : Option Bool
  pub top_log_probs : Option ℤ
  pub user : String
  pub store : Option Bool
  pub metadata : String
  pub service_tier : String

pub record Usage : Type 0 where
  pub prompt_tokens : ℤ
  pub completion_tokens : ℤ
  pub total_tokens : ℤ

pub record AssistantMessage : Type 0 where
  pub role : String
  pub content : Option String
  pub tool_calls : String

pub record Choice : Type 0 where
  pub index : ℕ
  pub message : AssistantMessage
  pub finish : String

pub record ChatCompletionResponse : Type 0 where
  pub id : String
  pub object : String
  pub created : ℕ
  pub model : String
  pub choices : List Choice
  pub usage : Usage

-- The zero value of the struct.
abbrev pub no_response : ChatCompletionResponse
no_response = record {
  id = "";
  object = "";
  created = 0;
  model = "";
  choices = [];
  usage = record { prompt_tokens = pos 0; completion_tokens = pos 0; total_tokens = pos 0 };
}
