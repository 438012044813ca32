-- ===== src/Tests/Providers.antt =====
-- The theorems on the provider clients and on embeddings, at a network that counts requests and keeps the events sent.
use Prim.Native.String.{len, slice, find}
use router_x.Base.Int.{pos}
use router_x.Base.Float.{Micros, micros_float}
use router_x.Base.{
  ℕ, ◌+◌, ◌≤◌, String, true, false, none, some, List, [], ◌∷◌, ◌++◌, ◌≡◌, refl, ok, err, str_eq,
  ltb, if◌then◌else◌, map, filterb,
}
use router_x.Models.{Message}
use router_x.Models.Content.{content_text}
use router_x.Providers.Wire.{Wire, Formats, HttpResponse, StreamSender}
use router_x.Providers.Types.{Client, new_provider}
use router_x.Providers.Stream.{no_progress, finished, event_of}
use router_x.Providers.Openai.{OpenaiJson, read_chunk, read_events, handle_openai_stream}
use router_x.Providers.Openai.Events.{
  Keeps, Refused, events, until_done, before_done, collect, read_events_forwards,
  read_events-broken,
}
use router_x.Providers.Anthropic.Convert.{RequestJson, convert_message, convert_messages, is_system}
use router_x.Providers.Anthropic.Convert.Messages.{lines_after, is_turn, convert_messages-eq}
use router_x.Providers.Gemini.Contents.{to_gemini_contents}
use router_x.Providers.Gemini.Contents.Shape.{AreEntries, to_gemini_contents-AreEntries}
use router_x.Providers.Gemini.Reply.{handle_gemini_stream}
use router_x.Providers.Chat.{Codecs, chat}
use router_x.Providers.Chat.Calls.{LeavesRequests}
use router_x.Providers.Chat.Requests.{chat-requests}
use router_x.Providers.Tokens.{HasTokens, streams_report_tokens}
use router_x.Store.Db.{Tables, healthy, query_row, find_row}
use router_x.Store.Providers.{get_model_provider, get_enabled_providers_by_type}
use router_x.Api.Embeddings.{EmbeddingsHttp, embeddings}
use router_x.Api.Embeddings.Free.{IsServed, embeddings_answered}
use router_x.Tests.Chat.{tables, acme}
use router_x.Tests.Data.{working, hello, text_json}

record Net : Type 0 where
  posts : ℕ
  sent : List String

abbrev idle : Net
idle = record { posts = 0; sent = [] }

abbrev keep : StreamSender Net
keep event e = (none, record e { sent = e.sent ++ event ∷ [] })

-- A client that hangs up at the second event.
abbrev hang_up : StreamSender Net
hang_up event e = if str_eq event "two" then (some "broken pipe", e) else keep event e

abbrev pub lines : List String
lines = "data: one" ∷ "" ∷ "data: two" ∷ "data: [DONE]" ∷ "data: three" ∷ []

abbrev pub answer : HttpResponse
answer = record { status = 200; body = "models/x is not found"; read_error = none }

abbrev wire : Wire Net
wire = record {
  now = λ e. 0;
  sleep = λ t e. e;
  post = λ r e. (ok answer, record e { posts = e.posts + 1 });
  url_error = λ url. none;
  scan = λ size resp. lines;
}

abbrev pub formats : Formats
formats = record {
  decimal = λ n. "0";
  quoted = λ s. s;
  byte_length = len;
  strip_prefix = λ prefix s.
      if str_eq (slice s 0 (len prefix)) prefix then some (slice s (len prefix) (len s)) else none;
  has_suffix = λ s suffix. false;
  contains_text = λ s t. ltb (find s t) (len s + 1);
  trim_space = λ s. s;
  trim_slashes = λ s. s;
  json_string = λ s. s;
}

abbrev openai_json : OpenaiJson Micros
openai_json = record {
  marshal_request = λ r. ok "{}";
  decode_response = λ s. err "no JSON";
  decode_chunk = λ s. some (record { id = s; deltas = s ∷ []; usage = none });
}

abbrev request_json : RequestJson String
request_json = record {
  tool_calls = λ s. none;
  tools = λ s. none;
  value = λ s. some s;
  nil = "";
  as_string = λ s. some s;
  member = λ key v. none;
}

abbrev pub codecs : Codecs Micros String
codecs = record {
  openai = openai_json;
  anthropic = record {
    request = request_json;
    marshal_payload = λ p. "{}";
    marshal_raw = λ s. s;
    marshal_calls = λ calls. "[]";
    decode_response = λ s. err "no JSON";
    decode_event = λ s. none;
  };
  gemini = record {
    value = λ s. some s;
    marshal_payload = λ p. "{}";
    decode_response = λ s. err "no JSON";
    decode_event = λ s. some (record {
      candidates = (s ∷ []) ∷ [];
      prompt_tokens = pos 0;
      candidates_tokens = pos 0;
      total_tokens = pos 3;
    });
  };
  json = text_json;
}

abbrev keep-Keeps : Keeps keep (λ (e : Net). e.sent)
keep-Keeps = record { accepts = λ event e. refl; keeps = λ event e. refl }

nil-LeavesRequests : LeavesRequests wire none (λ (e : Net). e.posts)
nil-LeavesRequests = record {
  posts = λ r e. refl;
  sends = λ send event e h. cc;
  sleeps = λ t e. refl;
}

abbrev gemini_client : Client
gemini_client = new_provider (record working { type = "gemini" }) true

abbrev conversation : List Message
conversation =
    record { role = "system"; content = "be brief"; name = ""; tool_calls = ""; tool_call_id = "" }
    ∷ record { role = "user"; content = "hello"; name = ""; tool_calls = ""; tool_call_id = "" }
    ∷ []

-- A stream of two events and the end mark.
read_events_forwards_example :
    let (r, e') = read_events formats openai_json keep lines no_progress idle in
    (r ≡ finished (collect openai_json no_progress (before_done (events formats lines))))
    × (e'.sent ≡ [] ++ until_done (events formats lines))
read_events_forwards_example =
    read_events_forwards formats openai_json keep (λ (e : Net). e.sent) lines no_progress idle
      keep-Keeps

-- The reader forwards these events.
forwarded :
    (read_events formats openai_json keep lines no_progress idle).1.sent
    ≡ "one" ∷ "two" ∷ "[DONE]" ∷ []
unfolding read_events event_of
forwarded = refl

-- A client that hangs up.
read_events-broken_example :
    Refused formats openai_json hang_up
      (before_done (events formats lines))
      idle
      "broken pipe"
      (read_events formats openai_json hang_up lines no_progress idle).1
unfolding read_events event_of read_chunk
read_events-broken_example =
    read_events-broken formats openai_json hang_up lines no_progress idle (pos 0) "broken pipe" refl

-- A system message before a message of the user.
convert_messages-eq_example : convert_messages request_json text_json "" [] conversation ≡ (
  lines_after "" (
      map
        (λ m. content_text text_json m.content)
        (filterb (is_system request_json text_json) conversation)),
  map
      (convert_message request_json text_json)
      (filterb (is_turn request_json text_json) conversation),
)
convert_messages-eq_example = convert_messages-eq request_json text_json conversation

-- The same conversation for Gemini.
to_gemini_contents-AreEntries_example :
    AreEntries text_json conversation (to_gemini_contents text_json conversation)
to_gemini_contents-AreEntries_example = to_gemini_contents-AreEntries text_json conversation

-- A Gemini client, without a stream.
chat-requests_example : (chat wire formats codecs gemini_client hello false none idle).1.posts ≤ 2
unfolding new_provider
chat-requests_example =
    chat-requests wire formats none (λ (e : Net). e.posts) nil-LeavesRequests codecs gemini_client
      hello false idle

-- A stream without a usage, and one that reports three tokens.
streams_report_tokens_example :
    HasTokens
      (handle_openai_stream wire formats openai_json text_json answer "gpt-4o" keep 0 idle).0
    × HasTokens
        (handle_gemini_stream wire formats codecs.gemini text_json answer "gpt-4o" keep 0 idle).0
streams_report_tokens_example =
    streams_report_tokens wire formats codecs keep answer "gpt-4o" 0 idle

abbrev offered : Tables Micros
offered = record tables { providers = record working { api_key = "" } ∷ working ∷ [] }

abbrev embed : EmbeddingsHttp Micros
embed = record { tenant = some acme; body = some "{}" }

-- The second provider answers, since the first has no key.
embeddings_answered_example :
    IsServed wire formats
      (λ body. some "gpt-4o")
      (some "{}")
      (healthy offered)
      "models/x is not found"
      (embeddings wire formats (λ body. some "gpt-4o") embed (healthy offered) idle)
unfolding embeddings get_enabled_providers_by_type query_row get_model_provider find_row
embeddings_answered_example =
    embeddings_answered wire formats (λ body. some "gpt-4o") embed (healthy offered) idle
      "models/x is not found" refl
