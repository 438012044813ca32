-- ===== src/Providers/Wire.antt =====
-- What the provider clients use of Go's libraries: the HTTP client, the clock, the sender of stream
-- events and functions on texts. `E` is the state of the surroundings.
use router_x.Base.Int.{ℤ}
use router_x.Base.{ℕ, String, Bool, Option, List, Result}

pub record HttpRequest : Type 0 where
  pub url : String
  pub headers : List (String × String)
  pub body : String

-- The bytes of the body that arrive, and the error that ends them, if one does.
pub record HttpResponse : Type 0 where
  pub status : ℕ
  pub body : String
  pub read_error : Option String

-- `StreamSender`: the error of a failed write, or `none`.
abbrev pub StreamSender : Type 0 → Type 0
StreamSender E = String → E → Option String × E

pub record Wire (E : Type 0) : Type 0 where
  -- `time.Now()` in nanoseconds
  pub now : E → ℕ
  -- `time.Sleep`
  pub sleep : ℕ → E → E
  -- `httpClient.Do` of a POST
  pub post : HttpRequest → E → Result HttpResponse × E
  -- Whether `http.NewRequestWithContext` accepts the URL: its error, or `none`.
  pub url_error : String → Option String
  -- The lines that a `bufio.Scanner` with a buffer of that size reads before it stops.
  pub scan : ℕ → HttpResponse → List String

pub record Formats : Type 0 where
  -- `%d` of `fmt.Sprintf`
  pub decimal : ℤ → String
  -- `%q` of `fmt.Sprintf`
  pub quoted : String → String
  -- `len` of a string: its bytes
  pub byte_length : String → ℕ
  -- `strings.HasPrefix` with `TrimPrefix`
  pub strip_prefix : String → String → Option String
  pub has_suffix : String → String → Bool
  -- `strings.Contains`, the text first
  pub contains_text : String → String → Bool
  pub trim_space : String → String
  -- `strings.TrimRight(s, "/")`
  pub trim_slashes : String → String
  -- `jsonString`: `json.Marshal` of a string
  pub json_string : String → String
