-- ===== src/Providers/Stream.antt =====
-- What the three readers of event streams of backend/internal/providers/provider.go share.
use router_x.Base.Int.{ℤ, pos, negsuc}
use router_x.Base.{◌/◌, String, Bool, false, ◌==◌, Option, none, is_empty, ltb, if◌then◌else◌}
use router_x.Providers.Wire.{Formats}

-- What a reader has collected: `fullText`, `totalTokens` and `respID`.
pub record Progress : Type 0 where
  pub text : String
  pub tokens : ℤ
  pub id : String

abbrev pub no_progress : Progress
no_progress = record { text = ""; tokens = pos 0; id = "" }

-- How the loop over the lines ends: through it, or by a `send` that failed.
pub data Ended : Type 0 where
  finished : Progress → Ended
  broken : ℤ → String → Ended

-- The event of a line, unless the loop skips it.
unfoldable pub event_of : Formats → String → Option String
event_of formats line = if is_empty line then none else formats.strip_prefix "data: " line

abbrev pub is_zero : ℤ → Bool
is_zero (pos n) = n == 0
is_zero (negsuc n) = false

-- `totalTokens` with its estimate: a fourth of the bytes, and at least one.
unfoldable pub settled_tokens : Formats → Progress → ℤ
settled_tokens formats p =
    let estimate = formats.byte_length p.text / 4 in
    if is_zero p.tokens then (if ltb estimate 1 then pos 1 else pos estimate) else p.tokens
