-- ===== src/Base/Text.antt =====
-- Whole texts compared, as the Go code compares identifiers, tags and header values.
use mathlib.Core.Bool.{Bool}
use Prim.Native.String.{String}
use text.Mathlib.Text.{◌==◌}

abbrev pub str_eq : String → String → Bool
str_eq s t = s == t

-- The empty text, which Go code uses for "not given".
abbrev pub is_empty : String → Bool
is_empty s = s == ""
