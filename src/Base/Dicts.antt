-- ===== src/Base/Dicts.antt =====
-- Go's `map[string]V`: an association list with the laws of reads after writes.
use mathlib.Core.Path.{◌≡◌, refl}
use mathlib.Core.List.{List, [], ◌∷◌}
use mathlib.Core.Option.{Option, none, some}
use native.Mathlib.Omega.{arith}
use Prim.Native.String.{String}
use text.Mathlib.TextEquality.{eq_iff}
use router_x.Base.Tests.{if◌then◌else◌}
use router_x.Base.Text.{str_eq}

abbrev pub Assoc {ℓ} : Type ℓ → Type ℓ
Assoc V = List (String × V)

-- A missing key reads as `none`; a write replaces the first entry of its key or adds one at the end.
module _ {ℓ} {V : Type ℓ} where
  unfoldable pub lookup : String → Assoc V → Option V
  lookup name [] = none
  lookup name (entry ∷ rest) =
      let found = lookup name rest in if str_eq entry.0 name then some entry.1 else found

  unfoldable pub insert : String → V → Assoc V → Assoc V
  insert name value [] = (name, value) ∷ []
  insert name value (entry ∷ rest) =
      let later = insert name value rest in
      if str_eq entry.0 name then (name, value) ∷ rest else entry ∷ later

  -- A write is seen under its own key only.
  pub lookup-insert :
      (written read : String) (value : V) (dict : Assoc V)
      → lookup read (insert written value dict)
        ≡ (if str_eq written read then some value else lookup read dict)
  unfolding lookup insert
  lookup-insert written read value [] = refl
  lookup-insert written read value (entry ∷ rest) = ground (
    arith,
    lookup-insert written read value rest,
    eq_iff entry.0 read,
    eq_iff entry.0 written,
    eq_iff written read,
  )
