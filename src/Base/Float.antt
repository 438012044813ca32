-- ===== src/Base/Float.antt =====
-- Go's `float64` as an interface: the operations on money that the code uses, with no law. A theorem
-- that needs a law takes it as a hypothesis. `Micros` is an instance, on which tests run.
use Prim.Native.Nat.{ℕ, ◌*◌, ◌/◌, ◌^◌}
use mathlib.Core.Bool.{Bool}
use router_x.Base.Int.{ℤ, pos, ◌+ℤ◌, ◌-ℤ◌, ◌*ℤ◌, ◌/ℤ◌, ltb_ℤ, leb_ℤ}

pub record Float64 (F : Type 0) : Type 0 where
  pub zero_f : F
  pub add : F → F → F
  pub sub : F → F → F
  pub mul : F → F → F
  pub div : F → F → F
  pub neg : F → F
  -- `float64(n)`
  pub of_int : ℤ → F
  -- The decimal literal `m / 10 ^ k`.
  pub literal : ℕ → ℕ → F
  pub lt : F → F → Bool
  pub le : F → F → Bool

-- Millionths of a dollar.
abbrev pub Micros : Type 0
Micros = ℤ

abbrev scale : ℕ
scale = 1_000_000

abbrev divide_micros : Micros → Micros → Micros
divide_micros a (pos d) = (a *ℤ pos scale) /ℤ d
divide_micros a b = pos 0

instance abbrev pub micros_float : Float64 Micros
micros_float = record {
  zero_f = pos 0;
  add = ◌+ℤ◌;
  sub = ◌-ℤ◌;
  mul = λ a b. (a *ℤ b) /ℤ scale;
  div = divide_micros;
  neg = λ a. pos 0 -ℤ a;
  of_int = λ n. n *ℤ pos scale;
  literal = λ m k. pos (m * scale / 10 ^ k);
  lt = ltb_ℤ;
  le = leb_ℤ;
}
