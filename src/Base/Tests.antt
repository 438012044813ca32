-- ===== src/Base/Tests.antt =====
-- Boolean tests on the native numbers, the conditional, and case lemmas that keep the equation.
use Prim.Native.Nat.{ℕ, compare, Ordering}
use mathlib.Core.Path.{◌≡◌, refl}
use mathlib.Core.Logic.{◌⊎◌, inl, inr}
use mathlib.Core.Bool.{Bool, true, false}
use mathlib.Core.Option.{Option, none, some}

abbrev pub ltb : ℕ → ℕ → Bool
ltb a b = elim (compare a b) [ Ordering.lt ↦ true | _ ↦ false ]

abbrev pub leb : ℕ → ℕ → Bool
leb a b = elim (compare a b) [ Ordering.gt ↦ false | _ ↦ true ]

infix 50 ◌==◌
abbrev pub ◌==◌ : ℕ → ℕ → Bool
a == b = elim (compare a b) [ Ordering.eq ↦ true | _ ↦ false ]

infix 1 if◌then◌else◌
abbrev pub if◌then◌else◌ {ℓ} : {A : Type ℓ} → Bool → A → A → A
if true then x else y = x
if false then x else y = y

pub Bool-cases : (b : Bool) → (b ≡ true) ⊎ (b ≡ false)
Bool-cases true = inl refl
Bool-cases false = inr refl

pub Option-cases {ℓ} : {A : Type ℓ} (o : Option A) → (o ≡ none) ⊎ ((a : A) × (o ≡ some a))
Option-cases none = inl refl
Option-cases (some a) = inr (a, refl)

module _ {ℓ} {A : Type ℓ} (b : Bool) (x y : A) where
  pub if_true : b ≡ true → (if b then x else y) ≡ x
  if_true e = rw e

  pub if_false : b ≡ false → (if b then x else y) ≡ y
  if_false e = rw e

-- The cases of an `elim` under a predicate.
pub Option-split :
    {A B : Type 0}
    → (P : B → Type 0) (o : Option A) {x : B} {f : A → B} → P x
    → ((a : A) → P (f a))
    → P (elim o as (λ _. B) [ none ↦ x | some a ↦ f a ])
Option-split P none h k = h
Option-split P (some a) h k = k a

pub Bool-split :
    {B : Type 0}
    → (P : B → Type 0) (b : Bool) {x y : B} → P x
    → P y
    → P (elim b as (λ _. B) [ true ↦ x | false ↦ y ])
Bool-split P true h k = h
Bool-split P false h k = k

pub if-split :
    {B : Type 0} → (P : B → Type 0) (b : Bool) {x y : B} → P x → P y → P (if b then x else y)
if-split P true h k = h
if-split P false h k = k

-- The same, with what is known in each case.
pub if-known :
    {B : Type 0}
    → (P : B → Type 0) (b : Bool) {x y : B} → (b ≡ true → P x)
    → (b ≡ false → P y)
    → P (if b then x else y)
if-known P true h k = h refl
if-known P false h k = k refl

pub Option-known :
    {A B : Type 0}
    → (P : B → Type 0) (o : Option A) {x : B} {f : A → B} → P x
    → ((a : A) → o ≡ some a → P (f a))
    → P (elim o as (λ _. B) [ none ↦ x | some a ↦ f a ])
Option-known P none h k = h
Option-known P (some a) h k = k a refl
