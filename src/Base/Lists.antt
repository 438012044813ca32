-- ===== src/Base/Lists.antt =====
-- Lists measured by native numbers, filters by Boolean tests, and the predicate `All`.
use Prim.Native.Nat.{ℕ, zero, suc, ◌+◌, ◌-◌, ◌≤◌}
use mathlib.Core.Path.{◌≡◌, refl, sym, ap, ◌∙◌}
use mathlib.Core.Logic.{◌⊎◌, inl, inr, ◌↔◌}
use mathlib.Core.Bool.{Bool, true, false, ◌&&◌, ◌||◌}
use mathlib.Core.List.{List, [], ◌∷◌, ◌++◌}
use native.Mathlib.Omega.{arith}
use router_x.Base.Tests.{Bool-cases, if◌then◌else◌}

module _ {ℓ} {A : Type ℓ} where
  abbrev pub length : List A → ℕ
  length [] = 0
  length (x ∷ xs) = suc (length xs)

  abbrev pub drop : ℕ → List A → List A
  drop zero xs = xs
  drop (suc n) [] = []
  drop (suc n) (x ∷ xs) = drop n xs

  abbrev pub take : ℕ → List A → List A
  take zero xs = []
  take (suc n) [] = []
  take (suc n) (x ∷ xs) = x ∷ take n xs

  abbrev pub filterb : (A → Bool) → List A → List A
  filterb p [] = []
  filterb p (x ∷ xs) = let rest = filterb p xs in if p x then x ∷ rest else rest

  abbrev pub anyb : (A → Bool) → List A → Bool
  anyb p [] = false
  anyb p (x ∷ xs) = p x || anyb p xs

  abbrev pub All {κ} : (A → Type κ) → List A → Type κ
  All P [] = Unit
  All P (x ∷ xs) = P x × All P xs

  pub length-append : (xs ys : List A) → length (xs ++ ys) ≡ length xs + length ys
  length-append [] ys = omega arith
  length-append (x ∷ xs) ys = omega (arith, length-append xs ys)

  pub length-drop : (n : ℕ) (xs : List A) → length (drop n xs) ≡ length xs - n
  length-drop zero xs = omega arith
  length-drop (suc n) [] = omega arith
  length-drop (suc n) (x ∷ xs) = omega (arith, length-drop n xs)

  pub drop-append : (n : ℕ) (xs ys : List A) → n ≤ length xs → drop n (xs ++ ys) ≡ drop n xs ++ ys
  drop-append zero xs ys h = refl
  drop-append (suc n) [] ys h = absurd (omega arith)
  drop-append (suc n) (x ∷ xs) ys h = drop-append n xs ys (omega arith)

  -- A list skipped as a whole, and some of the next.
  pub drop_past :
      (n : ℕ) (xs ys : List A) → length xs ≤ n → drop n (xs ++ ys) ≡ drop (n - length xs) ys
  drop_past n [] ys h = let e : n ≡ n - 0 = omega arith in ap (λ m. drop m ys) e
  drop_past zero (x ∷ xs) ys h = absurd (omega arith)
  drop_past (suc n) (x ∷ xs) ys h =
      let e : n - length xs ≡ suc n - suc (length xs) = omega arith in
      drop_past n xs ys (omega arith) ∙ ap (λ m. drop m ys) e

  drop-nil : (n : ℕ) → drop n [] ≡ []
  drop-nil zero = refl
  drop-nil (suc n) = refl

  pub drop-drop : (n m : ℕ) (xs : List A) → drop n (drop m xs) ≡ drop (m + n) xs
  drop-drop n zero xs = ap (λ k. drop k xs) (omega arith)
  drop-drop n (suc m) [] = drop-nil n ∙ sym (drop-nil (suc m + n))
  drop-drop n (suc m) (x ∷ xs) =
      let e : suc (m + n) ≡ suc m + n = omega arith in
      drop-drop n m xs ∙ ap (λ k. drop k (x ∷ xs)) e

  pub drop-zero_of_le : (n : ℕ) (xs : List A) → n ≤ 0 → drop n xs ≡ xs
  drop-zero_of_le zero xs h = refl
  drop-zero_of_le (suc n) xs h = absurd (omega arith)

  abbrev pub replicate : ℕ → A → List A
  replicate zero a = []
  replicate (suc n) a = a ∷ replicate n a

  pub length-replicate : (n : ℕ) (a : A) → length (replicate n a) ≡ n
  length-replicate zero a = refl
  length-replicate (suc n) a = ap suc (length-replicate n a)

  pub drop-replicate : (k n : ℕ) (a : A) → drop k (replicate n a) ≡ replicate (n - k) a
  drop-replicate zero n a = ap (λ m. replicate m a) (omega arith)
  drop-replicate (suc k) zero a = let e : 0 ≡ 0 - suc k = omega arith in ap (λ m. replicate m a) e
  drop-replicate (suc k) (suc n) a =
      let e : n - k ≡ suc n - suc k = omega arith in
      drop-replicate k n a ∙ ap (λ m. replicate m a) e

  pub All-append {κ} : (P : A → Type κ) (xs ys : List A) → All P xs → All P ys → All P (xs ++ ys)
  All-append P [] ys _ q = q
  All-append P (x ∷ xs) ys (p, ps) q = (p, All-append P xs ys ps q)

  pub All-drop {κ} : (P : A → Type κ) (n : ℕ) (xs : List A) → All P xs → All P (drop n xs)
  All-drop P zero xs a = a
  All-drop P (suc n) [] a = tt
  All-drop P (suc n) (x ∷ xs) a = All-drop P n xs a.1

-- Taking in two steps.
module _ {ℓ} {A : Type ℓ} where
  pub take-drop : (n m : ℕ) (xs : List A) → take n xs ++ take m (drop n xs) ≡ take (n + m) xs
  take-drop zero m xs = let e : m ≡ 0 + m = omega arith in ap (λ k. take k xs) e
  take-drop (suc n) zero [] = let e : suc n ≡ suc n + 0 = omega arith in ap (λ k. take k []) e
  take-drop (suc n) (suc m) [] =
      let e : suc (n + suc m) ≡ suc n + suc m = omega arith in ap (λ k. take k []) e
  take-drop (suc n) m (x ∷ xs) =
      let e : suc (n + m) ≡ suc n + m = omega arith in
      ap (◌∷◌ x) (take-drop n m xs) ∙ ap (λ k. take k (x ∷ xs)) e

-- The last `w` entries, as `s[len(s)-w:]` keeps them when there are more.
module _ {ℓ} {A : Type ℓ} where
  abbrev pub keep_last : ℕ → List A → List A
  keep_last w xs = drop (length xs - w) xs

  pub length-keep_last : (w : ℕ) (xs : List A) → length (keep_last w xs) ≤ w
  length-keep_last w xs = omega (arith, length-drop (length xs - w) xs)

  -- A window of a window that was then extended is the window of the whole.
  pub keep_last-append :
      (w : ℕ) (xs ys : List A) → keep_last w (keep_last w xs ++ ys) ≡ keep_last w (xs ++ ys)
  keep_last-append w xs ys =
      let n : ℕ = length xs - w in
      rw (← drop-append n xs ys (omega arith)) (
        drop-drop (length (drop n (xs ++ ys)) - w) n (xs ++ ys)
        ∙ ap (λ k. drop k (xs ++ ys))
            (omega (arith, length-drop n (xs ++ ys), length-append xs ys)))

  pub keep_last_short : (w : ℕ) (xs : List A) → length xs ≤ w → keep_last w xs ≡ xs
  keep_last_short w xs h = drop-zero_of_le (length xs - w) xs (omega arith)

-- Membership, for proofs that split on where the entry stands.
module _ {A : Type 0} where
  abbrev pub In : A → List A → Type 0
  In a [] = ⊥
  In a (x ∷ xs) = (a ≡ x) ⊎ In a xs

  pub In-append_left : (a : A) (xs ys : List A) → In a xs → In a (xs ++ ys)
  In-append_left a [] ys h = absurd h
  In-append_left a (x ∷ xs) ys (inl e) = inl e
  In-append_left a (x ∷ xs) ys (inr h) = inr (In-append_left a xs ys h)

  pub In-append_right : (a : A) (xs ys : List A) → In a ys → In a (xs ++ ys)
  In-append_right a [] ys h = h
  In-append_right a (x ∷ xs) ys h = inr (In-append_right a xs ys h)

  pub In-append : (a : A) (xs ys : List A) → In a (xs ++ ys) → In a xs ⊎ In a ys
  In-append a [] ys h = inr h
  In-append a (x ∷ xs) ys (inl e) = inl (inl e)
  In-append a (x ∷ xs) ys (inr h) = ground (arith, In-append a xs ys h)

  pub In-filterb_iff :
      (p : A → Bool) (a : A) (xs : List A) → In a (filterb p xs) ↔ (In a xs × (p a ≡ true))
  In-filterb_iff p a [] = (λ h. absurd h, λ h. h.0)
  In-filterb_iff p a (x ∷ xs) = (
    λ h. ground (arith, (In-filterb_iff p a xs).0),
    λ h. ground (arith, (In-filterb_iff p a xs).1),
  )

  pub anyb_of_In : (p : A → Bool) (a : A) (xs : List A) → In a xs → p a ≡ true → anyb p xs ≡ true
  anyb_of_In p a [] h e = absurd h
  anyb_of_In p a (x ∷ xs) h e = ground (arith, anyb_of_In p a xs)

  pub anyb-append : (p : A → Bool) (xs ys : List A) → anyb p (xs ++ ys) ≡ (anyb p xs || anyb p ys)
  anyb-append p [] ys = refl
  anyb-append p (x ∷ xs) ys = ground (arith, anyb-append p xs ys)

  pub In-of_anyb :
      (p : A → Bool) (xs : List A) → anyb p xs ≡ true → (a : A) × In a xs × (p a ≡ true)
  In-of_anyb p [] h = cc
  In-of_anyb p (x ∷ xs) h = elim (Bool-cases (p x)) [
    | inl e ↦ (x, inl refl, e)
    | inr e ↦ let (a, at, ok) = In-of_anyb p xs (rw e at h) in (a, inr at, ok)
  ]

  pub In-All : (P : A → Type 0) (a : A) (xs : List A) → All P xs → In a xs → P a
  In-All P a [] h at = absurd at
  In-All P a (x ∷ xs) h (inl e) = rw e h.0
  In-All P a (x ∷ xs) h (inr at) = In-All P a xs h.1 at

  pub All-of_In : (P : A → Type 0) (xs : List A) → ((a : A) → In a xs → P a) → All P xs
  All-of_In P [] h = tt
  All-of_In P (x ∷ xs) h = (h x (inl refl), All-of_In P xs (λ a at. h a (inr at)))

  abbrev pub allb : (A → Bool) → List A → Bool
  allb p [] = true
  allb p (x ∷ xs) = p x && allb p xs

  pub In-allb : (p : A → Bool) (a : A) (xs : List A) → allb p xs ≡ true → In a xs → p a ≡ true
  In-allb p a [] h at = absurd at
  In-allb p a (x ∷ xs) h at = ground (arith, In-allb p a xs)
