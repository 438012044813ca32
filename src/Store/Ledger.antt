-- ===== src/Store/Ledger.antt =====
-- What the statements leave of each other.
use router_x.Base.{Bool, ◌≡◌, refl, Option, none, some, List, [], ◌∷◌, arith}
use router_x.Store.Db.{find_row, update_rows}

module _ {A : Type 0} (p : A → Bool) where
  -- Two updates of the same rows are one, if the first does not move a row out of their sight.
  pub update_rows-update_rows :
      (f g : A → A) (xs : List A)
      → ((x : A) → p (g x) ≡ p x)
      → update_rows p f (update_rows p g xs) ≡ update_rows p (λ x. f (g x)) xs
  unfolding update_rows
  update_rows-update_rows f g [] keeps = refl
  update_rows-update_rows f g (x ∷ xs) keeps =
      ground (arith, keeps x, update_rows-update_rows f g xs keeps)

  -- Reading the first row after an update of the rows like it.
  pub find_row-update_rows :
      (f : A → A) (xs : List A)
      → ((x : A) → p (f x) ≡ p x)
      → find_row p (update_rows p f xs)
        ≡ elim (find_row p xs) as (λ o. Option A) [ none ↦ none | some x ↦ some (f x) ]
  unfolding find_row update_rows
  find_row-update_rows f [] keeps = refl
  find_row-update_rows f (x ∷ xs) keeps = ground (arith, keeps x, find_row-update_rows f xs keeps)
