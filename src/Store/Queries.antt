-- ===== src/Store/Queries.antt =====
-- What a query returns, and that it changes no table.
use router_x.Base.{
  Bool, true, false, Option, none, some, List, [], ◌∷◌, ok, ◌≡◌, refl, In, inl, inr, Bool-cases,
  map, All,
}
use router_x.Store.Db.{Tables, Db, query_row, or_no_rows, find_row}

module _ {F A : Type 0} (f : Tables F → Option A) where
  pub query_row-tables : (db : Db F) → (query_row f db).1.tables ≡ db.tables
  unfolding query_row
  query_row-tables db =
      elim db.outages as (λ o. (query_row f (record db { outages = o })).1.tables ≡ db.tables) [
        | [] ↦ refl
        | true ∷ rest ↦ refl
        | false ∷ rest ↦ refl
      ]

  or_no_rows-eq-ok : (o : Option A) (a : A) → or_no_rows o ≡ ok a → o ≡ some a
  or_no_rows-eq-ok none a h = cc
  or_no_rows-eq-ok (some b) a h = cc

  pub query_row-eq-ok : (db : Db F) (a : A) → (query_row f db).0 ≡ ok a → f db.tables ≡ some a
  unfolding query_row
  query_row-eq-ok db a =
      elim db.outages
        as (λ o. (query_row f (record db { outages = o })).0 ≡ ok a → f db.tables ≡ some a) [
          | [] ↦ or_no_rows-eq-ok (f db.tables) a
          | true ∷ rest ↦ λ h. cc
          | false ∷ rest ↦ or_no_rows-eq-ok (f db.tables) a
        ]

module _ {A : Type 0} where
  pub In-find_row : (p : A → Bool) (a : A) (xs : List A) → find_row p xs ≡ some a → In a xs
  unfolding find_row
  In-find_row p a [] h = cc
  In-find_row p a (x ∷ xs) h = elim (Bool-cases (p x)) [
    | inl e ↦ inl (cc (rw e at h))
    | inr e ↦ inr (In-find_row p a xs (rw e at h))
  ]

  pub All-map :
      {B : Type 0}
      → (P : B → Type 0) (g : A → B) (xs : List A) → ((a : A) → In a xs → P (g a))
      → All P (map g xs)
  All-map P g [] h = tt
  All-map P g (x ∷ xs) h = (h x (inl refl), All-map P g xs (λ a at. h a (inr at)))
