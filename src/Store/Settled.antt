-- ===== src/Store/Settled.antt =====
-- When the balances of the tenants agree with the ledger, and the statements that keep it so.
use router_x.Base.{
  String, false, ◌≡◌, refl, ◌∙◌, ap, inl, inr, Option, none, some, List, [], ◌∷◌, ◌++◌, str_eq,
  eq_iff, arith, Bool-cases, if◌then◌else◌,
}
use router_x.Store.Types.{Tenant, BalanceTransaction}
use router_x.Store.Db.{find_row, update_rows, upsert_row}
use router_x.Store.Tenants.{has_id}
use router_x.Store.Ledger.{find_row-update_rows}

str_eq-apart : (x y : String) → str_eq x y ≡ false → str_eq y x ≡ false
str_eq-apart x y e = ground (arith, eq_iff x y, eq_iff y x)

module _ {F : Type 0} where
  abbrev or_else : Option F → Option F → Option F
  or_else none o = o
  or_else (some a) o = some a

  -- The balance that the last row of a tenant in the ledger names.
  unfoldable pub last_after : String → List (BalanceTransaction F) → Option F
  last_after id [] = none
  last_after id (x ∷ xs) =
      let rest = last_after id xs in
      or_else rest (if str_eq x.tenant_id id then some x.balance_after else none)

  -- A tenant that has rows in the ledger has the balance that the last of them names.
  abbrev pub IsSettled : List (BalanceTransaction F) → List (Tenant F) → String → Type 0
  IsSettled ledger tenants id =
      (a : F)
      → last_after id ledger ≡ some a
      → (t : Tenant F) × (find_row (has_id id) tenants ≡ some t) × (t.balance_usd ≡ a)

  last_after-append :
      (id : String) (xs : List (BalanceTransaction F)) (x : BalanceTransaction F)
      → last_after id (xs ++ x ∷ [])
        ≡ (if str_eq x.tenant_id id then some x.balance_after else last_after id xs)
  unfolding last_after
  last_after-append id [] x = ground arith
  last_after-append id (y ∷ ys) x = rw (last_after-append id ys x) (ground arith)

  -- An update of one tenant's row is not seen by a query for another.
  find_row-update_other :
      (x id : String) (f : Tenant F → Tenant F) (ts : List (Tenant F))
      → ((t : Tenant F) → (f t).id ≡ t.id)
      → str_eq x id ≡ false
      → find_row (has_id x) (update_rows (has_id id) f ts) ≡ find_row (has_id x) ts
  unfolding find_row update_rows
  find_row-update_other x id f [] keeps other = refl
  find_row-update_other x id f (t ∷ ts) keeps other = ground (
    arith,
    keeps t,
    eq_iff t.id id,
    eq_iff t.id x,
    eq_iff x id,
    find_row-update_other x id f ts keeps other,
  )

  module _ (ledger : List (BalanceTransaction F)) (tenants : List (Tenant F)) where
    -- A row of the ledger beside an update of its tenant to the balance that it names.
    pub posted-IsSettled :
        (row : BalanceTransaction F) (f : Tenant F → Tenant F) (owner : Tenant F)
        → find_row (has_id row.tenant_id) tenants ≡ some owner
        → ((t : Tenant F) → (f t).id ≡ t.id)
        → ((t : Tenant F) → (f t).balance_usd ≡ row.balance_after)
        → ((id : String) → IsSettled ledger tenants id)
        → (id : String)
        → IsSettled (ledger ++ row ∷ []) (update_rows (has_id row.tenant_id) f tenants) id
    posted-IsSettled row f owner found keeps sets settled id a last =
        elim (Bool-cases (str_eq row.tenant_id id)) [
          | inl e ↦
              let here : row.tenant_id ≡ id = (eq_iff row.tenant_id id).0 e in
              let named : row.balance_after ≡ a =
                cc (rw (last_after-append id ledger row, e) at last) in
              (
                f owner,
                rw (← here) (
                    find_row-update_rows (has_id row.tenant_id) f tenants (λ t. rw (keeps t) refl)
                    ∙ ap
                        (λ o. elim o as (λ p. Option (Tenant F)) [
                          | none ↦ none
                          | some x ↦ some (f x)
                        ])
                        found),
                sets owner ∙ named,
              )
          | inr e ↦
              let (t, at, same) = settled id a (rw (last_after-append id ledger row, e) at last) in
              (
                t,
                find_row-update_other id row.tenant_id f tenants keeps
                      (str_eq-apart row.tenant_id id e)
                    ∙ at,
                same,
              )
        ]

    -- Any update of a tenant that the ledger has no row of.
    pub unposted-IsSettled :
        (owner : String) (f : Tenant F → Tenant F)
        → last_after owner ledger ≡ none
        → ((t : Tenant F) → (f t).id ≡ t.id)
        → ((id : String) → IsSettled ledger tenants id)
        → (id : String) → IsSettled ledger (update_rows (has_id owner) f tenants) id
    unposted-IsSettled owner f fresh keeps settled id a last = elim (Bool-cases (str_eq id owner)) [
      | inl e ↦ let gone : last_after id ledger ≡ none = rw ((eq_iff id owner).0 e) fresh in cc
      | inr e ↦
          let (t, at, same) = settled id a last in
          (t, find_row-update_other id owner f tenants keeps e ∙ at, same)
    ]

    -- An update that moves no balance.
    pub kept-IsSettled :
        (owner : String) (f : Tenant F → Tenant F)
        → ((t : Tenant F) → (f t).id ≡ t.id)
        → ((t : Tenant F) → (f t).balance_usd ≡ t.balance_usd)
        → ((id : String) → IsSettled ledger tenants id)
        → (id : String) → IsSettled ledger (update_rows (has_id owner) f tenants) id
    kept-IsSettled owner f keeps leaves settled id a last =
        let (t, at, same) = settled id a last in
        elim (Bool-cases (str_eq id owner)) [
          | inl e ↦
              let here : id ≡ owner = (eq_iff id owner).0 e in
              (
                f t,
                rw (← here) (
                    find_row-update_rows (has_id id) f tenants (λ x. rw (keeps x) refl)
                    ∙ ap
                        (λ o. elim o as (λ p. Option (Tenant F)) [
                          | none ↦ none
                          | some x ↦ some (f x)
                        ])
                        at),
                leaves t ∙ same,
              )
          | inr e ↦ (t, find_row-update_other id owner f tenants keeps e ∙ at, same)
        ]

  -- A tenant that is there keeps its balance when another, or the same one again, is created.
  find_row-upsert_row :
      (x id : String) (f : Tenant F → Tenant F) (new : Tenant F) (ts : List (Tenant F))
      (t : Tenant F)
      → ((u : Tenant F) → (f u).id ≡ u.id)
      → ((u : Tenant F) → (f u).balance_usd ≡ u.balance_usd)
      → find_row (has_id x) ts ≡ some t
      → (u : Tenant F) × (find_row (has_id x) (upsert_row (has_id id) f new ts) ≡ some u)
        × (u.balance_usd ≡ t.balance_usd)
  unfolding find_row upsert_row
  find_row-upsert_row x id f new [] t keeps leaves h = cc
  find_row-upsert_row x id f new (y ∷ ys) t keeps leaves h = elim (Bool-cases (str_eq y.id id)) [
    | inl same ↦ elim (Bool-cases (str_eq y.id x)) [
      | inl here ↦
          let e : y ≡ t = cc (rw here at h) in
          (f y, rw (same, keeps y, here) refl, leaves y ∙ ap (λ (u : Tenant F). u.balance_usd) e)
      | inr not ↦ (t, rw (same, keeps y, not) (rw not at h), refl)
    ]
    | inr other ↦ elim (Bool-cases (str_eq y.id x)) [
      | inl here ↦
          let e : y ≡ t = cc (rw here at h) in
          (y, rw (other, here) refl, ap (λ (u : Tenant F). u.balance_usd) e)
      | inr not ↦
          let (u, at, same) = find_row-upsert_row x id f new ys t keeps leaves (rw not at h) in
          (u, rw (other, not) at, same)
    ]
  ]

  pub upserted-IsSettled :
      (ledger : List (BalanceTransaction F)) (tenants : List (Tenant F)) (owner : String)
      (f : Tenant F → Tenant F) (new : Tenant F)
      → ((u : Tenant F) → (f u).id ≡ u.id)
      → ((u : Tenant F) → (f u).balance_usd ≡ u.balance_usd)
      → ((id : String) → IsSettled ledger tenants id)
      → (id : String) → IsSettled ledger (upsert_row (has_id owner) f new tenants) id
  upserted-IsSettled ledger tenants owner f new keeps leaves settled id a last =
      let (t, at, same) = settled id a last in
      let (u, found, kept) = find_row-upsert_row id owner f new tenants t keeps leaves at in
      (u, found, kept ∙ same)
