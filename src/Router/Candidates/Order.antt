-- ===== src/Router/Candidates/Order.antt =====
-- What the order of a request does to the candidates.
use mathlib.Core.List.{append_assoc, append-nil}
use router_x.Base.{
  String, Bool, true, false, List, [], ◌∷◌, ◌++◌, ◌≡◌, refl, ◌⊎◌, inl, inr, arith, In, In-append,
  In-append_left, In-append_right, anyb, anyb-append, anyb_of_In, In-of_anyb, eq_iff, if◌then◌else◌,
  Bool-cases, All, All-append, ◌↔◌, sym,
}
use router_x.Store.Types.{Provider}
use router_x.Router.Candidates.{first_named, listed, same_id, append_remaining, in_order}

In-first_named :
    (name : String) (p : Provider) (ps : List Provider) → In p (first_named name ps) → In p ps
unfolding first_named
In-first_named name p [] h = h
In-first_named name p (q ∷ ps) h = ground (arith, In-first_named name p ps)

In-listed :
    (names : List String) (p : Provider) (ps : List Provider) → In p (listed names ps) → In p ps
unfolding listed
In-listed [] p ps h = absurd h
In-listed (name ∷ names) p ps h = ground (
  arith,
  In-append p (first_named name ps) (listed names ps) h,
  In-first_named name p ps,
  In-listed names p ps,
)

In-append_remaining :
    (p : Provider) (ordered ps : List Provider)
    → In p (append_remaining ordered ps)
    → In p ordered ⊎ In p ps
unfolding append_remaining
In-append_remaining p ordered [] h = inl h
In-append_remaining p ordered (q ∷ ps) h = elim (Bool-cases (anyb (same_id q) ordered)) [
  | inl e ↦ ground (arith, In-append_remaining p ordered ps (rw e at h))
  | inr e ↦ ground (
    arith,
    In-append_remaining p (ordered ++ q ∷ []) ps (rw e at h),
    In-append p ordered (q ∷ []),
  )
]

-- `append_remaining` keeps what is there.
append_remaining-keeps :
    (p : Provider) (ordered ps : List Provider) → In p ordered → In p (append_remaining ordered ps)
unfolding append_remaining
append_remaining-keeps p ordered [] h = h
append_remaining-keeps p ordered (q ∷ ps) h = elim (Bool-cases (anyb (same_id q) ordered)) [
  | inl e ↦ rw e (append_remaining-keeps p ordered ps h)
  | inr e ↦ rw e (append_remaining-keeps p (ordered ++ q ∷ []) ps (In-append_left p ordered _ h))
]

-- IDs tell the providers of a list apart: `id` is the primary key of the table.
abbrev pub IsKeyed : List Provider → Type 0
IsKeyed ps = (p q : Provider) → In p ps → In q ps → p.id ≡ q.id → p ≡ q

anyb-keeps :
    (t : Provider → Bool) (ordered ps : List Provider)
    → anyb t ordered ≡ true
    → anyb t (append_remaining ordered ps) ≡ true
anyb-keeps t ordered ps h =
    let (q, at, yes_) = In-of_anyb t ordered h in
    anyb_of_In t q (append_remaining ordered ps) (append_remaining-keeps q ordered ps at) yes_

same_id_refl : (p : Provider) → same_id p p ≡ true
same_id_refl p = (eq_iff p.id p.id).1 refl

anyb-append_remaining :
    (p : Provider) (ordered ps : List Provider)
    → In p ps
    → anyb (same_id p) (append_remaining ordered ps) ≡ true
unfolding append_remaining
anyb-append_remaining p ordered [] h = absurd h
anyb-append_remaining p ordered (q ∷ ps) (inr h) =
    anyb-append_remaining p (if anyb (same_id q) ordered then ordered else ordered ++ q ∷ []) ps h
anyb-append_remaining p ordered (q ∷ ps) (inl e) =
    rw e (elim (Bool-cases (anyb (same_id q) ordered)) [
      | inl seen ↦ rw seen (anyb-keeps (same_id q) ordered ps seen)
      | inr new ↦
          let longer : List Provider = ordered ++ q ∷ [] in
          let at : In q (append_remaining longer ps) =
            append_remaining-keeps q longer ps (In-append_right q ordered (q ∷ []) (inl refl)) in
          rw new (anyb_of_In (same_id q) q (append_remaining longer ps) at (same_id_refl q))
    ])

pub In-in_order :
    (names : List String) (p : Provider) (candidates : List Provider)
    → In p (in_order names candidates)
    → In p candidates
unfolding in_order
In-in_order names p candidates h = ground (
  arith,
  In-append_remaining p (listed names candidates) candidates h,
  In-listed names p candidates,
)

-- Ordering neither invents a candidate nor loses one.
pub in_order_iff :
    (names : List String) (p : Provider) (candidates : List Provider)
    → IsKeyed candidates
    → In p (in_order names candidates) ↔ In p candidates
unfolding in_order
in_order_iff names p candidates keyed = (
  λ h. In-in_order names p candidates h,
  λ h.
      let all : List Provider = listed names candidates in
      let (q, at, same) =
        In-of_anyb (same_id p) (append_remaining all candidates)
          (anyb-append_remaining p all candidates h) in
      let known : In q candidates =
        ground (arith, In-append_remaining q all candidates at, In-listed names q candidates) in
      rw (keyed p q h known (sym ((eq_iff q.id p.id).0 same))) at,
)

append_remaining_prefix :
    (base acc ps all : List Provider)
    → ((p : Provider) → In p ps → In p all)
    → All (λ p. (In p all) × (anyb (same_id p) base ≡ false)) acc
    → (rest : List Provider) × (append_remaining (base ++ acc) ps ≡ base ++ rest)
      × All (λ p. (In p all) × (anyb (same_id p) base ≡ false)) rest
unfolding append_remaining
append_remaining_prefix base acc [] all sub a = (acc, refl, a)
append_remaining_prefix base acc (q ∷ ps) all sub a =
    elim (Bool-cases (anyb (same_id q) (base ++ acc))) [
      | inl seen ↦ rw seen (append_remaining_prefix base acc ps all (λ p h. sub p (inr h)) a)
      | inr new ↦
          let fresh : anyb (same_id q) base ≡ false =
            ground (arith, anyb-append (same_id q) base acc) in
          rw (new, append_assoc base acc (q ∷ []))
            (append_remaining_prefix base (acc ++ q ∷ []) ps all (λ p h. sub p (inr h))
              (All-append _ acc (q ∷ []) a ((sub q (inl refl), fresh), tt)))
    ]

-- The candidates that the request names come first, in its order, and after them only candidates
-- that it did not bring there.
pub in_order_prefix :
    (names : List String) (candidates : List Provider)
    → (rest : List Provider) × (in_order names candidates ≡ listed names candidates ++ rest)
      × All (λ p. (In p candidates) × (anyb (same_id p) (listed names candidates) ≡ false)) rest
unfolding in_order
in_order_prefix names candidates =
    rw append-nil at
      (append_remaining_prefix (listed names candidates) [] candidates candidates (λ p h. h) tt)
