-- ===== src/Limiter/Slots.antt =====
-- The concurrency limit, with the commands of several requests of one tenant interleaved: `Acquire`
-- is one `INCR`, and one `DECR` more when it refuses; `Release` is one `DECR`.
use router_x.Base.Int.{ℤ, pos, ◌+ℤ◌, ◌-ℤ◌, ltb_ℤ}
use router_x.Base.{
  ◌∙◌, ap, ℕ, suc, ◌+◌, ◌≤◌, ◌≡◌, refl, ◌⊎◌, inl, inr, String, Bool, true, false, Result, ok, arith,
  Bool-cases, if_true, if_false, if◌then◌else◌,
}
use router_x.Limiter.{Redis, Limiter, acquire, conc_key, settle, is_one}

-- What is relied on: a server that answers, and counts a key up and down by one. Setting a time to
-- live does not change the value at once.
pub record CountsSlots {R : Type 0} (redis : Redis R) (count : R → String → ℤ) : Type 0 where
  pub answers : (key : String) (r : R) → (redis.incr key r).0 ≡ ok (count r key +ℤ pos 1)
  pub up : (key : String) (r : R) → count (redis.incr key r).1 key ≡ count r key +ℤ pos 1
  pub down : (key : String) (r : R) → count (redis.decr key r) key ≡ count r key -ℤ pos 1
  pub lives : (key : String) (n : ℕ) (r : R) → count (redis.expire key n r) key ≡ count r key

pub add_sub : (a : ℤ) → a +ℤ pos 1 -ℤ pos 1 ≡ a
unfolding ◌+ℤ◌ ◌-ℤ◌
add_sub a = ground arith

module _ {R : Type 0} (redis : Redis R) (l : Limiter) (count : R → String → ℤ)
    (c : CountsSlots redis count) where
  -- `Acquire` lets a request in, and counts it, exactly when the counter stays within the limit; it
  -- refuses otherwise, and then leaves the counter at what it was.
  pub acquire_exact :
      (tenant_id : String) (r : R)
      → let key = conc_key tenant_id in
        let (b, r') = acquire redis l tenant_id r in
        ((b ≡ ok true)
          × (ltb_ℤ (pos l.conc) (count r key +ℤ pos 1) ≡ false)
          × (count r' key ≡ count r key +ℤ pos 1))
        ⊎ ((b ≡ ok false)
            × (ltb_ℤ (pos l.conc) (count r key +ℤ pos 1) ≡ true)
            × (count r' key ≡ count r key))
  unfolding acquire
  acquire_exact tenant_id r =
      let key = conc_key tenant_id in
      let v = count r key +ℤ pos 1 in
      let r1 = (redis.incr key r).1 in
      let r2 = if is_one v then redis.expire key 60 r1 else r1 in
      let kept : count r2 key ≡ v = elim (Bool-cases (is_one v)) [
        | inl e ↦ rw e (c.lives key 60 r1 ∙ c.up key r)
        | inr e ↦ rw e (c.up key r)
      ] in
      let over : Bool = ltb_ℤ (pos l.conc) v in
      let refuse : Result Bool × R = (ok false, redis.decr key r2) in
      let admit : Result Bool × R = (ok true, r2) in
      rw (c.answers key r, settle)
        (elim (Bool-cases over) [
          | inl e ↦
              let picked = if_true over refuse admit e in
              inr (
                ap (λ x. x.0) picked,
                e,
                ap (λ x. count x.1 key) picked
                    ∙ c.down key r2
                    ∙ ap (λ n. n -ℤ pos 1) kept
                    ∙ add_sub (count r key),
              )
          | inr e ↦
              let picked = if_false over refuse admit e in
              inl (ap (λ x. x.0) picked, e, ap (λ x. count x.1 key) picked ∙ kept)
        ])

-- The counter of a tenant beside who is at work: requests that were let in and not released yet, and
-- refused ones that still have to count themselves out.
pub record Slots : Type 0 where
  pub count : ℤ
  pub holders : ℕ
  pub refusing : ℕ

abbrev pub idle : Slots
idle = record { count = pos 0; holders = 0; refusing = 0 }

-- One command while the key lives: nothing here has the key run out of its sixty seconds.
pub data Step (conc : ℕ) : Slots → Slots → Type 0 where
  granted :
      (s : Slots)
      → ltb_ℤ (pos conc) (s.count +ℤ pos 1) ≡ false
      → Step conc s (record s { count = s.count +ℤ pos 1; holders = s.holders + 1 })
  refused :
      (s : Slots)
      → ltb_ℤ (pos conc) (s.count +ℤ pos 1) ≡ true
      → Step conc s (record s { count = s.count +ℤ pos 1; refusing = s.refusing + 1 })
  returned :
      (s : Slots) (n : ℕ)
      → s.refusing ≡ suc n
      → Step conc s (record s { count = s.count -ℤ pos 1; refusing = n })
  released :
      (s : Slots) (n : ℕ)
      → s.holders ≡ suc n
      → Step conc s (record s { count = s.count -ℤ pos 1; holders = n })

pub data Reach (conc : ℕ) (s : Slots) : Slots → Type 0 where
  here : Reach conc s s
  next : {t u : Slots} → Reach conc s t → Step conc t u → Reach conc s u

record IsCounted (conc : ℕ) (s : Slots) : Type 0 where
  counted : s.count ≡ pos (s.holders + s.refusing)
  limited : s.holders ≤ conc

Step-IsCounted : {conc : ℕ} {s t : Slots} → Step conc s t → IsCounted conc s → IsCounted conc t
unfolding ◌+ℤ◌ ◌-ℤ◌
Step-IsCounted (granted s h) v = ground arith
Step-IsCounted (refused s h) v = ground arith
Step-IsCounted (returned s n h) v = ground arith
Step-IsCounted (released s n h) v = ground arith

Reach-IsCounted : {conc : ℕ} {s t : Slots} → IsCounted conc s → Reach conc s t → IsCounted conc t
Reach-IsCounted v here = v
Reach-IsCounted v (next r st) = Step-IsCounted st (Reach-IsCounted v r)

-- As long as the key does not run out, no interleaving of any number of requests lets more than
-- `conc` of them in at the same time.
pub holders-le-conc : (conc : ℕ) (s : Slots) → Reach conc idle s → s.holders ≤ conc
holders-le-conc conc s r =
    (Reach-IsCounted {conc = conc} {s = idle} (record { counted = refl; limited = omega arith })
      r).limited
