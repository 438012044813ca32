-- ===== src/Router/Circuit/Recovery.antt =====
-- A provider that comes back after an outage. `Record` re-reads the whole window after every call,
-- successful or not, and the window is not cleared when the cooldown ends.
use mathlib.Core.List.{append_assoc}
use router_x.Base.{
  ℕ, zero, suc, ◌+◌, ◌-◌, ◌≤◌, ◌<◌, ◌≡◌, refl, sym, ap, Bool, true, false, List, [], ◌∷◌, ◌++◌,
  arith, length, length-append, length-replicate, drop-replicate, drop-append, replicate, keep_last,
  drop, drop_past, ◌∙◌, leb, if◌then◌else◌,
}
use router_x.Router.Circuit.{fresh, failures, should_open}
use router_x.Router.Circuit.Window.{run, outcomes, outcomes-append, open_until-run}

-- Calls at the given times that all have the same outcome.
abbrev pub calls_at : Bool → List ℕ → List (ℕ × Bool)
calls_at ok [] = []
calls_at ok (t ∷ ts) = (t, ok) ∷ calls_at ok ts

outcomes-calls_at : (ok : Bool) (ts : List ℕ) → outcomes (calls_at ok ts) ≡ replicate (length ts) ok
outcomes-calls_at ok [] = refl
outcomes-calls_at ok (t ∷ ts) = ap (◌∷◌ ok) (outcomes-calls_at ok ts)

failures-append : (xs ys : List Bool) → failures (xs ++ ys) ≡ failures xs + failures ys
unfolding failures
failures-append [] ys = omega arith
failures-append (x ∷ xs) ys = omega (arith, failures-append xs ys)

failures-replicate : (n : ℕ) (ok : Bool) → failures (replicate n ok) ≡ (if ok then 0 else n)
unfolding failures
failures-replicate zero ok = ground arith
failures-replicate (suc n) ok = ground (arith, failures-replicate n ok)

-- The window of size `w` after `w` failures in a row and then `k` successes.
window_after :
    (w k : ℕ) (before : List Bool)
    → k ≤ w
    → keep_last w (before ++ (replicate w false ++ replicate k true))
      ≡ replicate (w - k) false ++ replicate k true
window_after w k before h =
    let all : List Bool = before ++ (replicate w false ++ replicate k true) in
    let e : length all - w ≡ length before + k = omega (
      arith,
      length-append before (replicate w false ++ replicate k true),
      length-append (replicate w false) (replicate k true),
      length-replicate w false,
      length-replicate k true,
    ) in
    let e' : length before + k - length before ≡ k = omega arith in
    ap (λ n. drop n all) e
    ∙ drop_past (length before + k) before (replicate w false ++ replicate k true) (omega arith)
    ∙ ap (λ n. drop n (replicate w false ++ replicate k true)) e'
    ∙ drop-append k (replicate w false) (replicate k true) (omega (arith, length-replicate w false))
    ∙ ap (λ s. s ++ replicate k true) (drop-replicate k w false)

-- Its size and its failures, for the window of twenty.
counts_after :
    (k : ℕ) (before : List Bool)
    → k ≤ 20
    → let s = keep_last 20 (before ++ (replicate 20 false ++ replicate k true)) in
      (length s ≡ 20) × (failures s ≡ 20 - k)
counts_after k before h =
    let zeros : List Bool = replicate (20 - k) false in
    let ones : List Bool = replicate k true in
    rw (window_after 20 k before h) (
      omega (
        arith,
        length-append zeros ones,
        length-replicate (20 - k) false,
        length-replicate k true,
        failures-append zeros ones,
        failures-replicate (20 - k) false,
        failures-replicate k true,
      ))

-- A history that ends in twenty failures and then `k` successes.
abbrev pub outage : List (ℕ × Bool) → List ℕ → List ℕ → List (ℕ × Bool)
outage before down up = before ++ (calls_at false down ++ calls_at true up)

outcomes-outage :
    (before : List (ℕ × Bool)) (down up : List ℕ)
    → length down ≡ 20
    → outcomes (outage before down up)
      ≡ outcomes before ++ (replicate 20 false ++ replicate (length up) true)
outcomes-outage before down up e = rw (
  outcomes-append before (calls_at false down ++ calls_at true up),
  outcomes-append (calls_at false down) (calls_at true up),
  outcomes-calls_at false down,
  outcomes-calls_at true up,
  e,
)

calls_at-append :
    (ok : Bool) (xs ys : List ℕ) → calls_at ok (xs ++ ys) ≡ calls_at ok xs ++ calls_at ok ys
calls_at-append ok [] ys = refl
calls_at-append ok (x ∷ xs) ys = ap (◌∷◌ (x, ok)) (calls_at-append ok xs ys)

outage-append :
    (before : List (ℕ × Bool)) (down up : List ℕ) (now : ℕ)
    → outage before down (up ++ now ∷ []) ≡ outage before down up ++ (now, true) ∷ []
outage-append before down up now = rw (calls_at-append true up (now ∷ [])) (
    sym (
      append_assoc before (calls_at false down ++ calls_at true up) ((now, true) ∷ [])
      ∙ ap (◌++◌ before)
          (append_assoc (calls_at false down) (calls_at true up) ((now, true) ∷ []))))

-- The next success reopens the circuit as long as it leaves at most ten successes in the window.
open_until-outage :
    (before : List (ℕ × Bool)) (down up : List ℕ) (now : ℕ)
    → length down ≡ 20
    → length up < 20
    → (run fresh (outage before down (up ++ now ∷ []))).open_until ≡ (
        if leb 10 (length up)
        then (run fresh (outage before down up)).open_until
        else now + 30_000_000_000)
unfolding should_open
open_until-outage before down up now e short =
    rw (outage-append before down up now, open_until-run (outage before down up) now true)
      (rw
        (
          sym (outage-append before down up now),
          outcomes-outage before down (up ++ now ∷ []) e,
          length-append up (now ∷ []),
        )
        (ground (arith, counts_after (length up + 1) (outcomes before))))

-- Whatever came before, let a provider fail twenty times in a row and then answer again. Each of its
-- next ten successes shuts it off once more, for the whole cooldown of thirty seconds from that
-- success. Only the success after these leaves the circuit as it is.
pub recovery_is_slow :
    (before : List (ℕ × Bool)) (down up : List ℕ) (now : ℕ)
    → length down ≡ 20
    → let history = outage before down up in
      let after = run fresh (outage before down (up ++ now ∷ [])) in
      (length up < 10 → after.open_until ≡ now + 30_000_000_000)
      × (length up ≡ 10 → after.open_until ≡ (run fresh history).open_until)
recovery_is_slow before down up now e = (
  λ h. ground (arith, open_until-outage before down up now e),
  λ h. ground (arith, open_until-outage before down up now e),
)
