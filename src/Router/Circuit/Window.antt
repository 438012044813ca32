-- ===== src/Router/Circuit/Window.antt =====
-- What `Record` keeps and when it opens the circuit.
use mathlib.Core.List.{append_assoc, append-nil}
use router_x.Base.{
  ℕ, ◌+◌, ◌-◌, ◌*◌, ◌≤◌, ◌≡◌, ◌∙◌, refl, sym, ap, Bool, true, false, List, [], ◌∷◌, ◌++◌, arith,
  length, length-keep_last, keep_last, keep_last-append, keep_last_short, drop-zero_of_le, leb,
  Bool-cases, inl, inr, if◌then◌else◌,
}
use router_x.Router.Circuit.{
  CircuitState, fresh, allow, failures, trim, should_open, record_outcome, Threshold,
}

-- A run of calls, each a time and an outcome.
unfoldable pub run : CircuitState → List (ℕ × Bool) → CircuitState
run c [] = c
run c ((now, ok) ∷ rest) = run (record_outcome now c ok) rest

abbrev pub outcomes : List (ℕ × Bool) → List Bool
outcomes [] = []
outcomes ((now, ok) ∷ rest) = ok ∷ outcomes rest

pub trim-eq-keep_last : (w : ℕ) (s : List Bool) → trim w s ≡ keep_last w s
unfolding trim
trim-eq-keep_last w s = ground (arith, drop-zero_of_le (length s - w) s)

-- What a recorded outcome leaves, whichever way the test on the rate goes.
pub record_outcome_fields :
    (now : ℕ) (c : CircuitState) (ok : Bool)
    → let d = record_outcome now c ok in
      (d.samples ≡ trim c.window_size (c.samples ++ ok ∷ []))
      × (d.window_size ≡ c.window_size)
      × (d.threshold ≡ c.threshold)
      × (d.cooldown ≡ c.cooldown)
unfolding record_outcome
record_outcome_fields now c ok = elim (Bool-cases (should_open c.threshold s)) [
  | inl e ↦ rw (e, record_outcome) (refl, refl, refl, refl)
  | inr e ↦ rw (e, record_outcome) (refl, refl, refl, refl)
]
  where
    s : List Bool
    s = trim c.window_size (c.samples ++ ok ∷ [])

module _ (w : ℕ) where
  -- After any run of calls the samples are the last `w` outcomes of the whole history.
  pub run_samples :
      (calls : List (ℕ × Bool)) (c : CircuitState)
      → c.window_size ≡ w
      → length c.samples ≤ w
      → (run c calls).samples ≡ keep_last w (c.samples ++ outcomes calls)
  unfolding run
  run_samples [] c size short = rw append-nil (sym (keep_last_short w c.samples short))
  run_samples ((now, ok) ∷ rest) c size short =
      let d : CircuitState = record_outcome now c ok in
      let f = record_outcome_fields now c ok in
      let e : d.samples ≡ keep_last w (c.samples ++ ok ∷ []) =
        f.0 ∙ ap (λ k. trim k (c.samples ++ ok ∷ [])) size ∙ trim-eq-keep_last w _ in
      let within : length d.samples ≤ w = rw e (length-keep_last w (c.samples ++ ok ∷ [])) in
      run_samples rest d (f.1 ∙ size) within
      ∙ ap (λ s. keep_last w (s ++ outcomes rest)) e
      ∙ keep_last-append w (c.samples ++ ok ∷ []) (outcomes rest)
      ∙ ap (keep_last w) (append_assoc c.samples (ok ∷ []) (outcomes rest))

  -- So the window never grows past its size.
  pub run-length-le :
      (calls : List (ℕ × Bool)) (c : CircuitState)
      → c.window_size ≡ w
      → length c.samples ≤ w
      → length (run c calls).samples ≤ w
  run-length-le calls c size short =
      rw (run_samples calls c size short) (length-keep_last w (c.samples ++ outcomes calls))

pub run_fields :
    (calls : List (ℕ × Bool)) (c : CircuitState)
    → ((run c calls).window_size ≡ c.window_size)
      × ((run c calls).threshold ≡ c.threshold)
      × ((run c calls).cooldown ≡ c.cooldown)
unfolding run
run_fields [] c = (refl, refl, refl)
run_fields ((now, ok) ∷ rest) c =
    let f = record_outcome_fields now c ok in
    let g = run_fields rest (record_outcome now c ok) in (g.0 ∙ f.1, g.1 ∙ f.2, g.2 ∙ f.3)

pub run-append : (xs ys : List (ℕ × Bool)) (c : CircuitState) → run c (xs ++ ys) ≡ run (run c xs) ys
unfolding run
run-append [] ys c = refl
run-append ((now, ok) ∷ xs) ys c = run-append xs ys (record_outcome now c ok)

-- At least ten of the samples are there and the failure rate reaches the threshold.
abbrev pub IsFailing : Threshold → List Bool → Type 0
IsFailing t s = (10 ≤ length s) × (t.num * length s ≤ failures s * t.den)

pub should_open_of : (t : Threshold) (s : List Bool) → IsFailing t s → should_open t s ≡ true
unfolding should_open
should_open_of t s h = ground arith

pub should_open_not_of : (t : Threshold) (s : List Bool) → ¬ IsFailing t s → should_open t s ≡ false
unfolding should_open
should_open_not_of t s h = elim (Bool-cases (should_open t s)) [
  | inl e ↦ absurd (h (ground arith))
  | inr e ↦ e
]

pub outcomes-append : (xs ys : List (ℕ × Bool)) → outcomes (xs ++ ys) ≡ outcomes xs ++ outcomes ys
outcomes-append [] ys = refl
outcomes-append ((now, ok) ∷ xs) ys = ap (◌∷◌ ok) (outcomes-append xs ys)

open_until-record_outcome :
    (now : ℕ) (c : CircuitState) (ok : Bool)
    → (record_outcome now c ok).open_until ≡ (
        if should_open c.threshold (trim c.window_size (c.samples ++ ok ∷ []))
        then now + c.cooldown
        else c.open_until)
unfolding record_outcome
open_until-record_outcome now c ok = ground arith

-- One more call after a run from the first: when the circuit is shut off now depends on the window
-- of the whole history.
pub open_until-run :
    (calls : List (ℕ × Bool)) (now : ℕ) (ok : Bool)
    → (run fresh (calls ++ (now, ok) ∷ [])).open_until ≡ (
        if should_open fresh.threshold (keep_last 20 (outcomes (calls ++ (now, ok) ∷ [])))
        then now + 30_000_000_000
        else (run fresh calls).open_until)
unfolding run
open_until-run calls now ok =
    rw (run-append calls ((now, ok) ∷ []) fresh, open_until-record_outcome now (run fresh calls) ok)
      (rw (
        (run_fields calls fresh).0,
        (run_fields calls fresh).1,
        (run_fields calls fresh).2,
        trim-eq-keep_last 20 ((run fresh calls).samples ++ ok ∷ []),
        run_samples 20 calls fresh refl (omega arith),
        keep_last-append 20 (outcomes calls) (ok ∷ []),
        outcomes-append calls ((now, ok) ∷ []),
      ))

-- The circuit of a provider that was called some number of times since the start, after one more
-- call. If the last twenty outcomes of the history are at least ten and at least half are failures,
-- then the provider is refused until the cooldown is over and admitted from then on; otherwise the
-- call changes nothing about when it is admitted.
pub run-fresh_allow :
    (calls : List (ℕ × Bool)) (now t : ℕ) (ok : Bool)
    → let recent = keep_last 20 (outcomes (calls ++ (now, ok) ∷ [])) in
      (IsFailing fresh.threshold recent
        → allow t (run fresh (calls ++ (now, ok) ∷ [])) ≡ leb (now + 30_000_000_000) t)
      × (¬ IsFailing fresh.threshold recent
          → allow t (run fresh (calls ++ (now, ok) ∷ [])) ≡ allow t (run fresh calls))
unfolding allow
run-fresh_allow calls now t ok = (
  λ h. rw (open_until-run calls now ok, should_open_of _ _ h) (ground arith),
  λ h. rw (open_until-run calls now ok, should_open_not_of _ _ h),
)
