-- ===== src/Router/Routing/Loop.antt =====
-- The fallback loop of `tryProvidersByType`.
use router_x.Base.{
  Bool, true, false, ◌||◌, Option, none, some, List, [], ◌∷◌, ◌++◌, ◌≡◌, refl, ap, ◌≢◌, arith,
  Option-cases, inl, inr, if◌then◌else◌,
}
use router_x.Models.{ChatCompletionRequest}
use router_x.Store.Types.{Provider}
use router_x.Router.Types.{Attempt, Failure}
use router_x.Router.Candidates.{is_given}
use router_x.Router.Env.{Env, World}
use router_x.Router.Attempt.{try_provider}
use router_x.Router.Routing.{try_candidates, failed}

module _ {F E : Type 0} (env : Env F E) (req : ChatCompletionRequest F) (stream : Bool) where
  -- All the providers fail, one after the other, from the first world to the second.
  pub data AllFail : List Provider → World E → World E → Type 0 where
    nothing : {w : World E} → AllFail [] w w
    fails :
        {p : Provider} {ps : List Provider} {w w' : World E}
        → (try_provider env p req stream w).0.error ≢ none
        → AllFail ps (try_provider env p req stream w).1 w'
        → AllFail (p ∷ ps) w w'

  -- How a successful loop got there: the candidates before the last one tried all failed, and that
  -- one answered.
  pub record Answered (ps : List Provider) (later : Bool) (w : World E)
      (r : Attempt Failure × World E) : Type 0 where
    pub before : List Provider
    pub chosen : Provider
    pub after : List Provider
    pub reached : World E
    pub split : ps ≡ before ++ chosen ∷ after
    pub failing : AllFail before w reached
    pub answer : (try_provider env chosen req stream reached).0.error ≡ none
    pub result : r ≡ (
      record (try_provider env chosen req stream reached).0 { fallback = is_given before || later },
      (try_provider env chosen req stream reached).1,
    )

  step_ok :
      (fallbacks later : Bool) (last : Option Failure) (p : Provider) (ps : List Provider)
      (w : World E)
      → (try_provider env p req stream w).0.error ≡ none
      → try_candidates env fallbacks later last (p ∷ ps) req stream w ≡ (
        record (try_provider env p req stream w).0 { fallback = later },
        (try_provider env p req stream w).1,
      )
  unfolding try_candidates
  step_ok fallbacks later last p ps w e = ground arith

  step_fail :
      (fallbacks later : Bool) (last : Option Failure) (p : Provider) (ps : List Provider)
      (w : World E) {f : Failure}
      → (try_provider env p req stream w).0.error ≡ some f
      → try_candidates env fallbacks later last (p ∷ ps) req stream w ≡ (
          if fallbacks
          then try_candidates env fallbacks true
              (some f)
              ps
              req
              stream
              (try_provider env p req stream w).1
          else (failed (some f), (try_provider env p req stream w).1))
  unfolding try_candidates
  step_fail fallbacks later last p ps w e = ground arith

  or-true : (b : Bool) → (b || true) ≡ true
  or-true true = refl
  or-true false = refl

  after_failure :
      (p : Provider) (ps : List Provider) (later : Bool) (w : World E)
      (r : Attempt Failure × World E)
      → (try_provider env p req stream w).0.error ≢ none
      → Answered ps true (try_provider env p req stream w).1 r
      → Answered (p ∷ ps) later w r
  after_failure p ps later w r bad a = record {
    before = p ∷ a.before;
    chosen = a.chosen;
    after = a.after;
    reached = a.reached;
    split = ap (◌∷◌ p) a.split;
    failing = fails bad a.failing;
    answer = a.answer;
    result = rw (← or-true (is_given a.before)) a.result;
  }

  step_nil :
      (fallbacks later : Bool) (last : Option Failure) (w : World E)
      → try_candidates env fallbacks later last [] req stream w ≡ (failed last, w)
  unfolding try_candidates
  step_nil fallbacks later last w = refl

  -- After a failure, with the claim for the rest of the candidates.
  retry :
      (fallbacks later : Bool) (p : Provider) (ps : List Provider) (w : World E) (f : Failure)
      → (try_provider env p req stream w).0.error ≡ some f
      → let w' = (try_provider env p req stream w).1 in
        let rest = try_candidates env fallbacks true (some f) ps req stream w' in
        (rest.0.error ≡ none → Answered ps true w' rest)
        → (if fallbacks then rest else (failed (some f), w')).0.error ≡ none
        → Answered (p ∷ ps) later w (if fallbacks then rest else (failed (some f), w'))
  retry true later p ps w f bad ih e = after_failure p ps later w _ (λ x. cc) (ih e)
  retry false later p ps w f bad ih e = cc

  first_answers :
      (fallbacks later : Bool) (last : Option Failure) (p : Provider) (ps : List Provider)
      (w : World E)
      → (try_provider env p req stream w).0.error ≡ none
      → Answered (p ∷ ps) later w (try_candidates env fallbacks later last (p ∷ ps) req stream w)
  first_answers fallbacks later last p ps w good = record {
    before = [];
    chosen = p;
    after = ps;
    reached = w;
    split = refl;
    failing = nothing;
    answer = good;
    result = step_ok fallbacks later last p ps w good;
  }

  success_after_error :
      (fallbacks later : Bool) (last : Option Failure) (ps : List Provider) (w : World E)
      → last ≢ none
      → (try_candidates env fallbacks later last ps req stream w).0.error ≡ none
      → Answered ps later w (try_candidates env fallbacks later last ps req stream w)
  success_after_error fallbacks later last [] w h e =
      absurd (h (rw (step_nil fallbacks later last w) at e))
  success_after_error fallbacks later last (p ∷ ps) w h e =
      elim (Option-cases (try_provider env p req stream w).0.error) [
        | inl good ↦ first_answers fallbacks later last p ps w good
        | inr (f, bad) ↦
            let w' : World E = (try_provider env p req stream w).1 in
            rw (step_fail fallbacks later last p ps w bad) (
              retry fallbacks later p ps w f bad
                (success_after_error fallbacks true (some f) ps w' (λ x. cc))
                (rw (step_fail fallbacks later last p ps w bad) at e))
      ]

  -- Started as `tryProvidersByType` starts it, with no error yet and a candidate at least: whenever the
  -- loop reports success, it reports the answer of the first candidate that succeeded, with the ones
  -- before it tried in order and failed, and says `fallback` exactly when there were such.
  pub try_candidates_success :
      (fallbacks : Bool) (ps : List Provider) (w : World E)
      → ps ≢ []
      → (try_candidates env fallbacks false none ps req stream w).0.error ≡ none
      → Answered ps false w (try_candidates env fallbacks false none ps req stream w)
  try_candidates_success fallbacks [] w given e = absurd (given refl)
  try_candidates_success fallbacks (p ∷ ps) w given e =
      elim (Option-cases (try_provider env p req stream w).0.error) [
        | inl good ↦ first_answers fallbacks false none p ps w good
        | inr (f, bad) ↦ rw (step_fail fallbacks false none p ps w bad) (
            retry fallbacks false p ps w f bad
              (success_after_error fallbacks true (some f) ps _ (λ x. cc))
              (rw (step_fail fallbacks false none p ps w bad) at e))
      ]

  -- Whenever the loop reports an error with fallbacks allowed, it has tried every candidate, in
  -- order, and each of them failed.
  pub try_candidates_exhausted :
      (later : Bool) (last : Option Failure) (ps : List Provider) (w : World E)
      → (try_candidates env true later last ps req stream w).0.error ≢ none
      → AllFail ps w (try_candidates env true later last ps req stream w).1
  try_candidates_exhausted later last [] w h = rw (step_nil true later last w) nothing
  try_candidates_exhausted later last (p ∷ ps) w h =
      elim (Option-cases (try_provider env p req stream w).0.error) [
        | inl good ↦ absurd (h (rw (step_ok true later last p ps w good) good))
        | inr (f, bad) ↦
            let w' : World E = (try_provider env p req stream w).1 in
            let s = step_fail true later last p ps w bad in
            rw s (fails (λ x. cc) (try_candidates_exhausted true (some f) ps w' (λ e. h (rw s e))))
      ]
