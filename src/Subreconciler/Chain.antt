-- ===== src/Subreconciler/Chain.antt =====
-- The loop of `Provision` and `Cleanup` over the steps, as a chain of states.
use ceph_s3_operator.Prelude.{
  ◌≡◌, ◌≢◌, ◌↔◌, refl, Bool, true, false, List, [], ◌∷◌, arith, All, ap, ◌∙◌, if◌then◌else◌,
}
use ceph_s3_operator.Go.{Error, Result, ok, err, panic}
use ceph_s3_operator.Subreconciler.{
  Signal, continue_reconciling, requeue, do_not_requeue, CtrlResult, Step, evaluate, after_step,
  run_steps,
}

-- What a step of the controllers returns: it goes on, asks for a new round, or panics; it neither
-- ends the round with success nor returns an error.
abbrev pub retries : Result Signal → Bool
retries (ok continue_reconciling) = true
retries (ok requeue) = true
retries (ok do_not_requeue) = false
retries (err e) = false
retries panic = true

pub evaluate_never_errs : (again : Bool) (e : Error) → evaluate again ≢ err e
evaluate_never_errs again e = λ p. ground arith

module _ {S : Type 0} where
  -- Every step continues, from `s` to `s'`.
  abbrev pub Ran : List (Step S) → S → S → Type 0
  Ran [] s s' = s ≡ s'
  Ran (step ∷ steps) s s' = (m : S) × (step s ≡ (ok continue_reconciling, m)) × Ran steps m s'

  -- The step never ends the round early with success.
  abbrev pub NeverDone : Step S → Type 0
  NeverDone step = (s : S) → (step s).0 ≢ ok do_not_requeue

  abbrev pub Retries : Step S → Type 0
  Retries step = (s : S) → retries (step s).0 ≡ true

  Retries-NeverDone : (step : Step S) → Retries step → NeverDone step
  Retries-NeverDone step h s e = let k = h s in ground arith

  pub All-Retries-NeverDone : (steps : List (Step S)) → All Retries steps → All NeverDone steps
  All-Retries-NeverDone [] h = tt
  All-Retries-NeverDone (step ∷ steps) h =
      (Retries-NeverDone step h.0, All-Retries-NeverDone steps h.1)

  after_step_never_errs :
      (p : Result Signal × S) (rest : S → Result CtrlResult × S) (e : Error)
      → retries p.0 ≡ true
      → (rest p.1).0 ≢ err e
      → (after_step p rest).0 ≢ err e
  after_step_never_errs (ok continue_reconciling, m) rest e h k = k
  after_step_never_errs (ok requeue, m) rest e h k = ground arith
  after_step_never_errs (ok do_not_requeue, m) rest e h k = ground arith
  after_step_never_errs (err x, m) rest e h k = ground arith
  after_step_never_errs (panic, m) rest e h k = ground arith

  -- A chain of such steps ends without an error.
  pub run_steps_never_errs :
      (steps : List (Step S)) (s : S) (e : Error)
      → All Retries steps
      → (run_steps steps s).0 ≢ err e
  unfolding run_steps
  run_steps_never_errs [] s e h = ground arith
  run_steps_never_errs (step ∷ steps) s e h =
      after_step_never_errs (step s) (run_steps steps) e (h.0 s)
        (run_steps_never_errs steps (step s).1 e h.1)

  pub if_never_errs :
      {B : Type 0} (b : Bool) (p q : Result B × S) (e : Error)
      → p.0 ≢ err e
      → q.0 ≢ err e
      → (if b then p else q).0 ≢ err e
  if_never_errs true p q e h k = h
  if_never_errs false p q e h k = k

  after_step_iff :
      (p : Result Signal × S) (rest : S → Result CtrlResult × S) (s' : S)
      → p.0 ≢ ok do_not_requeue
      → (after_step p rest ≡ (evaluate false, s'))
        ↔ ((m : S) × (p ≡ (ok continue_reconciling, m)) × (rest m ≡ (evaluate false, s')))
  after_step_iff (ok continue_reconciling, m) rest s' h =
      (λ e. (m, refl, e), λ (x, p, e). ap rest (ap (λ (q : Result Signal × S). q.1) p) ∙ e)
  after_step_iff (ok requeue, m) rest s' h = (λ e. ground arith, λ (x, p, e). ground arith)
  after_step_iff (ok do_not_requeue, m) rest s' h = absurd (h refl)
  after_step_iff (err x, m) rest s' h = (λ e. ground arith, λ (x, p, e). ground arith)
  after_step_iff (panic, m) rest s' h = (λ e. ground arith, λ (x, p, e). ground arith)

  -- Where no step ends the round early, the chain ends without a new round in a state exactly if
  -- every step has continued, the last one in that state.
  pub run_steps_iff :
      (steps : List (Step S)) (s s' : S)
      → All NeverDone steps
      → (run_steps steps s ≡ (evaluate false, s')) ↔ Ran steps s s'
  unfolding run_steps
  run_steps_iff [] s s' h =
      (λ e. ap (λ (p : Result CtrlResult × S). p.1) e, λ e. ap (λ (t : S). (evaluate false, t)) e)
  run_steps_iff (step ∷ steps) s s' h =
      let one = after_step_iff (step s) (run_steps steps) s' (h.0 s) in
      (
        λ e. let (m, p, q) = one.0 e in (m, p, (run_steps_iff steps m s' h.1).0 q),
        λ (m, p, q). one.1 (m, p, (run_steps_iff steps m s' h.1).1 q),
      )
