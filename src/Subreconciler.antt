-- ===== src/Subreconciler.antt =====
-- The chains of steps that both controllers run: `Provision` and `Cleanup` in
-- internal/controllers/s3userclaim and internal/controllers/s3bucket.
--
-- A step returns (*ctrl.Result, error). Of github.com/opdev/subreconciler the steps use three
-- results, which are the constructors of `Signal`: ContinueReconciling is (nil, nil), Requeue and
-- DoNotRequeue carry a result. ShouldHaltOrRequeue is true of all but the first without an error,
-- and Evaluate gives the result back.
pub mod Chain
pub mod Agree
pub mod Keeps
pub mod Serve
use ceph_s3_operator.Prelude.{Bool, true, false, List, [], ◌∷◌}
use ceph_s3_operator.Go.{Error, Result, ok, err, panic}

pub data Signal : Type 0 where
  continue_reconciling requeue do_not_requeue : Signal

-- ctrl.Result: whether the request is queued again.
pub record CtrlResult : Type 0 where
  pub requeue : Bool

-- A step on the state of the reconciler and of the world outside.
abbrev pub Step : Type 0 → Type 0
Step S = S → Result Signal × S

abbrev pub done : {S : Type 0} → Signal → Step S
done signal s = (ok signal, s)

-- `a, err := call; if err != nil { ... on_err ... }; ... k a ...`, where the call may write to the
-- state also when it fails.
abbrev pub handle :
    {S A B : Type 0}
    → Result A × S
    → (Error → S → Result B × S)
    → (A → S → Result B × S)
    → Result B × S
handle (ok a, s) on_err k = k a s
handle (err e, s) on_err k = on_err e s
handle (panic, s) on_err k = (panic, s)

-- Evaluate(Requeue()) and Evaluate(DoNotRequeue()).
abbrev pub evaluate : Bool → Result CtrlResult
evaluate again = ok (record { requeue = again })

-- What follows one step of the loop: the rest, or the evaluated result.
abbrev pub after_step :
    {S : Type 0} → Result Signal × S → (S → Result CtrlResult × S) → Result CtrlResult × S
after_step (ok continue_reconciling, s) rest = rest s
after_step (ok requeue, s) rest = (evaluate true, s)
after_step (ok do_not_requeue, s) rest = (evaluate false, s)
after_step (err e, s) rest = (err e, s)
after_step (panic, s) rest = (panic, s)

-- The loop of `Provision` and `Cleanup` over the steps.
unfoldable pub run_steps : {S : Type 0} → List (Step S) → S → Result CtrlResult × S
run_steps [] s = (evaluate false, s)
run_steps (step ∷ steps) s = after_step (step s) (run_steps steps)
