-- ===== src/Subreconciler/Keeps.antt =====
-- What the steps of a chain leave as it is.
use ceph_s3_operator.Prelude.{◌≡◌, refl, ◌∙◌, List, [], ◌∷◌, All, Bool, true, false, if◌then◌else◌}
use ceph_s3_operator.Go.{Result, ok, err, panic}
use ceph_s3_operator.Subreconciler.{
  Signal, CtrlResult, Step, continue_reconciling, requeue, do_not_requeue, after_step, run_steps,
}

module _ {S F : Type 0} (kept : S → F) where
  abbrev pub Keeps : Step S → Type 0
  Keeps step = (s : S) → kept (step s).1 ≡ kept s

  after_step_keeps :
      (p : Result Signal × S) (rest : S → Result CtrlResult × S) (s : S)
      → kept p.1 ≡ kept s
      → kept (rest p.1).1 ≡ kept p.1
      → kept (after_step p rest).1 ≡ kept s
  after_step_keeps (ok continue_reconciling, m) rest s h k = k ∙ h
  after_step_keeps (ok requeue, m) rest s h k = h
  after_step_keeps (ok do_not_requeue, m) rest s h k = h
  after_step_keeps (err e, m) rest s h k = h
  after_step_keeps (panic, m) rest s h k = h

  pub run_steps-Keeps :
      (steps : List (Step S)) (s : S) → All Keeps steps → kept (run_steps steps s).1 ≡ kept s
  unfolding run_steps
  run_steps-Keeps [] s h = refl
  run_steps-Keeps (step ∷ steps) s h =
      after_step_keeps (step s) (run_steps steps) s (h.0 s) (run_steps-Keeps steps (step s).1 h.1)

  pub if_keeps :
      {A : Type 0} (b : Bool) (p q : A × S) (s : S)
      → kept p.1 ≡ kept s
      → kept q.1 ≡ kept s
      → kept (if b then p else q).1 ≡ kept s
  if_keeps true p q s h k = h
  if_keeps false p q s h k = k
