-- ===== src/Subreconciler/Agree.antt =====
-- Two runs agree if they have the same result and leave the same world, whatever else a reconciler
-- keeps.
use ceph_s3_operator.Prelude.{◌≡◌, refl, Bool, true, false, arith, if◌then◌else◌}
use ceph_s3_operator.Go.{Result, ok}
use ceph_s3_operator.Subreconciler.{
  Signal, CtrlResult, continue_reconciling, requeue, do_not_requeue, after_step,
}

module _ {S W : Type 0} (world : S → W) where
  abbrev pub Agree : {A : Type 0} → A × S → A × S → Type 0
  Agree p q = (p.0 ≡ q.0) × (world p.1 ≡ world q.1)

  pub if_agrees :
      {A : Type 0} (b : Bool) (p q p' q' : A × S)
      → Agree p p'
      → Agree q q'
      → Agree (if b then p else q) (if b then p' else q')
  if_agrees true p q p' q' h k = h
  if_agrees false p q p' q' h k = k

  pub after_step_agrees :
      (p q : Result Signal × S) (rest : S → Result CtrlResult × S)
      → Agree p q
      → (q.0 ≡ ok continue_reconciling → Agree (rest p.1) (rest q.1))
      → Agree (after_step p rest) (after_step q rest)
  after_step_agrees (ok continue_reconciling, s) (ok continue_reconciling, t) rest h k = k refl
  after_step_agrees (ok requeue, s) (ok requeue, t) rest h k = (refl, h.1)
  after_step_agrees (ok do_not_requeue, s) (ok do_not_requeue, t) rest h k = (refl, h.1)
  after_step_agrees p q rest h k = ground arith
