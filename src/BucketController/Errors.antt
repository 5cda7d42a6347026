-- ===== src/BucketController/Errors.antt =====
-- What `Reconcile` of internal/controllers/s3bucket/handler.go returns where a call fails.
use ceph_s3_operator.Prelude.{◌≢◌, true, false, arith}
use ceph_s3_operator.Go.{Error, Result, ok, err, panic, has_reason}
use ceph_s3_operator.Names.{NamespacedName}
use ceph_s3_operator.Api.{S3Bucket}
use ceph_s3_operator.Env.{Env}
use ceph_s3_operator.S3Agent.{S3Agent}
use ceph_s3_operator.Subreconciler.{evaluate}
use ceph_s3_operator.BucketController.Rounds.{with_agent, with_bucket}
use ceph_s3_operator.Subreconciler.Chain.{evaluate_never_errs, run_steps_never_errs, if_never_errs}
use ceph_s3_operator.BucketController.{
  State, empty_bucket, init_vars, find_s3_agent, provision_steps, cleanup_steps, provision, cleanup,
  reconcile,
}
use ceph_s3_operator.BucketController.Provisioning.{provision_steps-Retries}
use ceph_s3_operator.BucketController.Deletion.{cleanup_steps-Retries}

module _ {Q W : Type 0} (env : Env Q W) where
  provision_never_errs : (r : State W) (e : Error) → (provision env r).0 ≢ err e
  unfolding provision
  provision_never_errs r e =
      run_steps_never_errs (provision_steps env) r e (provision_steps-Retries env)

  cleanup_never_errs : (r : State W) (e : Error) → (cleanup env r).0 ≢ err e
  unfolding cleanup
  cleanup_never_errs r e = run_steps_never_errs (cleanup_steps env) r e (cleanup_steps-Retries env)

  with_agent_never_errs :
      (found : Result S3Agent) (bucket : S3Bucket) (req : NamespacedName) (s : State W) (e : Error)
      → (with_agent env found bucket req s).0 ≢ err e
  with_agent_never_errs (ok agent) bucket req s e =
      let r2 = init_vars req (record s { s3_agent = agent }) in
      if_never_errs bucket.meta.deleting (cleanup env r2) (provision env r2) e
        (cleanup_never_errs r2 e) (provision_never_errs r2 e)
  with_agent_never_errs (err x) bucket req s e = evaluate_never_errs true e
  with_agent_never_errs panic bucket req s e = λ p. ground arith

  with_bucket_never_errs :
      (got : Result S3Bucket) (req : NamespacedName) (s : State W) (e : Error)
      → (with_bucket env got req s).0 ≢ err e
  with_bucket_never_errs (ok bucket) req s e =
      let r1 = record s { s3_bucket = bucket; s3_user_ref = bucket.spec.s3_user_ref } in
      with_agent_never_errs (find_s3_agent env r1 req) bucket req r1 e
  with_bucket_never_errs (err x) req s e =
      if_never_errs (has_reason env.not_found x) (evaluate false, s) (evaluate true, s) e
        (evaluate_never_errs false e) (evaluate_never_errs true e)
  with_bucket_never_errs panic req s e = λ p. ground arith

  -- A round of the controller of buckets never returns an error, whichever call fails: it asks for
  -- a new round, ends without one, or panics.
  pub bucket_reconcile_never_errs :
      (req : NamespacedName) (r : State W) (e : Error) → (reconcile env req r).0 ≢ err e
  unfolding reconcile
  bucket_reconcile_never_errs req r e =
      with_bucket_never_errs (env.buckets.get r.world req) req
        (record r { s3_bucket = empty_bucket; s3_bucket_name = req.name }) e
