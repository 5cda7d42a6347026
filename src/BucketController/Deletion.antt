-- ===== src/BucketController/Deletion.antt =====
-- The clean-up of internal/controllers/s3bucket/cleaner.go: what stands before the removal of the
-- finalizer.
use ceph_s3_operator.Prelude.{
  ◌≡◌, ◌↔◌, ◌⊎◌, inl, inr, false, some, arith, ap, ◌∙◌, Bool-cases, Option-cases, All,
}
use ceph_s3_operator.Prelude.Text.{◌==◌, eq_iff, eq_refl}
use ceph_s3_operator.Go.{Error, Result, ok, err, aws_code, Result-cases}
use ceph_s3_operator.Consts.{deletion_policy_retain}
use ceph_s3_operator.Env.{Env}
use ceph_s3_operator.S3Agent.{agent_delete_bucket}
use ceph_s3_operator.Subreconciler.{Signal, continue_reconciling, evaluate}
use ceph_s3_operator.Subreconciler.Chain.{Retries, All-Retries-NeverDone, run_steps_iff}
use ceph_s3_operator.BucketController.{
  State, remove_or_retain_bucket, remove_cleanup_finalizer, write_finalizers, update_bucket_status,
  cleanup_steps, cleanup,
}

module _ {Q W : Type 0} (env : Env Q W) where
  remove_or_retain_bucket-Retries : Retries (remove_or_retain_bucket env)
  unfolding remove_or_retain_bucket update_bucket_status
  remove_or_retain_bucket-Retries r = ground arith

  remove_cleanup_finalizer-Retries : Retries (remove_cleanup_finalizer env)
  unfolding remove_cleanup_finalizer write_finalizers
  remove_cleanup_finalizer-Retries r = ground arith

  pub cleanup_steps-Retries : All Retries (cleanup_steps env)
  cleanup_steps-Retries = (remove_or_retain_bucket-Retries, (remove_cleanup_finalizer-Retries, tt))

  -- The bucket stays by its policy, or S3 has deleted it, or has none of that name.
  abbrev pub IsSettled : State W → Type 0
  IsSettled r =
      (r.s3_bucket.spec.s3_deletion_policy ≡ deletion_policy_retain)
      ⊎ ((agent_delete_bucket env r.s3_agent r.s3_bucket_name r.world).0 ≡ ok tt)
      ⊎ ((e : Error) × ((agent_delete_bucket env r.s3_agent r.s3_bucket_name r.world).0 ≡ err e)
          × (aws_code e ≡ some env.no_such_bucket))

  -- The step for the bucket goes on exactly if the bucket stays by its policy, or S3 answers that
  -- it is deleted, or that there is none of that name.
  pub remove_or_retain_bucket_iff :
      (r : State W) → ((remove_or_retain_bucket env r).0 ≡ ok continue_reconciling) ↔ IsSettled r
  unfolding remove_or_retain_bucket update_bucket_status
  remove_or_retain_bucket_iff r =
      let retain = eq_iff r.s3_bucket.spec.s3_deletion_policy deletion_policy_retain in
      let deleted = (agent_delete_bucket env r.s3_agent r.s3_bucket_name r.world).0 in
      (
        λ h. elim (Bool-cases (r.s3_bucket.spec.s3_deletion_policy == deletion_policy_retain)) [
          | inl keep ↦ inl (retain.0 keep)
          | inr gone ↦ inr (elim (Result-cases deleted) [
            | inl (u, e) ↦ inl e
            | inr bad ↦ elim bad [
              | inr e ↦ ground arith
              | inl (x, e) ↦ elim (Option-cases (aws_code x)) [
                | inl none' ↦ ground arith
                | inr (code, c) ↦ inr (x, e, ground (arith, eq_iff code env.no_such_bucket))
              ]
            ]
          ])
        ],
        λ s. elim s [
          | inl keep ↦ ground (arith, retain.1 keep)
          | inr gone ↦ elim gone [
            | inl e ↦ ground arith
            | inr (x, e, c) ↦ ground (arith, eq_refl env.no_such_bucket)
          ]
        ],
      )

  -- A clean-up that ends without a new round has gone through both steps, that for the bucket and
  -- that for the finalizer, and the bucket stays by its policy, or S3 has answered that it is
  -- deleted, or that there is none of that name.
  pub cleanup-IsSettled :
      (r r' : State W)
      → cleanup env r ≡ (evaluate false, r')
      → IsSettled r
        × ((m : State W) × (remove_or_retain_bucket env r ≡ (ok continue_reconciling, m))
            × (remove_cleanup_finalizer env m ≡ (ok continue_reconciling, r')))
  unfolding cleanup
  cleanup-IsSettled r r' h =
      let (m, first, last) =
        (run_steps_iff (cleanup_steps env) r r'
            (All-Retries-NeverDone (cleanup_steps env) cleanup_steps-Retries)).0
          h in
      let (m', second, same) = last in
      (
        (remove_or_retain_bucket_iff r).0 (ap (λ (p : Result Signal × State W). p.0) first),
        (m, first, second ∙ ap (λ (x : State W). (ok continue_reconciling, x)) same),
      )
