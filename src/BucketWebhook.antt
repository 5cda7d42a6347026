-- ===== src/BucketWebhook.antt =====
-- api/v1alpha1/s3bucket_webhook.go: what the admission webhook answers for an S3Bucket.
pub mod References
use ceph_s3_operator.Prelude.{Bool, true, false, not, List, [], ◌∷◌, if◌then◌else◌}
use ceph_s3_operator.Prelude.Text.{Text, text, ◌==◌}
use ceph_s3_operator.Go.{Result, ok, err, panic, message}
use ceph_s3_operator.Consts.{s3_user_ref_not_found_err_message, s3_user_ref_immutable_err_message}
use ceph_s3_operator.Api.{S3UserClaim, S3Bucket}
use ceph_s3_operator.Env.{Env}
use ceph_s3_operator.ClaimWebhook.{
  Verdict, FieldError, forbidden, allowed, failed, crashed, verdict, Object, claim_object,
  bucket_object, other_object,
}

module _ {Q W : Type 0} (env : Env Q W) where
  abbrev ref_field_errors : Text → List FieldError
  ref_field_errors msg = forbidden (text "spec.s3UserRef") msg ∷ []

  unfoldable pub validate_create : W → S3Bucket → Verdict
  validate_create w sb =
      elim (env.claims.get w
        (record { namespace = sb.meta.namespace; name = sb.spec.s3_user_ref })) [
          | ok _ ↦ verdict sb.meta.name []
          | err e ↦ verdict sb.meta.name (ref_field_errors s3_user_ref_not_found_err_message)
          | panic ↦ crashed
        ]

  unfoldable pub validate_update : Object Q → S3Bucket → Verdict
  validate_update (bucket_object old) sb = verdict sb.meta.name (
      if not (sb.spec.s3_user_ref == old.spec.s3_user_ref)
      then ref_field_errors s3_user_ref_immutable_err_message
      else [])
  validate_update (claim_object _) sb = failed (message (text "internal error"))
  validate_update other_object sb = failed (message (text "internal error"))

  unfoldable pub validate_delete : S3Bucket → Verdict
  validate_delete sb = allowed
