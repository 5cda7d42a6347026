-- ===== src/BucketWebhook/References.antt =====
-- The reference of a bucket to a claim, in the validators of api/v1alpha1/s3bucket_webhook.go.
use ceph_s3_operator.Prelude.{◌≡◌, ◌↔◌, inl, inr, List, ◌∷◌, arith}
use ceph_s3_operator.Prelude.Text.{Text, eq_iff}
use ceph_s3_operator.Go.{ok, Result-cases}
use ceph_s3_operator.Api.{S3UserClaim, S3Bucket}
use ceph_s3_operator.Env.{Env}
use ceph_s3_operator.ClaimWebhook.{allowed, verdict, bucket_object, has_bucket_of}
use ceph_s3_operator.BucketWebhook.{validate_create, validate_update}

module _ {Q W : Type 0} (env : Env Q W) where
  -- The creation of a bucket is admitted exactly if the claim that it refers to is found in its
  -- namespace.
  pub bucket_create_iff :
      (w : W) (sb : S3Bucket)
      → (validate_create env w sb ≡ allowed) ↔ (
          (claim : S3UserClaim Q) × (env.claims.get w
              (record { namespace = sb.meta.namespace; name = sb.spec.s3_user_ref })
            ≡ ok claim))
  unfolding validate_create verdict
  bucket_create_iff w sb =
      elim (Result-cases
        (env.claims.get w (record { namespace = sb.meta.namespace; name = sb.spec.s3_user_ref }))) [
          | inl (claim, e) ↦ (λ h. (claim, e), λ h. ground arith)
          | inr bad ↦ (λ h. ground arith, λ (c, p). ground arith)
        ]

  -- An update of a bucket is admitted exactly if it keeps the reference.
  pub bucket_update_iff :
      (old sb : S3Bucket)
      → (validate_update env (bucket_object old) sb ≡ allowed)
        ↔ (sb.spec.s3_user_ref ≡ old.spec.s3_user_ref)
  unfolding validate_update verdict
  bucket_update_iff old sb = ground (arith, eq_iff sb.spec.s3_user_ref old.spec.s3_user_ref)

  -- After an admitted update of a bucket, the test that keeps a claim from deletion gives the same
  -- with the new bucket as with the old one, for every claim and all other buckets.
  pub has_bucket_of-update :
      (old sb : S3Bucket) (rest : List S3Bucket) (user : Text)
      → validate_update env (bucket_object old) sb ≡ allowed
      → has_bucket_of env user (sb ∷ rest) ≡ has_bucket_of env user (old ∷ rest)
  unfolding has_bucket_of
  has_bucket_of-update old sb rest user h = let same = (bucket_update_iff old sb).0 h in rw same
