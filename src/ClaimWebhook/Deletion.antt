-- ===== src/ClaimWebhook/Deletion.antt =====
-- When `ValidateDelete` of api/v1alpha1/s3userclaim_webhook.go admits a deletion.
use ceph_s3_operator.Prelude.{
  ◌≡◌, ◌≢◌, ◌↔◌, inl, inr, refl, false, List, [], ◌∷◌, arith, All, Bool-cases, sym, ◌∙◌,
}
use ceph_s3_operator.Prelude.Text.{Text, ◌==◌, eq_iff}
use ceph_s3_operator.Go.{ok_injective, ok, Result-cases}
use ceph_s3_operator.Api.{S3UserClaim, S3Bucket}
use ceph_s3_operator.Env.{Env}
use ceph_s3_operator.ClaimWebhook.{allowed, has_bucket_of, validate_delete}

module _ {Q W : Type 0} (env : Env Q W) where
  has_bucket_of_iff :
      (user : Text) (items : List S3Bucket)
      → (has_bucket_of env user items ≡ false)
        ↔ All (λ bucket. bucket.spec.s3_user_ref ≢ user) items
  unfolding has_bucket_of
  has_bucket_of_iff user [] = (λ h. tt, λ h. refl)
  has_bucket_of_iff user (bucket ∷ items) =
      let rest = has_bucket_of_iff user items in
      let same = eq_iff bucket.spec.s3_user_ref user in
      elim (Bool-cases (bucket.spec.s3_user_ref == user)) [
        | inl e ↦ (λ h. ground arith, λ h. absurd (h.0 (same.0 e)))
        | inr e ↦ (
          λ h. ((λ p. ground (arith, same.1 p)), rest.0 (ground arith)),
          λ h. ground (arith, rest.1 h.1),
        )
      ]

  -- The deletion of a claim is admitted exactly if the buckets of its namespace are listed and none
  -- of them refers to its name.
  pub validate_delete_iff :
      (w : W) (suc : S3UserClaim Q)
      → (validate_delete env w suc ≡ allowed) ↔ (
          (items : List S3Bucket) × (env.buckets.list w suc.meta.namespace ≡ ok items)
          × All (λ bucket. bucket.spec.s3_user_ref ≢ suc.meta.name) items)
  unfolding validate_delete
  validate_delete_iff w suc = elim (Result-cases (env.buckets.list w suc.meta.namespace)) [
    | inl (items, e) ↦
        let iff = has_bucket_of_iff suc.meta.name items in
        (
          λ h. (items, e, iff.0 (ground arith)),
          λ (xs, p, all).
              let same : xs ≡ items = ok_injective (sym p ∙ e) in
              let none_refers = iff.1 (rw same at all) in ground arith,
        )
    | inr bad ↦ (λ h. ground arith, λ (xs, p, all). ground arith)
  ]
