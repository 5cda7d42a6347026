-- ===== src/ClaimController/Status.antt =====
-- The status of the claim, the used quota in the status of the namespace's resource quotas, and
-- the finalizer: the last steps of internal/controllers/s3userclaim/provisioner.go and cleaner.go.
pub mod Used
use ceph_s3_operator.Prelude.{
  ℕ, Bool, true, false, not, Option, none, some, List, [], ◌∷◌, if◌then◌else◌,
}
use ceph_s3_operator.Prelude.Text.{Text, text}
use ceph_s3_operator.Prelude.Assoc.{Assoc, insert}
use ceph_s3_operator.Go.{Error, Result, ok, err, panic}
use ceph_s3_operator.Consts.{
  resource_name_s3_max_objects, resource_name_s3_max_size, resource_name_s3_max_buckets,
  s3_user_claim_cleanup_finalizer,
}
use ceph_s3_operator.Api.{
  UserQuota, S3UserClaim, S3UserClaimStatus, ResourceQuota, ResourceQuotaStatus,
}
use ceph_s3_operator.Env.{Env}
use ceph_s3_operator.Quota.{empty_quota, calculate_namespace_used_quota}
use ceph_s3_operator.Subreconciler.{Signal, Step, continue_reconciling, requeue, done, handle}
use ceph_s3_operator.ClaimController.State.{State}
use ceph_s3_operator.ClaimController.CephUser.{in_world, give_up}

abbrev pub or_empty {ℓ} : {A : Type ℓ} → Option (List A) → List A
or_empty none = []
or_empty (some xs) = xs

module _ {Q W : Type 0} (env : Env Q W) where
  open env use {
    claims, resource_quotas, retry_on_conflict, deep_equal, new_quantity, add_finalizer,
    remove_finalizer,
  }

  unfoldable pub wanted_status : State Q W → S3UserClaimStatus Q
  wanted_status r = record {
    quota = r.s3_user_claim.spec.quota;
    s3_user_name = r.s3_user_name;
    subusers = r.s3_user_claim.spec.subusers;
  }

  -- r.s3UserClaim after a call that wrote it: as the server returned it.
  abbrev keep_claim : S3UserClaim Q → Step (State Q W)
  keep_claim claim r = done continue_reconciling (record r { s3_user_claim = claim })

  unfoldable pub update_s3_user_claim_status : Step (State Q W)
  update_s3_user_claim_status r =
      let status = wanted_status r in
      let claim = record (r.s3_user_claim) { status = status } in
      if not (deep_equal (S3UserClaimStatus Q) r.s3_user_claim.status status)
      then handle
          (in_world (record r { s3_user_claim = claim })
            (retry_on_conflict (S3UserClaim Q) (claims.update_status claim) r.world))
          (give_up env) keep_claim
      else done continue_reconciling r

  -- The three assignments into `Used`, which is made where it is nil.
  unfoldable pub assign_used_quota_to_resource_status :
      ResourceQuotaStatus Q → UserQuota Q → ResourceQuotaStatus Q
  assign_used_quota_to_resource_status status used_quota = record status {
    used = some (
        insert resource_name_s3_max_buckets (new_quantity used_quota.max_buckets) (
          insert resource_name_s3_max_size used_quota.max_size
            (insert resource_name_s3_max_objects used_quota.max_objects (or_empty status.used))));
  }

  unfoldable pub update_quotas : UserQuota Q → List (ResourceQuota Q) → Step (State Q W)
  update_quotas used [] r = done continue_reconciling r
  update_quotas used (quota ∷ items) r =
      let status = assign_used_quota_to_resource_status quota.status used in
      elim (deep_equal (ResourceQuotaStatus Q) quota.status status) [
        | true ↦ update_quotas used items r
        | false ↦
            let (result, w) =
              retry_on_conflict (ResourceQuota Q)
                (resource_quotas.update_status (record quota { status = status })) r.world in
            let r' = record r { world = w } in
            elim result [
              | ok _ ↦ update_quotas used items r'
              | err e ↦ done requeue r'
              | panic ↦ (panic, r')
            ]
      ]

  -- With an error `CalculateNamespaceUsedQuota` returns the zero quota, which the field then holds.
  unfoldable pub update_namespace_quota_status : Bool → Step (State Q W)
  update_namespace_quota_status add_current_quota r =
      handle
        (
          calculate_namespace_used_quota env r.world (some r.s3_user_claim)
              r.s3_user_claim_namespace add_current_quota,
          r,
        )
        (λ _ r.
          done requeue (record r { namespace_used_quota = some (empty_quota env.quantities) }))
        (λ used r.
          let r' = record r { namespace_used_quota = some used } in
          handle (resource_quotas.list r'.world r'.s3_user_claim_namespace, r') (give_up env)
            (λ items. update_quotas used items))

  unfoldable pub update_namespace_quota_status_inclusive : Step (State Q W)
  update_namespace_quota_status_inclusive = update_namespace_quota_status true

  unfoldable pub update_namespace_quota_status_exclusive : Step (State Q W)
  update_namespace_quota_status_exclusive = update_namespace_quota_status false

  -- The claim is written exactly if the library reports that its finalizers have changed.
  unfoldable pub write_finalizers : State Q W → S3UserClaim Q → Bool → Result Signal × State Q W
  write_finalizers r claim obj_updated =
      let r' = record r { s3_user_claim = claim } in
      if obj_updated
      then handle (in_world r' (claims.update claim r'.world)) (give_up env) keep_claim
      else done continue_reconciling r'

  unfoldable pub add_cleanup_finalizer : Step (State Q W)
  add_cleanup_finalizer r =
      let (meta, obj_updated) =
        add_finalizer s3_user_claim_cleanup_finalizer r.s3_user_claim.meta in
      write_finalizers r (record (r.s3_user_claim) { meta = meta }) obj_updated

  unfoldable pub remove_cleanup_finalizer : Step (State Q W)
  remove_cleanup_finalizer r =
      let (meta, obj_updated) =
        remove_finalizer s3_user_claim_cleanup_finalizer r.s3_user_claim.meta in
      write_finalizers r (record (r.s3_user_claim) { meta = meta }) obj_updated
