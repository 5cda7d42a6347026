-- ===== src/ClaimController/Status/Used.antt =====
-- `assignUsedQuotaToResourceStatus` of internal/controllers/s3userclaim/provisioner.go, resource by
-- resource.
use ceph_s3_operator.Prelude.{◌≡◌, refl, some, if◌then◌else◌}
use ceph_s3_operator.Prelude.Text.{Text, ◌==◌}
use ceph_s3_operator.Prelude.Assoc.{lookup, lookup-insert}
use ceph_s3_operator.Consts.{
  resource_name_s3_max_objects, resource_name_s3_max_size, resource_name_s3_max_buckets,
}
use ceph_s3_operator.Api.{UserQuota, ResourceQuotaStatus}
use ceph_s3_operator.Env.{Env}
use ceph_s3_operator.ClaimController.Status.{or_empty, assign_used_quota_to_resource_status}

module _ {Q W : Type 0} (env : Env Q W) where
  -- The three resources of S3 have the used quota, every other resource has what it had, and the
  -- hard limits are kept.
  pub assign_used_quota-lookup :
      (status : ResourceQuotaStatus Q) (used : UserQuota Q) (n : Text)
      → let status' = assign_used_quota_to_resource_status env status used in
        (lookup n (or_empty status'.used) ≡ (
          if resource_name_s3_max_buckets == n
          then some (env.new_quantity used.max_buckets)
          else if resource_name_s3_max_size == n
          then some used.max_size
          else if resource_name_s3_max_objects == n
          then some used.max_objects
          else lookup n (or_empty status.used)))
        × (status'.hard ≡ status.hard)
  unfolding assign_used_quota_to_resource_status
  assign_used_quota-lookup status used n = (simp lookup-insert, refl)
