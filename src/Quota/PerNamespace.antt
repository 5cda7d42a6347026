-- ===== src/Quota/PerNamespace.antt =====
-- `CalculateNamespaceUsedQuota` of api/v1alpha1/quota_handler.go as a sum.
use ceph_s3_operator.Prelude.{◌≡◌, Bool, some, List, ◌++◌}
use ceph_s3_operator.Prelude.Text.{Text}
use ceph_s3_operator.Go.{ok}
use ceph_s3_operator.Api.{UserQuota, S3UserClaim}
use ceph_s3_operator.Env.{Env}
use ceph_s3_operator.Quota.{empty_quota, is_other_name, calculate_namespace_used_quota}
use ceph_s3_operator.Quota.Sums.{
  QuantityLaws, counted_quotas, IsSumOf, AllQuotas, current_quota, sum_claims-Adds,
  sum_claims_total, add_current-Adds, Adds-append, Adds-empty, Adds-bound, empty_quota_bound,
}

module _ {Q W : Type 0} (env : Env Q W) (laws : QuantityLaws env.quantities) where
  open env use {uncached_claims}

  -- Under the laws of quantities, where the claims of the namespace are listed, those of another
  -- name with quotas, and the claim has a quota: the used quota is the sum (modulo 2 ^ 64 in
  -- buckets) of the quotas of the claims of another name and, if the flag says so, of the claim as
  -- passed.
  pub calculate_namespace_used_quota_sums :
      (w : W) (suc : S3UserClaim Q) (ns : Text) (flag : Bool) (q : UserQuota Q)
      (items : List (S3UserClaim Q))
      → uncached_claims w ns ≡ ok items
      → suc.spec.quota ≡ some q
      → AllQuotas laws (is_other_name env suc) items
      → (total : UserQuota Q) × (calculate_namespace_used_quota env w (some suc) ns flag ≡ ok total)
        × IsSumOf laws
            (counted_quotas (is_other_name env suc) items ++ current_quota laws flag q)
            total
  unfolding calculate_namespace_used_quota
  calculate_namespace_used_quota_sums w suc ns flag q items listed has_quota all =
      let quantities = env.quantities in
      let counted : S3UserClaim Q → Bool = is_other_name env suc in
      let zero_total = empty_quota quantities in
      let (base, summed) = sum_claims_total laws counted zero_total items all in
      let adds =
        sum_claims-Adds laws counted zero_total base items (empty_quota_bound quantities) summed in
      let (total, added, one_more) =
        add_current-Adds laws flag suc q base
          (Adds-bound laws zero_total (counted_quotas counted items) base adds) has_quota in
      (
        total,
        rw (listed, summed) added,
        Adds-empty laws (counted_quotas counted items ++ current_quota laws flag q) total (
            Adds-append laws zero_total base total (counted_quotas counted items)
              (current_quota laws flag q) adds one_more),
      )
