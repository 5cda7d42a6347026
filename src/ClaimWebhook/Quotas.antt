-- ===== src/ClaimWebhook/Quotas.antt =====
-- The quota validators as a whole: what the namespace's and the team's claims ask for together,
-- against the limits.
use ceph_s3_operator.Prelude.{◌≡◌, ◌↔◌, ◌⊎◌, true, some, List, [], ◌∷◌, ◌++◌, All}
use ceph_s3_operator.Prelude.Text.{Text}
use ceph_s3_operator.Go.{ok, err}
use ceph_s3_operator.Consts.{err_exceeded_namespace_quota}
use ceph_s3_operator.Api.{UserQuota, S3UserClaim, ResourceQuota, ClusterResourceQuota, Namespace}
use ceph_s3_operator.Env.{Env}
use ceph_s3_operator.Quota.{is_other_name, is_other_claim, find_team, select_team}
use ceph_s3_operator.Quota.Sums.{QuantityLaws, IsSumOf, AllQuotas, counted_quotas, IsSumOf-bound}
use ceph_s3_operator.Quota.PerNamespace.{calculate_namespace_used_quota_sums}
use ceph_s3_operator.Quota.PerTeam.{Listed, calculate_cluster_used_quota_sums}
use ceph_s3_operator.ClaimWebhook.{validate_against_namespace_quota, validate_against_cluster_quota}
use ceph_s3_operator.ClaimWebhook.Limits.{
  IsWithin, IsBounded, check_quotas_iff, check_quotas_cases, check_cluster_quota_iff,
}

module _ {Q W : Type 0} (env : Env Q W) (laws : QuantityLaws env.quantities) where
  open env use {uncached_claims, all_namespaces, resource_quotas, cluster_quotas}

  -- Under the laws of quantities, where the claims of the namespace and its resource quotas are
  -- listed, the claims of another name have quotas, and so has the new one: the validator returns
  -- nil exactly if the sum of those quotas (modulo 2 ^ 64 in buckets, which count as int64) is
  -- within every resource quota, and otherwise the error of the exceeded namespace quota.
  pub validate_against_namespace_quota_iff :
      (w : W) (suc : S3UserClaim Q) {q : UserQuota Q} {items : List (S3UserClaim Q)}
      {quotas : List (ResourceQuota Q)}
      → uncached_claims w suc.meta.namespace ≡ ok items
      → resource_quotas.list w suc.meta.namespace ≡ ok quotas
      → suc.spec.quota ≡ some q
      → AllQuotas laws (is_other_name env suc) items
      → (total : UserQuota Q) × IsSumOf laws
          (counted_quotas (is_other_name env suc) items ++ q ∷ [])
          total
        × ((validate_against_namespace_quota env w suc ≡ ok tt)
            ↔ All (λ quota. IsWithin laws total quota.hard) quotas)
        × ((validate_against_namespace_quota env w suc ≡ ok tt)
            ⊎ (validate_against_namespace_quota env w suc ≡ err err_exceeded_namespace_quota))
  unfolding validate_against_namespace_quota
  validate_against_namespace_quota_iff w suc {q} {items} {quotas} claims listed has_quota all =
      let (total, used, is_sum) =
        calculate_namespace_used_quota_sums env laws w suc suc.meta.namespace true q items claims
          has_quota all in
      (
        total,
        is_sum,
        rw (used, listed) (check_quotas_iff laws total quotas (IsSumOf-bound laws is_sum)),
        rw (used, listed) (check_quotas_cases laws total quotas),
      )

  -- Under the laws of quantities, where the team of the claim is found, the claims of its
  -- namespaces are listed, all but maybe the one at hand with quotas, the claim has a quota, and
  -- the team has a cluster quota: the validator returns nil exactly if that sets all three limits
  -- and the sum of the quotas of the team's other claims and the claim at hand (modulo 2 ^ 64 in
  -- buckets, which count as int64) is under them.
  pub validate_against_cluster_quota_iff :
      (w : W) (suc : S3UserClaim Q) {q : UserQuota Q} {team : Text} {namespaces : List Namespace}
      {items : List (S3UserClaim Q)} {quota : ClusterResourceQuota Q}
      → find_team env w suc ≡ ok team
      → all_namespaces w ≡ ok namespaces
      → Listed env laws w suc (select_team env team namespaces) items
      → cluster_quotas.get w team ≡ ok quota
      → suc.spec.quota ≡ some q
      → (total : UserQuota Q) × IsSumOf laws
          (counted_quotas (is_other_claim env suc) items ++ q ∷ [])
          total
        × ((validate_against_cluster_quota env w suc ≡ ok tt) ↔ IsBounded laws total quota.hard)
  unfolding validate_against_cluster_quota
  validate_against_cluster_quota_iff w suc {q} {team} {quota} found namespaces listed got
        has_quota =
      let (total, used, is_sum) =
        calculate_cluster_used_quota_sums env laws w suc true q found namespaces listed has_quota in
      (
        total,
        is_sum,
        rw (used, got)
            (check_cluster_quota_iff laws team total quota.hard (IsSumOf-bound laws is_sum)),
      )
