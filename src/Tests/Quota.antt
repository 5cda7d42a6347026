-- ===== src/Tests/Quota.antt =====
-- The used quotas of the sample namespaces.
use ceph_s3_operator.Prelude.{◌≡◌, refl, inl, inr, true, some, [], ◌∷◌, ◌++◌, In}
use ceph_s3_operator.Prelude.Int.{◌+ℤ◌, ℤ}
use ceph_s3_operator.Prelude.Text.{◌==◌, text}
use ceph_s3_operator.Prelude.Assoc.{lookup}
use ceph_s3_operator.Go.{ok}
use ceph_s3_operator.Api.{UserQuota}
use ceph_s3_operator.Quota.{
  sum_claims, add_current, add_quota, empty_quota, add_int64, calculate_namespace_used_quota,
  calculate_cluster_used_quota, is_other_name, is_other_claim, find_team, select_team,
}
use ceph_s3_operator.Quota.Sums.{IsSumOf, counted_quotas, current_quota}
use ceph_s3_operator.Quota.PerNamespace.{calculate_namespace_used_quota_sums}
use ceph_s3_operator.Quota.PerTeam.{
  Listed, done, one, mem-select_team, calculate_cluster_used_quota_sums,
}
use ceph_s3_operator.Sample.{env}
use ceph_s3_operator.Sample.Laws.{quantity_laws}
use ceph_s3_operator.Sample.Objects.{
  shop, bank, world, orders, images, ledger, quota, team_namespace,
}

namespace_run : calculate_namespace_used_quota env world (some orders) shop true ≡ ok (quota 5)
unfolding calculate_namespace_used_quota sum_claims ◌==◌ add_current add_quota ◌+ℤ◌ add_int64
    empty_quota
namespace_run = refl

calculate_namespace_used_quota_sums_example :
    (total : UserQuota ℤ) × (calculate_namespace_used_quota env world (some orders) shop true
      ≡ ok total)
    × IsSumOf quantity_laws
        (counted_quotas (is_other_name env orders) (images ∷ orders ∷ [])
          ++ current_quota quantity_laws true (quota 3))
        total
unfolding ◌==◌
calculate_namespace_used_quota_sums_example =
    calculate_namespace_used_quota_sums env quantity_laws world orders shop true (quota 3)
      (images ∷ orders ∷ []) refl refl ((λ h. tt), ((λ h. tt), tt))

pub orders_team : find_team env world orders ≡ ok (text "red")
unfolding find_team lookup ◌==◌
orders_team = refl

pub listed :
    Listed env quantity_laws world orders
      (shop ∷ bank ∷ [])
      ((images ∷ orders ∷ []) ++ ((ledger ∷ []) ++ []))
unfolding ◌==◌
listed = one refl ((λ h. tt), ((λ h. tt), tt)) (one refl ((λ h. tt), tt) done)

pub team_namespaces :
    select_team env (text "red") (team_namespace shop ∷ team_namespace bank ∷ []) ≡ shop ∷ bank ∷ []
unfolding select_team lookup ◌==◌
team_namespaces = refl

calculate_cluster_used_quota_sums_example :
    (total : UserQuota ℤ) × (calculate_cluster_used_quota env world orders true
      ≡ ok (total, text "red"))
    × IsSumOf quantity_laws
        (counted_quotas (is_other_claim env orders) (images ∷ orders ∷ ledger ∷ [])
          ++ current_quota quantity_laws true (quota 3))
        total
unfolding select_team lookup ◌==◌
calculate_cluster_used_quota_sums_example =
    calculate_cluster_used_quota_sums env quantity_laws world orders true (quota 3) orders_team refl
      listed refl

mem-select_team_example :
    In bank (select_team env (text "red") (team_namespace shop ∷ team_namespace bank ∷ []))
unfolding lookup ◌==◌
mem-select_team_example =
    (mem-select_team env (text "red") bank (team_namespace shop ∷ team_namespace bank ∷ [])).1
      (team_namespace bank, inr (inl refl), refl, refl)
