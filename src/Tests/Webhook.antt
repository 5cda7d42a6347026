-- ===== src/Tests/Webhook.antt =====
-- The webhooks and the predicate on the sample objects.
use ceph_s3_operator.Prelude.Assoc.{lookup}
use ceph_s3_operator.Prelude.{◌-◌, ◌^◌, ◌≡◌, ◌≢◌, ◌↔◌, ◌⊎◌, refl, inl, [], ◌∷◌, ◌++◌, arith, All}
use ceph_s3_operator.Prelude.Int.{◌+ℤ◌, ℤ}
use ceph_s3_operator.Prelude.Text.{◌==◌, text}
use ceph_s3_operator.Go.{has_reason, ok, err}
use ceph_s3_operator.Consts.{err_exceeded_namespace_quota}
use ceph_s3_operator.Api.{UserQuota}
use ceph_s3_operator.Quota.{
  calculate_cluster_used_quota, find_team_namespaces, sum_namespaces,
  calculate_namespace_used_quota, sum_claims, add_current, add_quota, empty_quota, find_team,
  select_team, add_int64, is_other_name, is_other_claim,
}
use ceph_s3_operator.Quota.Sums.{IsSumOf, counted_quotas}
use ceph_s3_operator.Quota.PerTeam.{Listed, done, one}
use ceph_s3_operator.ClaimWebhook.{
  check_cluster_quota, check_limit, check_quotas, exceeds_quota, gt_int64, allowed, claim_object,
  bucket_object, validate_against_namespace_quota, validate_against_cluster_quota, validate_create,
  validate_update, validate_delete, has_bucket_of,
}
use ceph_s3_operator.ClaimWebhook.Limits.{IsWithin, IsBounded}
use ceph_s3_operator.ClaimWebhook.Overflow.{BucketLimit, validate_against_namespace_quota_wraps}
use ceph_s3_operator.Prelude.{some, map, ◌≤◌, ◌⊎◌, ◌^◌}
use ceph_s3_operator.Prelude.Int.{sum, ◌+ℤ◌}
use ceph_s3_operator.Prelude.Assoc.{lookup}
use ceph_s3_operator.Api.{S3UserClaim}
use ceph_s3_operator.ClaimWebhook.Quotas.{
  validate_against_namespace_quota_iff, validate_against_cluster_quota_iff,
}
use ceph_s3_operator.ClaimWebhook.Deletion.{validate_delete_iff}
use ceph_s3_operator.ClaimWebhook as Claim
use ceph_s3_operator.ClaimWebhook.{FieldError, forbidden, invalid, quota_path, changed_secrets}
use ceph_s3_operator.ClaimWebhook.Reports.{
  IsExplained, validate_create-IsExplained, validate_update-IsExplained,
}
use mathlib.Core.Path.{subst}
use ceph_s3_operator.Api.{S3UserClaim}
use ceph_s3_operator.Prelude.{List, none, some}
use ceph_s3_operator.Go.{error_text, is_custom, has_reason, err}
use ceph_s3_operator.Consts.{err_exceeded_namespace_quota, err_exceeded_cluster_quota}
use ceph_s3_operator.ClaimWebhook.Verdicts.{validate_create_iff, validate_update_iff}
use ceph_s3_operator.BucketWebhook as BucketHook
use ceph_s3_operator.BucketWebhook.References.{bucket_create_iff}
use ceph_s3_operator.Predicates.{passes, update, create, delete, claim}
use ceph_s3_operator.Predicates.Classes.{passes-update}
use ceph_s3_operator.Sample.{env, absent}
use ceph_s3_operator.Sample.Laws.{quantity_laws}
use ceph_s3_operator.Sample.Objects.{
  world, orders, smaller, images, ledger, quota, resource_quota, cluster_quota, bucket,
}

-- With the two buckets of `images`, the claim asks for 2 ^ 63.
abbrev vast_quota : UserQuota ℤ
vast_quota = record (quota 3) { max_buckets = 2 ^ 63 - 2 }

abbrev vast : S3UserClaim ℤ
vast = record orders { spec = record (orders.spec) { quota = some vast_quota } }

validate_against_namespace_quota_wraps_example :
    (validate_against_namespace_quota env world vast ≡ ok tt) ↔ (
      (2 ^ 63
        ≤ sum (
            map
              (λ p. p.max_buckets)
              (counted_quotas (is_other_name env vast) (images ∷ orders ∷ []) ++ vast_quota ∷ [])))
      ⊎ All
          (BucketLimit env quantity_laws (λ limit.
            sum (
              map
                (λ p. p.max_buckets)
                (counted_quotas (is_other_name env vast) (images ∷ orders ∷ []) ++ vast_quota ∷ []))
            ≤ limit))
          (resource_quota ∷ []))
unfolding ◌==◌ lookup counted_quotas ◌+ℤ◌
validate_against_namespace_quota_wraps_example =
    validate_against_namespace_quota_wraps env quantity_laws world vast {q = vast_quota}
      {items = images ∷ orders ∷ []} {quotas = resource_quota ∷ []} refl refl refl
      ((λ h. tt), ((λ h. tt), tt)) (omega arith) (omega arith, tt)
      (record { objects = omega arith; size = omega arith }, tt)

validate_against_namespace_quota_iff_example :
    (total : UserQuota ℤ) × IsSumOf quantity_laws
      (counted_quotas (is_other_name env orders) (images ∷ orders ∷ []) ++ quota 3 ∷ [])
      total
    × ((validate_against_namespace_quota env world orders ≡ ok tt)
        ↔ All (λ quota. IsWithin quantity_laws total quota.hard) (resource_quota ∷ []))
    × ((validate_against_namespace_quota env world orders ≡ ok tt)
        ⊎ (validate_against_namespace_quota env world orders ≡ err err_exceeded_namespace_quota))
unfolding ◌==◌
validate_against_namespace_quota_iff_example =
    validate_against_namespace_quota_iff env quantity_laws world orders
      {items = images ∷ orders ∷ []} refl refl refl ((λ h. tt), ((λ h. tt), tt))

orders_listed :
    Listed env quantity_laws world orders
      (text "shop" ∷ text "bank" ∷ [])
      ((images ∷ orders ∷ []) ++ ((ledger ∷ []) ++ []))
unfolding ◌==◌
orders_listed = one refl ((λ h. tt), ((λ h. tt), tt)) (one refl ((λ h. tt), tt) done)

validate_against_cluster_quota_iff_example :
    (total : UserQuota ℤ) × IsSumOf quantity_laws
      (counted_quotas (is_other_claim env orders) (images ∷ orders ∷ ledger ∷ []) ++ quota 3 ∷ [])
      total
    × ((validate_against_cluster_quota env world orders ≡ ok tt)
        ↔ IsBounded quantity_laws total cluster_quota.hard)
unfolding find_team ◌==◌ lookup select_team
validate_against_cluster_quota_iff_example =
    validate_against_cluster_quota_iff env quantity_laws world orders {team = text "red"} refl refl
      orders_listed refl refl

orders_namespace : validate_against_namespace_quota env world orders ≡ ok tt
unfolding validate_against_namespace_quota calculate_namespace_used_quota sum_claims ◌==◌
    add_current check_quotas exceeds_quota lookup add_quota ◌+ℤ◌ empty_quota gt_int64 add_int64
orders_namespace = refl

orders_cluster : validate_against_cluster_quota env world orders ≡ ok tt
unfolding validate_against_cluster_quota calculate_cluster_used_quota find_team ◌==◌ lookup
    find_team_namespaces sum_namespaces select_team sum_claims add_current check_cluster_quota
    check_limit add_quota ◌+ℤ◌ empty_quota gt_int64 add_int64
orders_cluster = refl

validate_create_iff_example : validate_create env world orders ≡ allowed
unfolding has_reason ◌==◌
validate_create_iff_example =
    (validate_create_iff env world orders).1
      (orders_namespace, orders_cluster, (absent, refl, refl), (absent, refl, refl))

smaller_namespace : validate_against_namespace_quota env world smaller ≡ ok tt
unfolding validate_against_namespace_quota calculate_namespace_used_quota sum_claims ◌==◌
    add_current check_quotas exceeds_quota lookup add_quota ◌+ℤ◌ empty_quota gt_int64 add_int64
smaller_namespace = refl

smaller_cluster : validate_against_cluster_quota env world smaller ≡ ok tt
unfolding validate_against_cluster_quota calculate_cluster_used_quota find_team ◌==◌ lookup
    find_team_namespaces sum_namespaces select_team sum_claims add_current check_cluster_quota
    check_limit add_quota ◌+ℤ◌ empty_quota gt_int64 add_int64
smaller_cluster = refl

validate_update_iff_example : validate_update env world (claim_object orders) smaller ≡ allowed
validate_update_iff_example =
    (validate_update_iff env world orders smaller).1
      (refl, smaller_namespace, smaller_cluster, inl refl, inl refl)

images_is_not_orders : text "images" ≢ text "orders"
images_is_not_orders = λ h. ground arith

validate_delete_iff_example : validate_delete env world orders ≡ allowed
validate_delete_iff_example =
    (validate_delete_iff env world orders).1 (bucket ∷ [], refl, (images_is_not_orders, tt))

-- The bucket as its deletion policy is changed.
bucket_create_iff_example : BucketHook.validate_create env world bucket ≡ allowed
unfolding ◌==◌
bucket_create_iff_example = (bucket_create_iff env world bucket).1 (images, refl)

passes-update_example :
    (passes (record { s3_user_class = text "ceph" }) (update (claim orders) (claim smaller))
      ≡ passes (record { s3_user_class = text "ceph" }) (create (claim orders)))
    × (passes (record { s3_user_class = text "ceph" }) (delete (claim smaller))
        ≡ passes (record { s3_user_class = text "ceph" }) (create (claim orders)))
passes-update_example =
    passes-update env (record { s3_user_class = text "ceph" }) world orders smaller
      validate_update_iff_example

-- The claim at hand as it asks for more than the namespace and the team may have.
abbrev greedy : S3UserClaim ℤ
greedy = record orders { spec = record (orders.spec) { quota = some (quota 100) } }

abbrev exceeded : List FieldError
exceeded =
    forbidden (quota_path env) (error_text err_exceeded_namespace_quota)
    ∷ forbidden (quota_path env) (error_text err_exceeded_cluster_quota)
    ∷ []

greedy_namespace :
    validate_against_namespace_quota env world greedy ≡ err err_exceeded_namespace_quota
unfolding validate_against_namespace_quota calculate_namespace_used_quota sum_claims ◌==◌
    add_current check_quotas exceeds_quota lookup add_quota ◌+ℤ◌ empty_quota
greedy_namespace = refl

greedy_cluster : validate_against_cluster_quota env world greedy ≡ err err_exceeded_cluster_quota
unfolding validate_against_cluster_quota calculate_cluster_used_quota find_team ◌==◌ lookup
    find_team_namespaces sum_namespaces select_team sum_claims add_current check_cluster_quota
    check_limit add_quota ◌+ℤ◌ empty_quota
greedy_cluster = refl

greedy_refused : Claim.validate_create env world greedy ≡ invalid (text "orders") exceeded
unfolding Claim.validate_create Claim.validate_quota Claim.validate_secrets
    Claim.secret_field_errors Claim.namespace_field_errors Claim.cluster_field_errors is_custom
    has_reason ◌==◌ error_text Claim.verdict
greedy_refused = rw (greedy_namespace, greedy_cluster) refl

validate_create-IsExplained_example :
    IsExplained env world greedy none
      (text "orders-rw" ∷ text "orders-ro" ∷ [])
      (invalid (text "orders") exceeded)
validate_create-IsExplained_example =
    subst (IsExplained env world greedy none (text "orders-rw" ∷ text "orders-ro" ∷ []))
      greedy_refused (validate_create-IsExplained env world greedy)

validate_update-IsExplained_example :
    IsExplained env world greedy
      (some orders)
      (changed_secrets env orders greedy)
      (Claim.validate_update env world (claim_object orders) greedy)
validate_update-IsExplained_example = validate_update-IsExplained env world greedy orders
