-- ===== src/Tests/Admission.antt =====
-- Requests that the webhooks of api/v1alpha1 admit one after the other in the sample cluster.
use ceph_s3_operator.Prelude.Assoc.{lookup}
use ceph_s3_operator.Quota.{
  calculate_cluster_used_quota, find_team, find_team_namespaces, sum_namespaces, select_team,
  calculate_namespace_used_quota, sum_claims, add_current, add_quota, empty_quota, add_int64,
}
use ceph_s3_operator.Prelude.{◌≡◌, refl, ap, false, Option, some, none, [], ◌∷◌, arith}
use ceph_s3_operator.Prelude.Int.{◌+ℤ◌, ℤ}
use ceph_s3_operator.Prelude.Text.{text, ◌==◌, eq_sym}
use ceph_s3_operator.Go.{has_reason, ok, ok_injective}
use ceph_s3_operator.Api.{S3UserClaim, S3Bucket}
use ceph_s3_operator.ClaimWebhook as Claim
use ceph_s3_operator.ClaimWebhook.{
  allowed, bucket_object, claim_object, validate_against_namespace_quota,
  validate_against_cluster_quota,
}
use ceph_s3_operator.ClaimWebhook.Verdicts.{validate_create_iff, validate_update_iff}
use ceph_s3_operator.BucketWebhook as Bucket
use ceph_s3_operator.Admission.{key_of, Store, empty_store, put, Shows, Accepted, Reach}
use ceph_s3_operator.Admission.Limits.{Fits, Granted, Grants, Grants-Fits}
use ceph_s3_operator.Prelude.{inl}
use ceph_s3_operator.Sample.Laws.{quantity_laws}
use ceph_s3_operator.Admission.References.{reach-HasClaims}
use ceph_s3_operator.Sample.{World, env, found, absent}
use ceph_s3_operator.Sample.Objects.{world, orders, smaller, bucket, shop, quota, resource_quota}

abbrev nothing_yet : World
nothing_yet = record world { claim_list = []; bucket_list = [] }

abbrev with_claim : World
with_claim = record world { claim_list = orders ∷ []; bucket_list = [] }

nothing_yet-Shows : Shows env nothing_yet empty_store
nothing_yet-Shows = record {
  gets = λ key c h. ground arith;
  lists = λ key b items h e. ground arith;
}

abbrev claim_stored : Store ℤ
claim_stored = record empty_store {
  claims = put (key_of orders.meta) (some orders) empty_store.claims;
}

found_some : {A : Type 0} (o : Option A) (a : A) → found o ≡ ok a → o ≡ some a
found_some none a h = ground arith
found_some (some b) a h = ap some (ok_injective h)

with_claim-Shows : Shows env with_claim claim_stored
with_claim-Shows = record {
  gets =
      λ key c h. rw (eq_sym key.namespace shop, eq_sym key.name (text "orders")) (found_some _ c h);
  lists = λ key b items h e. ground arith;
}

abbrev photos : S3Bucket
photos = record bucket { spec = record (bucket.spec) { s3_user_ref = text "orders" } }

abbrev retained : S3Bucket
retained = record photos { spec = record (photos.spec) { s3_deletion_policy = text "retain" } }

orders_namespace : validate_against_namespace_quota env nothing_yet orders ≡ ok tt
unfolding validate_against_namespace_quota calculate_namespace_used_quota sum_claims add_current
    Claim.check_quotas Claim.exceeds_quota lookup ◌==◌ add_quota ◌+ℤ◌ empty_quota Claim.gt_int64
    add_int64
orders_namespace = refl

orders_cluster : validate_against_cluster_quota env nothing_yet orders ≡ ok tt
unfolding validate_against_cluster_quota calculate_cluster_used_quota find_team ◌==◌ lookup
    find_team_namespaces sum_namespaces select_team sum_claims add_current Claim.check_cluster_quota
    Claim.check_limit add_quota ◌+ℤ◌ empty_quota Claim.gt_int64 add_int64
orders_cluster = refl

orders_admitted : Claim.validate_create env nothing_yet orders ≡ allowed
unfolding has_reason ◌==◌
orders_admitted =
    (validate_create_iff env nothing_yet orders).1
      (orders_namespace, orders_cluster, (absent, refl, refl), (absent, refl, refl))

photos_admitted : Bucket.validate_create env with_claim photos ≡ allowed
unfolding Bucket.validate_create ◌==◌ Claim.verdict
photos_admitted = refl

retained_admitted : Bucket.validate_update env (bucket_object photos) retained ≡ allowed
unfolding Bucket.validate_update Claim.verdict ◌==◌
retained_admitted = refl

abbrev bucket_stored : Store ℤ
bucket_stored = record claim_stored {
  buckets = put (key_of photos.meta) (some photos) claim_stored.buckets;
}

abbrev bucket_kept : Store ℤ
bucket_kept = record bucket_stored {
  buckets = put (key_of retained.meta) (some retained) bucket_stored.buckets;
}

kept_is_live :
    (c : S3UserClaim ℤ)
    → claim_stored.claims (record { namespace = shop; name = text "orders" }) ≡ some c
    → c.meta.deleting ≡ false
kept_is_live c h = ground arith

requests : Reach env empty_store bucket_kept
unfolding ◌==◌
requests =
    Reach.after empty_store bucket_stored bucket_kept
      (Reach.after empty_store claim_stored bucket_stored
        (Reach.after empty_store empty_store claim_stored (Reach.here empty_store) (
          Accepted.claim_created empty_store nothing_yet orders nothing_yet-Shows refl
            orders_admitted))
        (Accepted.bucket_created claim_stored with_claim photos with_claim-Shows kept_is_live
          photos_admitted))
      (Accepted.bucket_updated bucket_stored photos retained refl retained_admitted)

reach-HasClaims_example :
    (c : S3UserClaim ℤ) × (bucket_kept.claims (record { namespace = shop; name = text "orders" })
      ≡ some c)
    × (c.meta.deleting ≡ false)
unfolding ◌==◌
reach-HasClaims_example =
    reach-HasClaims env bucket_kept requests (key_of retained.meta) retained refl

smaller_namespace : validate_against_namespace_quota env with_claim smaller ≡ ok tt
unfolding validate_against_namespace_quota calculate_namespace_used_quota sum_claims add_current
    Claim.check_quotas Claim.exceeds_quota lookup ◌==◌ add_quota ◌+ℤ◌ empty_quota Claim.gt_int64
    add_int64
smaller_namespace = refl

smaller_cluster : validate_against_cluster_quota env with_claim smaller ≡ ok tt
unfolding validate_against_cluster_quota calculate_cluster_used_quota find_team ◌==◌ lookup
    find_team_namespaces sum_namespaces select_team sum_claims add_current Claim.check_cluster_quota
    Claim.check_limit add_quota ◌+ℤ◌ empty_quota Claim.gt_int64 add_int64
smaller_cluster = refl

smaller_admitted : Claim.validate_update env with_claim (claim_object orders) smaller ≡ allowed
smaller_admitted =
    (validate_update_iff env with_claim orders smaller).1
      (refl, smaller_namespace, smaller_cluster, inl refl, inl refl)

nothing-Fits : Fits env quantity_laws shop (resource_quota ∷ []) []
unfolding lookup ◌==◌
nothing-Fits = record {
  plain = tt;
  under = (
    record { objects_under = omega arith; size_under = omega arith; buckets_under = omega arith },
    tt,
  );
}

-- The claim is created, and is then updated to ask for less.
two_requests : Grants env quantity_laws shop (resource_quota ∷ []) [] (smaller ∷ [])
unfolding ◌==◌
two_requests =
    Grants.after [] (orders ∷ []) (smaller ∷ [])
      (Grants.after [] [] (orders ∷ []) (Grants.here []) (
        Granted.created nothing_yet orders [] (record { claims = refl; limits = refl }) refl
          (quota 3, refl, (omega arith, omega arith)) tt (omega arith) orders_admitted))
      (Granted.updated with_claim orders smaller [] [] (record { claims = refl; limits = refl })
        refl (quota 1, refl, (omega arith, omega arith)) tt tt refl (omega arith) smaller_admitted)

Grants-Fits_example : Fits env quantity_laws shop (resource_quota ∷ []) (smaller ∷ [])
Grants-Fits_example =
    Grants-Fits env quantity_laws shop (resource_quota ∷ []) two_requests nothing-Fits
