-- ===== src/ClaimWebhook/Overflow.antt =====
-- The comparison of bucket counts in api/v1alpha1/s3userclaim_webhook.go at the end of the range of
-- int64.
use ceph_s3_operator.Prelude.{
  ℕ, ◌%◌, ◌^◌, ◌<◌, ◌≤◌, ◌≡◌, ◌↔◌, ◌⊎◌, inl, inr, sym, Option, none, some, List, [], ◌∷◌, ◌++◌, map,
  All, arith, ltb, Bool-cases,
}
use mathlib.Core.Path.{subst}
use ceph_s3_operator.Prelude.Int.{ℤ, ◌≤ℤ◌, sum_ℤ, sum}
use ceph_s3_operator.Prelude.Assoc.{lookup}
use ceph_s3_operator.Go.{ok}
use ceph_s3_operator.Consts.{
  resource_name_s3_max_objects, resource_name_s3_max_size, resource_name_s3_max_buckets,
}
use ceph_s3_operator.Api.{UserQuota, S3UserClaim, ResourceQuota}
use ceph_s3_operator.Env.{Env}
use ceph_s3_operator.Quota.{is_other_name}
use ceph_s3_operator.Quota.Sums.{QuantityLaws, IsSumOf, AllQuotas, counted_quotas}
use ceph_s3_operator.ClaimWebhook.{validate_against_namespace_quota}
use ceph_s3_operator.ClaimWebhook.Limits.{Under, IsWithin, int64}
use ceph_s3_operator.ClaimWebhook.Quotas.{validate_against_namespace_quota_iff}

-- A sum of buckets passes a limit as an int64 if it is no more, or if it has wrapped.
passes :
    (n total limit : ℕ)
    → total ≡ n % 2 ^ 64
    → n < 2 ^ 64
    → limit < 2 ^ 63
    → (int64 total ≤ℤ int64 limit) ↔ ((2 ^ 63 ≤ n) ⊎ (n ≤ limit))
passes n total limit e bound small = (λ h. ground arith, λ h. ground arith)

le_of_eq : (a b c : ℤ) → a ≡ b → b ≤ℤ c → a ≤ℤ c
le_of_eq a b c e h = subst (λ x. x ≤ℤ c) (sym e) h

module _ {Q W : Type 0} (env : Env Q W) (laws : QuantityLaws env.quantities) where
  open laws use {amount}

  abbrev pub BucketLimit : (ℕ → Type 0) → ResourceQuota Q → Type 0
  BucketLimit P quota =
      Under (λ limit. P (env.quantities.int64_value limit))
        (lookup resource_name_s3_max_buckets quota.hard)

  -- The sums of sizes and of objects are under the limits of a resource quota.
  pub record HoldsSizes (qs : List (UserQuota Q)) (quota : ResourceQuota Q) : Type 0 where
    pub objects :
        Under
          (λ limit. sum_ℤ (map (λ q. amount q.max_objects) qs) ≤ℤ amount limit)
          (lookup resource_name_s3_max_objects quota.hard)
    pub size :
        Under
          (λ limit. sum_ℤ (map (λ q. amount q.max_size) qs) ≤ℤ amount limit)
          (lookup resource_name_s3_max_size quota.hard)

  abbrev buckets : List (UserQuota Q) → ℕ
  buckets qs = sum (map (λ q. q.max_buckets) qs)

  Under-map :
      (P R : Q → Type 0) (o : Option Q) → ((limit : Q) → P limit → R limit) → Under P o → Under R o
  Under-map P R none f u = tt
  Under-map P R (some limit) f u = f limit u

  Under-all : (P : Q → Type 0) (o : Option Q) → ((limit : Q) → P limit) → Under P o
  Under-all P none f = tt
  Under-all P (some limit) f = f limit

  Under-both :
      (P R S : Q → Type 0) (o : Option Q)
      → ((limit : Q) → P limit → R limit → S limit)
      → Under P o
      → Under R o
      → Under S o
  Under-both P R S none f u v = tt
  Under-both P R S (some limit) f u v = f limit u v

  held :
      (qs : List (UserQuota Q)) (total : UserQuota Q) (quotas : List (ResourceQuota Q))
      → IsSumOf laws qs total
      → buckets qs < 2 ^ 63
      → All (BucketLimit (λ limit. limit < 2 ^ 63)) quotas
      → All (λ quota. IsWithin laws total quota.hard) quotas
      → All (BucketLimit (λ limit. buckets qs ≤ limit)) quotas
  held qs total [] is_sum bound small within = tt
  held qs total (quota ∷ quotas) is_sum bound small within = (
    Under-both (λ limit. env.quantities.int64_value limit < 2 ^ 63)
        (λ limit. int64 total.max_buckets ≤ℤ int64 (env.quantities.int64_value limit))
        (λ limit. buckets qs ≤ env.quantities.int64_value limit)
        (lookup resource_name_s3_max_buckets quota.hard)
        (λ limit s h.
          elim ((passes (buckets qs) total.max_buckets (env.quantities.int64_value limit)
              is_sum.buckets (omega (arith, bound)) s).0
            h) [ inl big ↦ omega (arith, big, bound) | inr fits ↦ fits ])
        small.0 within.0.buckets,
    held qs total quotas is_sum bound small.1 within.1,
  )

  IsWithin-All :
      (qs : List (UserQuota Q)) (total : UserQuota Q) (quotas : List (ResourceQuota Q))
      → IsSumOf laws qs total
      → buckets qs < 2 ^ 64
      → All (BucketLimit (λ limit. limit < 2 ^ 63)) quotas
      → All (HoldsSizes qs) quotas
      → All (BucketLimit (λ limit. (2 ^ 63 ≤ buckets qs) ⊎ (buckets qs ≤ limit))) quotas
      → All (λ quota. IsWithin laws total quota.hard) quotas
  IsWithin-All qs total [] is_sum bound small sizes fits = tt
  IsWithin-All qs total (quota ∷ quotas) is_sum bound small sizes fits = (
    record {
      objects =
          Under-map (λ limit. sum_ℤ (map (λ q. amount q.max_objects) qs) ≤ℤ amount limit)
            (λ limit. amount total.max_objects ≤ℤ amount limit)
            (lookup resource_name_s3_max_objects quota.hard)
            (λ limit. le_of_eq _ _ (amount limit) is_sum.objects) sizes.0.objects;
      size =
          Under-map (λ limit. sum_ℤ (map (λ q. amount q.max_size) qs) ≤ℤ amount limit)
            (λ limit. amount total.max_size ≤ℤ amount limit)
            (lookup resource_name_s3_max_size quota.hard)
            (λ limit. le_of_eq _ _ (amount limit) is_sum.size) sizes.0.size;
      buckets =
          Under-both (λ limit. env.quantities.int64_value limit < 2 ^ 63)
            (λ limit. (2 ^ 63 ≤ buckets qs) ⊎ (buckets qs ≤ env.quantities.int64_value limit))
            (λ limit. int64 total.max_buckets ≤ℤ int64 (env.quantities.int64_value limit))
            (lookup resource_name_s3_max_buckets quota.hard)
            (λ limit s.
              (passes (buckets qs) total.max_buckets (env.quantities.int64_value limit)
                is_sum.buckets bound s).1)
            small.0 fits.0;
    },
    IsWithin-All qs total quotas is_sum bound small.1 sizes.1 fits.1,
  )

  either-All :
      (n : ℕ) (quotas : List (ResourceQuota Q))
      → ((2 ^ 63 ≤ n) ⊎ All (BucketLimit (λ limit. n ≤ limit)) quotas)
      → All (BucketLimit (λ limit. (2 ^ 63 ≤ n) ⊎ (n ≤ limit))) quotas
  either-All n [] h = tt
  either-All n (quota ∷ quotas) (inl big) = (
    Under-all (λ limit. (2 ^ 63 ≤ n) ⊎ (n ≤ env.quantities.int64_value limit))
        (lookup resource_name_s3_max_buckets quota.hard) (λ limit. inl big),
    either-All n quotas (inl big),
  )
  either-All n (quota ∷ quotas) (inr h) = (
    Under-map (λ limit. n ≤ env.quantities.int64_value limit)
        (λ limit. (2 ^ 63 ≤ n) ⊎ (n ≤ env.quantities.int64_value limit))
        (lookup resource_name_s3_max_buckets quota.hard) (λ limit. inr) h.0,
    either-All n quotas (inr h.1),
  )

  -- Under the laws of quantities, where the claims and the resource quotas of the namespace are
  -- listed and the claims have quotas: with the sums of sizes and objects under the limits, no
  -- negative limit on buckets, and less than 2 ^ 64 buckets in all, the validator returns nil exactly
  -- if the sum of the buckets is within every limit, or is 2 ^ 63 or more, since it is then
  -- compared as a negative int64.
  pub validate_against_namespace_quota_wraps :
      (w : W) (suc : S3UserClaim Q) {q : UserQuota Q} {items : List (S3UserClaim Q)}
      {quotas : List (ResourceQuota Q)}
      → env.uncached_claims w suc.meta.namespace ≡ ok items
      → env.resource_quotas.list w suc.meta.namespace ≡ ok quotas
      → suc.spec.quota ≡ some q
      → AllQuotas laws (is_other_name env suc) items
      → sum (map (λ p. p.max_buckets) (counted_quotas (is_other_name env suc) items ++ q ∷ []))
        < 2 ^ 64
      → All (BucketLimit (λ limit. limit < 2 ^ 63)) quotas
      → All (HoldsSizes (counted_quotas (is_other_name env suc) items ++ q ∷ [])) quotas
      → (validate_against_namespace_quota env w suc ≡ ok tt) ↔ (
          (2 ^ 63
            ≤ sum
                (map (λ p. p.max_buckets) (counted_quotas (is_other_name env suc) items ++ q ∷ [])))
          ⊎ All
              (BucketLimit (λ limit.
                sum (
                  map (λ p. p.max_buckets) (counted_quotas (is_other_name env suc) items ++ q ∷ []))
                ≤ limit))
              quotas)
  validate_against_namespace_quota_wraps w suc {q} {items} {quotas} claims listed has_quota all
        bound small sizes =
      let qs = counted_quotas (is_other_name env suc) items ++ q ∷ [] in
      let (total, is_sum, iff, cases) =
        validate_against_namespace_quota_iff env laws w suc {q = q} {items = items}
          {quotas = quotas} claims listed has_quota all in
      (
        λ h. elim (Bool-cases (ltb (buckets qs) (2 ^ 63))) [
          | inl less ↦ inr (held qs total quotas is_sum (ground arith) small (iff.0 h))
          | inr big ↦ inl (ground arith)
        ],
        λ h. iff.1 (IsWithin-All qs total quotas is_sum bound small sizes (either-All _ quotas h)),
      )
