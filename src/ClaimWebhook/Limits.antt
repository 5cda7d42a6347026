-- ===== src/ClaimWebhook/Limits.antt =====
-- The comparisons of api/v1alpha1/s3userclaim_webhook.go with the limits, in numbers.
use ceph_s3_operator.Prelude.{
  ℕ, ◌-◌, ◌^◌, ◌<◌, ◌≡◌, ◌↔◌, ◌⊎◌, inl, inr, refl, Bool, true, false, Option, none, some, List, [],
  ◌∷◌, arith, All, if◌then◌else◌, ltb, Bool-cases,
}
use ceph_s3_operator.Prelude.Int.{ℤ, pos, negsuc, ◌≤ℤ◌}
use ceph_s3_operator.Prelude.Text.{Text}
use ceph_s3_operator.Prelude.Assoc.{Assoc, lookup}
use ceph_s3_operator.Go.{Result, ok, err, ◌>>=◌}
use ceph_s3_operator.Consts.{
  resource_name_s3_max_objects, resource_name_s3_max_size, resource_name_s3_max_buckets,
  err_exceeded_namespace_quota,
}
use ceph_s3_operator.Api.{UserQuota, ResourceQuota}
use ceph_s3_operator.Env.{Quantities}
use ceph_s3_operator.Quota.Sums.{QuantityLaws}
use ceph_s3_operator.ClaimWebhook.{
  gt_int64, gt_quantity, exceeds, exceeds_quota, check_quotas, check_limit, check_cluster_quota,
}

-- The number that an int64's bit pattern stands for.
abbrev pub int64 : ℕ → ℤ
int64 a = if ltb a (2 ^ 63) then pos a else negsuc (2 ^ 64 - 1 - a)

pub gt_int64_iff :
    (a b : ℕ) → a < 2 ^ 64 → b < 2 ^ 64 → (gt_int64 a b ≡ false) ↔ (int64 a ≤ℤ int64 b)
unfolding gt_int64
gt_int64_iff a b ha hb = ground arith

-- A limit that is there holds.
abbrev pub Under : {Q : Type 0} → (Q → Type 0) → Option Q → Type 0
Under P none = Unit
Under P (some limit) = P limit

-- A limit is there, and holds.
abbrev pub Bounded : {Q : Type 0} → (Q → Type 0) → Option Q → Type 0
Bounded P none = ⊥
Bounded P (some limit) = P limit

and_tests :
    (a b c : Bool)
    → ((if a then true else if b then true else c) ≡ false)
      ↔ ((a ≡ false) × (b ≡ false) × (c ≡ false))
and_tests a b c = ground arith

and_then_iff :
    (a b c : Result (Unit {0}))
    → ((do _ ← a; _ ← b; c) ≡ ok tt) ↔ ((a ≡ ok tt) × (b ≡ ok tt) × (c ≡ ok tt))
and_then_iff a b c = ground arith

module _ {Q : Type 0} {quantities : Quantities Q} (laws : QuantityLaws quantities) where
  open quantities use {cmp, int64_value}
  open laws use {amount, cmp_gt, int64_value_bound}

  gt_quantity_iff : (a b : Q) → (gt_quantity quantities a b ≡ false) ↔ (amount a ≤ℤ amount b)
  gt_quantity_iff a b = ground (arith, cmp_gt a b)

  -- Objects, size and buckets are under the limits of the list, where it has them.
  pub record IsWithin (total : UserQuota Q) (hard : Assoc Q) : Type 0 where
    pub objects :
        Under
          (λ limit. amount total.max_objects ≤ℤ amount limit)
          (lookup resource_name_s3_max_objects hard)
    pub size :
        Under
          (λ limit. amount total.max_size ≤ℤ amount limit)
          (lookup resource_name_s3_max_size hard)
    pub buckets :
        Under
          (λ limit. int64 total.max_buckets ≤ℤ int64 (int64_value limit))
          (lookup resource_name_s3_max_buckets hard)

  exceeds_iff :
      (P : Q → Type 0) (test : Q → Bool) (o : Option Q)
      → ((limit : Q) → (test limit ≡ false) ↔ P limit)
      → (exceeds quantities test o ≡ false) ↔ Under P o
  exceeds_iff P test none h = (λ e. tt, λ u. refl)
  exceeds_iff P test (some limit) h = h limit

  -- The body of the loop passes a resource quota exactly if the total is within its limits.
  exceeds_quota_iff :
      (total : UserQuota Q) (hard : Assoc Q)
      → total.max_buckets < 2 ^ 64
      → (exceeds_quota quantities total hard ≡ false) ↔ IsWithin total hard
  unfolding exceeds_quota
  exceeds_quota_iff total hard bound =
      let objects =
        exceeds_iff (λ limit. amount total.max_objects ≤ℤ amount limit)
          (gt_quantity quantities total.max_objects) (lookup resource_name_s3_max_objects hard)
          (λ limit. gt_quantity_iff total.max_objects limit) in
      let size =
        exceeds_iff (λ limit. amount total.max_size ≤ℤ amount limit)
          (gt_quantity quantities total.max_size) (lookup resource_name_s3_max_size hard)
          (λ limit. gt_quantity_iff total.max_size limit) in
      let buckets =
        exceeds_iff (λ limit. int64 total.max_buckets ≤ℤ int64 (int64_value limit))
          (λ limit. gt_int64 total.max_buckets (int64_value limit))
          (lookup resource_name_s3_max_buckets hard)
          (λ limit.
            gt_int64_iff total.max_buckets (int64_value limit) bound (int64_value_bound limit)) in
      let tests =
        and_tests
          (exceeds quantities (gt_quantity quantities total.max_objects)
            (lookup resource_name_s3_max_objects hard))
          (exceeds quantities (gt_quantity quantities total.max_size)
            (lookup resource_name_s3_max_size hard))
          (exceeds quantities (λ limit. gt_int64 total.max_buckets (int64_value limit))
            (lookup resource_name_s3_max_buckets hard)) in
      (
        λ e.
            let (o, s, b) = tests.0 e in
            record { objects = objects.0 o; size = size.0 s; buckets = buckets.0 b },
        λ h. tests.1 (objects.1 h.objects, size.1 h.size, buckets.1 h.buckets),
      )

  -- The loop accepts exactly the totals within all the resource quotas.
  pub check_quotas_iff :
      (total : UserQuota Q) (items : List (ResourceQuota Q))
      → total.max_buckets < 2 ^ 64
      → (check_quotas quantities total items ≡ ok tt)
        ↔ All (λ quota. IsWithin total quota.hard) items
  unfolding check_quotas
  check_quotas_iff total [] bound = (λ e. tt, λ h. refl)
  check_quotas_iff total (quota ∷ items) bound =
      let here = exceeds_quota_iff total quota.hard bound in
      let rest = check_quotas_iff total items bound in
      elim (Bool-cases (exceeds_quota quantities total quota.hard)) [
        | inl over ↦ (λ e. ground arith, λ h. ground (arith, here.1 h.0))
        | inr fits ↦
            (λ e. (here.0 fits, rest.0 (ground arith)), λ h. rw (fits, check_quotas) (rest.1 h.1))
      ]

  -- What it does not accept it reports as the exceeded namespace quota.
  pub check_quotas_cases :
      (total : UserQuota Q) (items : List (ResourceQuota Q))
      → (check_quotas quantities total items ≡ ok tt)
        ⊎ (check_quotas quantities total items ≡ err err_exceeded_namespace_quota)
  unfolding check_quotas
  check_quotas_cases total [] = inl refl
  check_quotas_cases total (quota ∷ items) =
      elim (Bool-cases (exceeds_quota quantities total quota.hard)) [
        | inl over ↦ inr (rw (over, check_quotas))
        | inr fits ↦ rw (fits, check_quotas) (check_quotas_cases total items)
      ]

  -- Objects, size and buckets all have limits in the list, and are under them.
  pub record IsBounded (total : UserQuota Q) (hard : Assoc Q) : Type 0 where
    pub objects :
        Bounded
          (λ limit. amount total.max_objects ≤ℤ amount limit)
          (lookup resource_name_s3_max_objects hard)
    pub size :
        Bounded
          (λ limit. amount total.max_size ≤ℤ amount limit)
          (lookup resource_name_s3_max_size hard)
    pub buckets :
        Bounded
          (λ limit. int64 total.max_buckets ≤ℤ int64 (int64_value limit))
          (lookup resource_name_s3_max_buckets hard)

  check_limit_iff :
      (team : Text) (P : Q → Type 0) (test : Q → Bool) (o : Option Q)
      → ((limit : Q) → (test limit ≡ false) ↔ P limit)
      → (check_limit quantities team test o ≡ ok tt) ↔ Bounded P o
  unfolding check_limit
  check_limit_iff team P test none h = (λ e. cc, λ b. absurd b)
  check_limit_iff team P test (some limit) h = elim (Bool-cases (test limit)) [
    | inl over ↦ rw over (λ e. cc, λ p. cc ((h limit).1 p))
    | inr fits ↦ rw fits (λ e. (h limit).0 fits, λ p. refl)
  ]

  -- The cluster quota's check accepts exactly the totals for which all three limits are set and hold.
  pub check_cluster_quota_iff :
      (team : Text) (total : UserQuota Q) (hard : Assoc Q)
      → total.max_buckets < 2 ^ 64
      → (check_cluster_quota quantities team total hard ≡ ok tt) ↔ IsBounded total hard
  unfolding check_cluster_quota
  check_cluster_quota_iff team total hard bound =
      let objects =
        check_limit_iff team (λ limit. amount total.max_objects ≤ℤ amount limit)
          (gt_quantity quantities total.max_objects) (lookup resource_name_s3_max_objects hard)
          (λ limit. gt_quantity_iff total.max_objects limit) in
      let size =
        check_limit_iff team (λ limit. amount total.max_size ≤ℤ amount limit)
          (gt_quantity quantities total.max_size) (lookup resource_name_s3_max_size hard)
          (λ limit. gt_quantity_iff total.max_size limit) in
      let buckets =
        check_limit_iff team (λ limit. int64 total.max_buckets ≤ℤ int64 (int64_value limit))
          (λ limit. gt_int64 total.max_buckets (int64_value limit))
          (lookup resource_name_s3_max_buckets hard)
          (λ limit.
            gt_int64_iff total.max_buckets (int64_value limit) bound (int64_value_bound limit)) in
      let steps = and_then_iff _ _ _ in
      (
        λ e.
            let (o, s, b) = steps.0 e in
            record { objects = objects.0 o; size = size.0 s; buckets = buckets.0 b },
        λ h. steps.1 (objects.1 h.objects, size.1 h.size, buckets.1 h.buckets),
      )
