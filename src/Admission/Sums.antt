-- ===== src/Admission/Sums.antt =====
-- Sums of the quotas of claims, next to the limits that the validators of
-- api/v1alpha1/s3userclaim_webhook.go compare them with.
use ceph_s3_operator.Prelude.{
  ◌≡◌, refl, sym, ap, some, none, Option, List, [], ◌∷◌, ◌++◌, map, All, arith, ◌%◌, ◌^◌, ◌<◌, ◌≤◌,
  ◌+◌, ℕ, Option-cases, inl, inr,
}
use mathlib.Core.List.{map-append}
use mathlib.Core.Path.{subst}
use ceph_s3_operator.Prelude.Int.{
  ℤ, pos, ◌+ℤ◌, ◌≤ℤ◌, int_laws, sum_ℤ, sum, sum_ℤ-append, sum-append,
}
use ceph_s3_operator.Prelude.Assoc.{Assoc, lookup}
use ceph_s3_operator.Consts.{
  resource_name_s3_max_objects, resource_name_s3_max_size, resource_name_s3_max_buckets,
}
use ceph_s3_operator.Api.{UserQuota, S3UserClaim}
use ceph_s3_operator.Env.{Env}
use ceph_s3_operator.Quota.Sums.{QuantityLaws, IsSumOf, quota_list}
use ceph_s3_operator.ClaimWebhook.Limits.{Under, IsWithin, int64}

-- The quotas that the claims ask for.
abbrev pub quotas_of : {Q : Type 0} → List (S3UserClaim Q) → List (UserQuota Q)
quotas_of [] = []
quotas_of (c ∷ items) = quota_list c.spec.quota ++ quotas_of items

pub quotas_of-append :
    {Q : Type 0} (xs ys : List (S3UserClaim Q))
    → quotas_of (xs ++ ys) ≡ quotas_of xs ++ quotas_of ys
quotas_of-append [] ys = refl
quotas_of-append (c ∷ xs) ys = elim (Option-cases c.spec.quota) [
  | inl e ↦ rw e (quotas_of-append xs ys)
  | inr (q, e) ↦ rw e (ap (λ qs. q ∷ qs) (quotas_of-append xs ys))
]

pub All-parts {ℓ κ} :
    {A : Type ℓ} (P : A → Type κ) (xs ys : List A) → All P (xs ++ ys) → All P xs × All P ys
All-parts P [] ys h = (tt, h)
All-parts P (x ∷ xs) ys h = let (a, b) = All-parts P xs ys h.1 in ((h.0, a), b)

le_chain : (a b c total : ℤ) → total ≡ b → a ≤ℤ b → total ≤ℤ c → a ≤ℤ c
le_chain a b c total e h k = let h' = subst (λ x. a ≤ℤ x) (sym e) h in omega (arith, h', k)

-- A sum that fits an int64 is the number that its bits stand for.
count_chain :
    (n m total limit : ℕ)
    → total ≡ m % 2 ^ 64
    → n ≤ m
    → m < 2 ^ 63
    → int64 total ≤ℤ int64 limit
    → pos n ≤ℤ int64 limit
count_chain n m total limit e h bound k = ground arith

weights-append :
    {Q : Type 0} (f : UserQuota Q → ℤ) (xs ys : List (UserQuota Q))
    → sum_ℤ (map f (xs ++ ys)) ≡ sum_ℤ (map f xs) +ℤ sum_ℤ (map f ys)
weights-append f xs ys = rw map-append (sum_ℤ-append (map f xs) (map f ys))

pub weights_moved :
    {Q : Type 0} (f : UserQuota Q → ℤ) (xs ys : List (UserQuota Q)) (q : UserQuota Q)
    → sum_ℤ (map f (xs ++ q ∷ ys)) ≤ℤ sum_ℤ (map f ((xs ++ ys) ++ q ∷ []))
weights_moved f xs ys q =
    rw (weights-append f xs (q ∷ ys), weights-append f (xs ++ ys) (q ∷ []), weights-append f xs ys)
      (omega int_laws)

counts-append :
    {Q : Type 0} (xs ys : List (UserQuota Q))
    → sum (map (λ q. q.max_buckets) (xs ++ ys))
      ≡ sum (map (λ q. q.max_buckets) xs) + sum (map (λ q. q.max_buckets) ys)
counts-append xs ys =
    rw map-append (sum-append (map (λ q. q.max_buckets) xs) (map (λ q. q.max_buckets) ys))

pub counts_moved :
    {Q : Type 0} (xs ys : List (UserQuota Q)) (q : UserQuota Q)
    → sum (map (λ q. q.max_buckets) ((xs ++ ys) ++ q ∷ []))
      ≡ sum (map (λ q. q.max_buckets) (xs ++ q ∷ ys))
counts_moved xs ys q =
    rw (counts-append xs (q ∷ ys), counts-append (xs ++ ys) (q ∷ []), counts-append xs ys)
      (omega arith)

pub weights_dropped :
    {Q : Type 0} (f : UserQuota Q → ℤ) (xs ys : List (UserQuota Q)) (q : UserQuota Q)
    → pos 0 ≤ℤ f q
    → sum_ℤ (map f (xs ++ ys)) ≤ℤ sum_ℤ (map f (xs ++ q ∷ ys))
weights_dropped f xs ys q h =
    rw (weights-append f xs (q ∷ ys), weights-append f xs ys) (omega (int_laws, h))

pub counts_dropped :
    {Q : Type 0} (xs ys : List (UserQuota Q)) (q : UserQuota Q)
    → sum (map (λ q. q.max_buckets) (xs ++ ys)) ≤ sum (map (λ q. q.max_buckets) (xs ++ q ∷ ys))
counts_dropped xs ys q = rw (counts-append xs (q ∷ ys), counts-append xs ys) (omega arith)

le_trans : (a b c : ℤ) → a ≤ℤ b → b ≤ℤ c → a ≤ℤ c
le_trans a b c h k = omega (arith, h, k)

module _ {Q W : Type 0} (env : Env Q W) (laws : QuantityLaws env.quantities) where
  open laws use {amount}

  abbrev pub sizes : List (UserQuota Q) → ℤ
  sizes qs = sum_ℤ (map (λ q. amount q.max_size) qs)

  abbrev pub objects : List (UserQuota Q) → ℤ
  objects qs = sum_ℤ (map (λ q. amount q.max_objects) qs)

  abbrev pub buckets : List (UserQuota Q) → ℕ
  buckets qs = sum (map (λ q. q.max_buckets) qs)

  -- The sums of the quotas, without any wrap-around, are under the limits of the list, where it
  -- has them.
  pub record AreUnder (qs : List (UserQuota Q)) (hard : Assoc Q) : Type 0 where
    pub objects_under :
        Under (λ limit. objects qs ≤ℤ amount limit) (lookup resource_name_s3_max_objects hard)
    pub size_under :
        Under (λ limit. sizes qs ≤ℤ amount limit) (lookup resource_name_s3_max_size hard)
    pub buckets_under :
        Under
          (λ limit. pos (buckets qs) ≤ℤ int64 (env.quantities.int64_value limit))
          (lookup resource_name_s3_max_buckets hard)

  Under-map :
      (P R : Q → Type 0) (o : Option Q) → ((limit : Q) → P limit → R limit) → Under P o → Under R o
  Under-map P R none f u = tt
  Under-map P R (some limit) f u = f limit u

  -- Where the validator has found the total within the limits, the sums are under them.
  pub AreUnder-total :
      (qs ps : List (UserQuota Q)) (total : UserQuota Q) (hard : Assoc Q)
      → IsSumOf laws qs total
      → sizes ps ≤ℤ sizes qs
      → objects ps ≤ℤ objects qs
      → buckets ps ≤ buckets qs
      → buckets qs < 2 ^ 63
      → IsWithin laws total hard
      → AreUnder ps hard
  AreUnder-total qs ps total hard is_sum s o b bound within = record {
    objects_under =
        Under-map (λ limit. amount total.max_objects ≤ℤ amount limit)
          (λ limit. objects ps ≤ℤ amount limit) (lookup resource_name_s3_max_objects hard)
          (λ limit h. le_chain _ _ _ _ is_sum.objects o h) within.objects;
    size_under =
        Under-map (λ limit. amount total.max_size ≤ℤ amount limit)
          (λ limit. sizes ps ≤ℤ amount limit) (lookup resource_name_s3_max_size hard)
          (λ limit h. le_chain _ _ _ _ is_sum.size s h) within.size;
    buckets_under =
        Under-map (λ limit. int64 total.max_buckets ≤ℤ int64 (env.quantities.int64_value limit))
          (λ limit. pos (buckets ps) ≤ℤ int64 (env.quantities.int64_value limit))
          (lookup resource_name_s3_max_buckets hard)
          (λ limit h. count_chain _ _ _ _ is_sum.buckets b bound h) within.buckets;
  }

  pub AreUnder-less :
      (qs ps : List (UserQuota Q)) (hard : Assoc Q)
      → sizes ps ≤ℤ sizes qs
      → objects ps ≤ℤ objects qs
      → buckets ps ≤ buckets qs
      → AreUnder qs hard
      → AreUnder ps hard
  AreUnder-less qs ps hard s o b under = record {
    objects_under =
        Under-map (λ limit. objects qs ≤ℤ amount limit) (λ limit. objects ps ≤ℤ amount limit)
          (lookup resource_name_s3_max_objects hard)
          (λ limit. le_trans (objects ps) (objects qs) (amount limit) o) under.objects_under;
    size_under =
        Under-map (λ limit. sizes qs ≤ℤ amount limit) (λ limit. sizes ps ≤ℤ amount limit)
          (lookup resource_name_s3_max_size hard)
          (λ limit. le_trans (sizes ps) (sizes qs) (amount limit) s) under.size_under;
    buckets_under =
        Under-map (λ limit. pos (buckets qs) ≤ℤ int64 (env.quantities.int64_value limit))
          (λ limit. pos (buckets ps) ≤ℤ int64 (env.quantities.int64_value limit))
          (lookup resource_name_s3_max_buckets hard)
          (λ limit. le_trans (pos (buckets ps)) (pos (buckets qs)) _ (omega (arith, b)))
          under.buckets_under;
  }
