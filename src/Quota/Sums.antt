-- ===== src/Quota/Sums.antt =====
-- The additions of api/v1alpha1/quota_handler.go in numbers: integers for sizes and objects, modulo
-- 2 ^ 64 for buckets.
use Prim.Native.Nat.{Ordering}
use ceph_s3_operator.Prelude.{
  ◌+◌, ◌%◌, ◌^◌, ◌<◌, ◌≡◌, refl, ◌↔◌, inl, inr, Bool, true, false, Option, none, some, List, [],
  ◌∷◌, ◌++◌, map, arith, All, if◌then◌else◌, Bool-cases, Option-cases, ◌∙◌,
}
use mathlib.Core.List.{map-append}
use mathlib.Core.Path.{subst}
use ceph_s3_operator.Prelude.Int.{
  ℤ, pos, ◌+ℤ◌, ◌≤ℤ◌, int_laws, sum_ℤ, sum, sum_ℤ-append, sum-append,
}
use ceph_s3_operator.Go.{ok_injective, ok}
use ceph_s3_operator.Api.{UserQuota, S3UserClaim}
use ceph_s3_operator.Env.{Quantities}
use ceph_s3_operator.Quota.{add_int64, empty_quota, add_quota, sum_claims, add_current}

-- What the documentation of resource.Quantity says: a quantity is a number, Add adds, Cmp
-- compares, Value is an int64.
pub record QuantityLaws {Q : Type 0} (quantities : Quantities Q) : Type 0 where
  pub amount : Q → ℤ
  pub amount_zero : amount quantities.zero_quantity ≡ pos 0
  pub amount-add : (a b : Q) → amount (quantities.add a b) ≡ amount a +ℤ amount b
  pub cmp_gt : (a b : Q) → (quantities.cmp a b ≡ Ordering.gt) ↔ (¬ (amount a ≤ℤ amount b))
  pub int64_value_bound : (a : Q) → quantities.int64_value a < 2 ^ 64

abbrev pub HasQuota : {Q : Type 0} → Option (UserQuota Q) → Type 0
HasQuota none = ⊥
HasQuota (some q) = Unit

module _ {Q : Type 0} where
  -- The quotas of the claims that are counted.
  abbrev pub quota_list : Option (UserQuota Q) → List (UserQuota Q)
  quota_list none = []
  quota_list (some q) = q ∷ []

  unfoldable pub counted_quotas : (S3UserClaim Q → Bool) → List (S3UserClaim Q) → List (UserQuota Q)
  counted_quotas counted [] = []
  counted_quotas counted (claim ∷ items) =
      (if counted claim then quota_list claim.spec.quota else []) ++ counted_quotas counted items

module _ {Q : Type 0} {quantities : Quantities Q} (laws : QuantityLaws quantities) where
  open laws use {amount, amount_zero, amount-add}

  -- `total` is `base` with the quotas of the list added.
  pub record Adds (base : UserQuota Q) (qs : List (UserQuota Q)) (total : UserQuota Q)
      : Type 0 where
    pub size :
        amount total.max_size ≡ amount base.max_size +ℤ sum_ℤ (map (λ q. amount q.max_size) qs)
    pub objects :
        amount total.max_objects
        ≡ amount base.max_objects +ℤ sum_ℤ (map (λ q. amount q.max_objects) qs)
    pub buckets :
        total.max_buckets ≡ (base.max_buckets + sum (map (λ q. q.max_buckets) qs)) % 2 ^ 64

  pub Adds-refl : (base : UserQuota Q) → base.max_buckets < 2 ^ 64 → Adds base [] base
  Adds-refl base h = record {
    size = omega int_laws;
    objects = omega int_laws;
    buckets = omega arith;
  }

  pub Adds-one :
      (base q total : UserQuota Q) (qs : List (UserQuota Q))
      → Adds (add_quota quantities base q) qs total
      → Adds base (q ∷ qs) total
  unfolding add_quota add_int64
  Adds-one base q total qs h = record {
    size = h.size ∙ rw (amount-add base.max_size q.max_size) (omega int_laws);
    objects = h.objects ∙ rw (amount-add base.max_objects q.max_objects) (omega int_laws);
    buckets = omega (arith, h.buckets);
  }

  pub Adds-append :
      (a b c : UserQuota Q) (ps qs : List (UserQuota Q))
      → Adds a ps b
      → Adds b qs c
      → Adds a (ps ++ qs) c
  Adds-append a b c ps qs h k = record {
    size = rw (map-append, sum_ℤ-append) (k.size ∙ rw h.size (omega int_laws));
    objects = rw (map-append, sum_ℤ-append) (k.objects ∙ rw h.objects (omega int_laws));
    buckets = rw (map-append, sum-append) (omega (arith, h.buckets, k.buckets));
  }

  pub add_quota_bound : (base q : UserQuota Q) → (add_quota quantities base q).max_buckets < 2 ^ 64
  unfolding add_quota add_int64
  add_quota_bound base q = omega arith

  pub sum_claims-Adds :
      (counted : S3UserClaim Q → Bool) (base total : UserQuota Q) (items : List (S3UserClaim Q))
      → base.max_buckets < 2 ^ 64
      → sum_claims quantities counted base items ≡ ok total
      → Adds base (counted_quotas counted items) total
  unfolding sum_claims counted_quotas
  sum_claims-Adds counted base total [] r h =
      subst (Adds base []) (ok_injective h) (Adds-refl base r)
  sum_claims-Adds counted base total (claim ∷ items) r h = elim (Bool-cases (counted claim)) [
    | inl c ↦ elim (Option-cases claim.spec.quota) [
      | inl missing ↦ ground arith
      | inr (q, e) ↦
          rw (c, e)
            (Adds-one base q total (counted_quotas counted items) (
              sum_claims-Adds counted (add_quota quantities base q) total items
                (add_quota_bound base q) (ground arith)))
    ]
    | inr c ↦ rw c (sum_claims-Adds counted base total items r (ground arith))
  ]

  -- Every counted claim has a quota.
  abbrev pub AllQuotas : (S3UserClaim Q → Bool) → List (S3UserClaim Q) → Type 0
  AllQuotas counted = All (λ claim. counted claim ≡ true → HasQuota claim.spec.quota)

  pub sum_claims_total :
      (counted : S3UserClaim Q → Bool) (base : UserQuota Q) (items : List (S3UserClaim Q))
      → AllQuotas counted items
      → (total : UserQuota Q) × (sum_claims quantities counted base items ≡ ok total)
  unfolding sum_claims
  sum_claims_total counted base [] h = (base, refl)
  sum_claims_total counted base (claim ∷ items) h = elim (Bool-cases (counted claim)) [
    | inl c ↦ elim (Option-cases claim.spec.quota) [
      | inl missing ↦ absurd (rw missing at (h.0 c))
      | inr (q, e) ↦
          let (total, rest) = sum_claims_total counted (add_quota quantities base q) items h.1 in
          (total, ground arith)
    ]
    | inr c ↦ let (total, rest) = sum_claims_total counted base items h.1 in (total, ground arith)
  ]

  -- `total` is the sum of the quotas: exact, but for the buckets' wrap-around at 2 ^ 64.
  pub record IsSumOf (qs : List (UserQuota Q)) (total : UserQuota Q) : Type 0 where
    pub size : amount total.max_size ≡ sum_ℤ (map (λ q. amount q.max_size) qs)
    pub objects : amount total.max_objects ≡ sum_ℤ (map (λ q. amount q.max_objects) qs)
    pub buckets : total.max_buckets ≡ sum (map (λ q. q.max_buckets) qs) % 2 ^ 64

  pub IsSumOf-bound :
      {qs : List (UserQuota Q)} {total : UserQuota Q}
      → IsSumOf qs total
      → total.max_buckets < 2 ^ 64
  IsSumOf-bound h = omega (arith, h.buckets)

  pub Adds-empty :
      (qs : List (UserQuota Q)) (total : UserQuota Q)
      → Adds (empty_quota quantities) qs total
      → IsSumOf qs total
  unfolding empty_quota
  Adds-empty qs total h = record {
    size = h.size ∙ rw amount_zero (omega int_laws);
    objects = h.objects ∙ rw amount_zero (omega int_laws);
    buckets = omega (arith, h.buckets);
  }

  -- The quota that the flag adds for the claim at hand.
  abbrev pub current_quota : Bool → UserQuota Q → List (UserQuota Q)
  current_quota true q = q ∷ []
  current_quota false q = []

  pub add_current-Adds :
      (flag : Bool) (suc : S3UserClaim Q) (q base : UserQuota Q)
      → base.max_buckets < 2 ^ 64
      → suc.spec.quota ≡ some q
      → (total : UserQuota Q) × (add_current quantities flag suc base ≡ ok total)
        × Adds base (current_quota flag q) total
  unfolding add_current
  add_current-Adds true suc q base r e =
      let next = add_quota quantities base q in
      (next, rw e, Adds-one base q next [] (Adds-refl next (add_quota_bound base q)))
  add_current-Adds false suc q base r e = (base, refl, Adds-refl base r)

  pub Adds-bound :
      (base : UserQuota Q) (qs : List (UserQuota Q)) (total : UserQuota Q)
      → Adds base qs total
      → total.max_buckets < 2 ^ 64
  Adds-bound base qs total h = omega (arith, h.buckets)

pub empty_quota_bound :
    {Q : Type 0} (quantities : Quantities Q) → (empty_quota quantities).max_buckets < 2 ^ 64
unfolding empty_quota
empty_quota_bound quantities = omega arith
