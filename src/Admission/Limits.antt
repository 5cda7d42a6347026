-- ===== src/Admission/Limits.antt =====
-- The resource quotas of one namespace over the requests for its claims that `ValidateCreate` and
-- `ValidateUpdate` of api/v1alpha1/s3userclaim_webhook.go admit one after the other.
use ceph_s3_operator.Prelude.{
  ◌≡◌, refl, sym, ap, ◌∙◌, Bool, true, some, List, [], ◌∷◌, ◌++◌, All, All-append, All-map, arith,
  ◌^◌, ◌<◌,
}
use mathlib.Core.Path.{subst}
use ceph_s3_operator.Prelude.Int.{pos, ◌≤ℤ◌}
use ceph_s3_operator.Prelude.Text.{Text, eq_iff}
use ceph_s3_operator.Go.{ok}
use ceph_s3_operator.Api.{UserQuota, S3UserClaim, ResourceQuota}
use ceph_s3_operator.Env.{Env}
use ceph_s3_operator.Quota.{is_other_name}
use ceph_s3_operator.Quota.Sums.{
  AllQuotas, QuantityLaws, IsSumOf, counted_quotas, quota_list, HasQuota,
}
use ceph_s3_operator.Quota.PerTeam.{counted_quotas-append}
use ceph_s3_operator.ClaimWebhook as Claim
use ceph_s3_operator.ClaimWebhook.{allowed, claim_object}
use ceph_s3_operator.ClaimWebhook.Limits.{IsWithin}
use ceph_s3_operator.ClaimWebhook.Quotas.{validate_against_namespace_quota_iff}
use ceph_s3_operator.ClaimWebhook.Verdicts.{validate_create_iff, validate_update_iff}
use ceph_s3_operator.Admission.Sums.{
  quotas_of, quotas_of-append, All-parts, buckets, AreUnder, AreUnder-total, AreUnder-less,
  weights_moved, weights_dropped, counts_moved, counts_dropped,
}

module _ {Q W : Type 0} (env : Env Q W) (laws : QuantityLaws env.quantities) where
  open laws use {amount}

  -- A quota as it is meant: with no size and no number of objects below zero.
  abbrev pub IsPlain : UserQuota Q → Type 0
  IsPlain q = (pos 0 ≤ℤ amount q.max_size) × (pos 0 ≤ℤ amount q.max_objects)

  abbrev pub HasPlain : S3UserClaim Q → Type 0
  HasPlain c = (q : UserQuota Q) × (c.spec.quota ≡ some q) × IsPlain q

  -- No claim of the list has the name.
  abbrev pub Others : S3UserClaim Q → List (S3UserClaim Q) → Type 0
  Others c items = All (λ d. is_other_name env c d ≡ true) items

  module _ (namespace : Text) (quotas : List (ResourceQuota Q)) where
    -- What the validators read is what is there.
    pub record Reads (w : W) (items : List (S3UserClaim Q)) : Type 0 where
      pub claims : env.uncached_claims w namespace ≡ ok items
      pub limits : env.resource_quotas.list w namespace ≡ ok quotas

    -- One admitted request for a claim of the namespace, whose quota is plain, and where the buckets
    -- of all claims together are fewer than 2 ^ 63; or a claim that goes away. The requests come one
    -- after the other.
    pub data Granted : List (S3UserClaim Q) → List (S3UserClaim Q) → Type 0 where
      created :
          (w : W) (c : S3UserClaim Q) (items : List (S3UserClaim Q))
          → Reads w items
          → c.meta.namespace ≡ namespace
          → HasPlain c
          → Others c items
          → buckets env laws (quotas_of (c ∷ items)) < 2 ^ 63
          → Claim.validate_create env w c ≡ allowed
          → Granted items (c ∷ items)
      updated :
          (w : W) (old c : S3UserClaim Q) (front back : List (S3UserClaim Q))
          → Reads w (front ++ old ∷ back)
          → c.meta.namespace ≡ namespace
          → HasPlain c
          → Others c front
          → Others c back
          → old.meta.name ≡ c.meta.name
          → buckets env laws (quotas_of (front ++ c ∷ back)) < 2 ^ 63
          → Claim.validate_update env w (claim_object old) c ≡ allowed
          → Granted (front ++ old ∷ back) (front ++ c ∷ back)
      removed :
          (c : S3UserClaim Q) (front back : List (S3UserClaim Q))
          → Granted (front ++ c ∷ back) (front ++ back)

    pub data Grants : List (S3UserClaim Q) → List (S3UserClaim Q) → Type 0 where
      here : (items : List (S3UserClaim Q)) → Grants items items
      after :
          (items between more : List (S3UserClaim Q))
          → Grants items between
          → Granted between more
          → Grants items more

    -- The claims have plain quotas, whose sums are under the limits of every resource quota.
    pub record Fits (items : List (S3UserClaim Q)) : Type 0 where
      pub plain : All HasPlain items
      pub under : All (λ quota. AreUnder env laws (quotas_of items) quota.hard) quotas

    counted_quotas-Others :
        (c : S3UserClaim Q) (items : List (S3UserClaim Q))
        → Others c items
        → counted_quotas (is_other_name env c) items ≡ quotas_of items
    unfolding counted_quotas
    counted_quotas-Others c [] h = refl
    counted_quotas-Others c (d ∷ items) h =
        rw h.0 (ap (λ qs. quota_list d.spec.quota ++ qs) (counted_quotas-Others c items h.1))

    quotas_of-insert :
        (c : S3UserClaim Q) (q : UserQuota Q) (front back : List (S3UserClaim Q))
        → c.spec.quota ≡ some q
        → quotas_of (front ++ c ∷ back) ≡ quotas_of front ++ q ∷ quotas_of back
    quotas_of-insert c q front back e =
        quotas_of-append front (c ∷ back)
        ∙ ap (λ o. quotas_of front ++ (quota_list o ++ quotas_of back)) e

    AllQuotas-plain :
        (counted : S3UserClaim Q → Bool) (items : List (S3UserClaim Q))
        → All HasPlain items
        → AllQuotas laws counted items
    AllQuotas-plain counted [] h = tt
    AllQuotas-plain counted (c ∷ items) h = (
      (λ _. let (q, e, plain) = h.0 in subst HasQuota (sym e) tt),
      AllQuotas-plain counted items h.1,
    )

    -- What the namespace's validator admits is under the limits.
    admitted_under :
        (w : W) (c : S3UserClaim Q) (items front back : List (S3UserClaim Q)) (q : UserQuota Q)
        → Reads w items
        → c.meta.namespace ≡ namespace
        → c.spec.quota ≡ some q
        → All HasPlain items
        → counted_quotas (is_other_name env c) items ≡ quotas_of front ++ quotas_of back
        → buckets env laws (quotas_of (front ++ c ∷ back)) < 2 ^ 63
        → Claim.validate_against_namespace_quota env w c ≡ ok tt
        → All (λ quota. AreUnder env laws (quotas_of (front ++ c ∷ back)) quota.hard) quotas
    admitted_under w c items front back q reads there has_quota plain counted bound admitted =
        let (total, is_sum, iff, cases) =
          validate_against_namespace_quota_iff env laws w c {q = q} {items = items}
            {quotas = quotas} (ap (env.uncached_claims w) there ∙ reads.claims)
            (ap (env.resource_quotas.list w) there ∙ reads.limits) has_quota
            (AllQuotas-plain (is_other_name env c) items plain) in
        let xs = quotas_of front in
        let ys = quotas_of back in
        let inserted = quotas_of-insert c q front back has_quota in
        let is_sum' = subst (λ qs. IsSumOf laws (qs ++ q ∷ []) total) counted is_sum in
        let bound' = subst (λ qs. buckets env laws qs < 2 ^ 63) inserted bound in
        let moved = counts_moved xs ys q in
        subst (λ qs. All (λ quota. AreUnder env laws qs quota.hard) quotas) (sym inserted)
          (All-map (λ quota. IsWithin laws total quota.hard)
            (λ quota. AreUnder env laws (xs ++ q ∷ ys) quota.hard) quotas
            (λ quota h.
              AreUnder-total env laws ((xs ++ ys) ++ q ∷ []) (xs ++ q ∷ ys) total quota.hard is_sum'
                (weights_moved (λ p. amount p.max_size) xs ys q)
                (weights_moved (λ p. amount p.max_objects) xs ys q) (omega (arith, moved))
                (omega (arith, moved, bound')) h)
            (iff.0 admitted))

    counted_quotas-same_name :
        (c old : S3UserClaim Q) (front back : List (S3UserClaim Q))
        → Others c front
        → Others c back
        → old.meta.name ≡ c.meta.name
        → counted_quotas (is_other_name env c) (front ++ old ∷ back)
          ≡ quotas_of front ++ quotas_of back
    unfolding counted_quotas
    counted_quotas-same_name c old front back others_front others_back same =
        let equal = (eq_iff old.meta.name c.meta.name).1 same in
        rw (
          counted_quotas-append env laws (is_other_name env c) front (old ∷ back),
          equal,
          counted_quotas-Others c front others_front,
          counted_quotas-Others c back others_back,
        )

    Granted-Fits : (items more : List (S3UserClaim Q)) → Granted items more → Fits items → Fits more
    Granted-Fits _ _ (created w c items reads there has others bound admitted) h = record {
      plain = (has, h.plain);
      under =
          let (q, has_quota, plain) = has in
          let (within, cluster, admin, readonly) = (validate_create_iff env w c).0 admitted in
          admitted_under w c items [] items q reads there has_quota h.plain
            (counted_quotas-Others c items others) bound within;
    }
    Granted-Fits _ _
          (updated w old c front back reads there has others_front others_back same bound admitted)
          h =
        let (plain_front, plain_back) = All-parts HasPlain front (old ∷ back) h.plain in
        let (q, has_quota, plain) = has in
        let (class_stays, within, cluster, admin, readonly) =
          (validate_update_iff env w old c).0 admitted in
        record {
          plain = All-append HasPlain front (c ∷ back) plain_front (has, plain_back.1);
          under =
              admitted_under w c (front ++ old ∷ back) front back q reads there has_quota h.plain
                (counted_quotas-same_name c old front back others_front others_back same) bound
                within;
        }
    Granted-Fits _ _ (removed c front back) h =
        let (plain_front, plain_back) = All-parts HasPlain front (c ∷ back) h.plain in
        let (q, has_quota, plain) = plain_back.0 in
        let xs = quotas_of front in
        let ys = quotas_of back in
        let kept = quotas_of-append front back in
        let before = quotas_of-insert c q front back has_quota in
        record {
          plain = All-append HasPlain front back plain_front plain_back.1;
          under =
              subst (λ qs. All (λ quota. AreUnder env laws qs quota.hard) quotas) (sym kept)
                (All-map (λ quota. AreUnder env laws (quotas_of (front ++ c ∷ back)) quota.hard)
                  (λ quota. AreUnder env laws (xs ++ ys) quota.hard) quotas
                  (λ quota u.
                    AreUnder-less env laws (xs ++ q ∷ ys) (xs ++ ys) quota.hard
                      (weights_dropped (λ p. amount p.max_size) xs ys q plain.0)
                      (weights_dropped (λ p. amount p.max_objects) xs ys q plain.1)
                      (counts_dropped xs ys q)
                      (subst (λ qs. AreUnder env laws qs quota.hard) before u))
                  h.under);
        }

    -- Under the laws of quantities, while the resource quotas of a namespace stay as they are, from
    -- claims on that have quotas with no negative sizes or numbers of objects, whose sums are under
    -- the limits of every resource quota: over any requests for claims of the namespace, each of them
    -- admitted before the next is looked at, that ask for such quotas and for less than 2 ^ 63 buckets
    -- together, and over any claims that go away, the claims stay so.
    pub Grants-Fits :
        {items more : List (S3UserClaim Q)} → Grants items more → Fits items → Fits more
    Grants-Fits (here items) h = h
    Grants-Fits (after items between more grants last) h =
        Granted-Fits between more last (Grants-Fits grants h)
