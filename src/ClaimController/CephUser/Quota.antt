-- ===== src/ClaimController/CephUser/Quota.antt =====
-- `ensureCephUserQuota` of internal/controllers/s3userclaim/provisioner.go by what Ceph then has.
use ceph_s3_operator.Prelude.{
  ◌≡◌, inl, inr, refl, sym, ap, ◌∙◌, ℕ, true, false, some, arith, Bool-cases, Option-cases,
  ◌==◌ as eqb,
}
use mathlib.Core.Path.{subst}
use ceph_s3_operator.Go.{ok, Result-cases, ok_injective}
use ceph_s3_operator.Api.{UserQuota, QuotaSpec}
use ceph_s3_operator.Env.{Env}
use ceph_s3_operator.Subreconciler.{continue_reconciling}
use ceph_s3_operator.ClaimController.State.{State}
use ceph_s3_operator.ClaimController.CephUser.{
  desired_quota, quota_differs, keep_quota, ensure_ceph_user_quota,
}

-- The three fields of a quota that the operator sets are the same.
pub record SameLimits (a b : QuotaSpec) : Type 0 where
  pub enabled : a.enabled ≡ b.enabled
  pub size : a.max_size ≡ b.max_size
  pub objects : a.max_objects ≡ b.max_objects

-- After a quota has been set without an error, it is what is read of the user.
pub record QuotaLaws {Q W : Type 0} (env : Env Q W) : Type 0 where
  pub set :
      (q a : QuotaSpec) (w : W)
      → (env.set_user_quota q w).0 ≡ ok tt
      → env.get_user_quota (env.set_user_quota q w).1 q ≡ ok a
      → SameLimits a q

module _ {Q W : Type 0} (env : Env Q W) where
  -- Quotas in which the comparison finds no difference have the same limits.
  quota_differs-SameLimits :
      (a b : QuotaSpec) {size objects : ℕ}
      → b.enabled ≡ some true
      → b.max_size ≡ some size
      → b.max_objects ≡ some objects
      → quota_differs env a b ≡ ok false
      → SameLimits a b
  unfolding quota_differs
  quota_differs-SameLimits a b {size} {objects} enabled_b size_b objects_b h =
      elim (Option-cases a.enabled) [
        | inl missing ↦ ground arith
        | inr (enabled, e) ↦ elim (Bool-cases enabled) [
          | inr off ↦ ground arith
          | inl on ↦ elim (Option-cases a.max_size) [
            | inl missing ↦ ground arith
            | inr (s, e') ↦ elim (Bool-cases (eqb s size)) [
              | inr other ↦ ground arith
              | inl same ↦ elim (Option-cases a.max_objects) [
                | inl missing ↦ ground arith
                | inr (o, e2) ↦ elim (Bool-cases (eqb o objects)) [
                  | inr other ↦ ground arith
                  | inl same' ↦ record {
                    enabled = e ∙ (ap some on ∙ sym enabled_b);
                    size = e' ∙ (ap some (ground arith) ∙ sym size_b);
                    objects = e2 ∙ (ap some (ground arith) ∙ sym objects_b);
                  }
                ]
              ]
            ]
          ]
        ]
      ]

  as_desired :
      (r : State Q W) (q : UserQuota Q) (r' : State Q W) (read : QuotaSpec)
      → SameLimits read (desired_quota env r q)
      → r'.ceph_user.user_quota ≡ desired_quota env r q
      → (read.enabled ≡ some true)
        × (read.max_size ≡ some (env.int64_value q.max_size))
        × (read.max_objects ≡ some (env.int64_value q.max_objects))
        × SameLimits read r'.ceph_user.user_quota
  unfolding desired_quota
  as_desired r q r' read limits kept =
      (limits.enabled, limits.size, limits.objects, subst (SameLimits read) (sym kept) limits)

  -- Where a quota that has been set is what is read next, and the claim has a quota: after the step
  -- has gone on, what is read of the user's quota is enabled, with the claim's size and number of
  -- objects as int64 values, whether it has been written or was so before; and the reconciler keeps
  -- that quota with the user.
  pub ensure_ceph_user_quota-SameLimits :
      QuotaLaws env
      → (r r' : State Q W) (q : UserQuota Q) (read : QuotaSpec)
      → r.s3_user_claim.spec.quota ≡ some q
      → ensure_ceph_user_quota env r ≡ (ok continue_reconciling, r')
      → env.get_user_quota r'.world (desired_quota env r q) ≡ ok read
      → (read.enabled ≡ some true)
        × (read.max_size ≡ some (env.int64_value q.max_size))
        × (read.max_objects ≡ some (env.int64_value q.max_objects))
        × SameLimits read r'.ceph_user.user_quota
  unfolding ensure_ceph_user_quota keep_quota desired_quota
  ensure_ceph_user_quota-SameLimits laws r r' q read has_quota ran got =
      let desired = desired_quota env r q in
      elim (Result-cases (env.get_user_quota r.world desired)) [
        | inr bad ↦ ground arith
        | inl (existing, e) ↦ elim (Result-cases (quota_differs env existing desired)) [
          | inr bad ↦ ground arith
          | inl (differs, c) ↦ elim (Bool-cases differs) [
            | inr same ↦
                let left : r.world ≡ r'.world = ground arith in
                let kept : r'.ceph_user.user_quota ≡ desired = ground arith in
                let is_read : existing ≡ read =
                  ok_injective (sym e ∙ (ap (λ w. env.get_user_quota w desired) left ∙ got)) in
                let limits =
                  quota_differs-SameLimits existing desired refl refl refl (c ∙ ap ok same) in
                as_desired r q r' read (subst (λ x. SameLimits x desired) is_read limits) kept
            | inl new ↦ elim (Result-cases (env.set_user_quota desired r.world).0) [
              | inr bad ↦ ground arith
              | inl (unit, set) ↦
                  let left : (env.set_user_quota desired r.world).1 ≡ r'.world = ground arith in
                  let kept : r'.ceph_user.user_quota ≡ desired = ground arith in
                  as_desired r q r' read
                    (laws.set desired read r.world set
                      (ap (λ w. env.get_user_quota w desired) left ∙ got))
                    kept
            ]
          ]
        ]
      ]
