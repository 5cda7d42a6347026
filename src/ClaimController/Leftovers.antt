-- ===== src/ClaimController/Leftovers.antt =====
-- The clean-up of internal/controllers/s3userclaim/cleaner.go on a reconciler whose fields of the
-- Ceph user and of the desired subusers are left from an earlier round.
use ceph_s3_operator.Prelude.{
  ◌≡◌, inl, inr, refl, Bool, false, Option, some, List, [], ◌∷◌, arith, All, Bool-cases, ap, ◌∙◌,
}
use ceph_s3_operator.Prelude.Text.{Text}
use ceph_s3_operator.Go.{Result-cases}
use ceph_s3_operator.Quota.{calculate_namespace_used_quota}
use ceph_s3_operator.Api.{User, UserQuota, ResourceQuota, ResourceQuotaStatus}
use ceph_s3_operator.Env.{Env}
use ceph_s3_operator.Subreconciler.{Step, run_steps}
use ceph_s3_operator.Subreconciler.Agree as Same
use ceph_s3_operator.ClaimController.State.{State}
use ceph_s3_operator.ClaimController.CephUser.{remove_ceph_user}
use ceph_s3_operator.ClaimController.S3User.{remove_s3_user}
use ceph_s3_operator.ClaimController.Status.{
  assign_used_quota_to_resource_status, update_quotas, update_namespace_quota_status,
  update_namespace_quota_status_exclusive, write_finalizers, remove_cleanup_finalizer,
}
use ceph_s3_operator.ClaimController.Flow.{cleanup_steps, cleanup}
use ceph_s3_operator.ClaimController.Fresh.{
  with_used, Signal-cases, run_steps-Blind, update_namespace_quota_status-Blind,
  remove_ceph_user-Blind, remove_s3_user-Blind, remove_cleanup_finalizer-Blind,
}

module _ {Q W : Type 0} where
  abbrev pub with_user : User → List Text → State Q W → State Q W
  with_user u d r = record r { ceph_user = u; desired_subusers_string_list = d }

  -- What the step does, but to these two fields, does not depend on them.
  abbrev pub Ignores : {A : Type 0} → (State Q W → A × State Q W) → Type 0
  Ignores f =
      (r : State Q W) (u : User) (d : List Text)
      → f (with_user u d r) ≡ ((f r).0, with_user u d (f r).1)

  -- The same result, in the same world.
  abbrev pub Agree : {A : Type 0} → A × State Q W → A × State Q W → Type 0
  Agree p q = Same.Agree (λ (r : State Q W). r.world) p q

module _ {Q W : Type 0} (env : Env Q W) where
  remove_ceph_user-Ignores : Ignores (remove_ceph_user env)
  unfolding remove_ceph_user
  remove_ceph_user-Ignores r u d = ground arith

  remove_s3_user-Ignores : Ignores (remove_s3_user env)
  unfolding remove_s3_user
  remove_s3_user-Ignores r u d = ground arith

  update_quotas-Ignores :
      (used : UserQuota Q) (items : List (ResourceQuota Q)) → Ignores (update_quotas env used items)
  unfolding update_quotas
  update_quotas-Ignores used [] r u d = refl
  update_quotas-Ignores used (quota ∷ items) r u d =
      let status = assign_used_quota_to_resource_status env quota.status used in
      let p =
        env.retry_on_conflict (ResourceQuota Q)
          (env.resource_quotas.update_status (record quota { status = status })) r.world in
      elim (Bool-cases (env.deep_equal (ResourceQuotaStatus Q) quota.status status)) [
        | inl equal ↦ rw (equal, update_quotas) (update_quotas-Ignores used items r u d)
        | inr differs ↦ elim (Result-cases p.0) [
          | inl (o, e) ↦
              rw (differs, e, update_quotas)
                (update_quotas-Ignores used items (record r { world = p.1 }) u d)
          | inr bad ↦ ground arith
        ]
      ]

  update_namespace_quota_status-Ignores :
      (flag : Bool) → Ignores (update_namespace_quota_status env flag)
  unfolding update_namespace_quota_status
  update_namespace_quota_status-Ignores flag r u d =
      let sum =
        calculate_namespace_used_quota env r.world (some r.s3_user_claim) r.s3_user_claim_namespace
          flag in
      let listed = env.resource_quotas.list r.world r.s3_user_claim_namespace in
      elim (Result-cases sum) [
        | inr bad ↦ ground arith
        | inl (used, e) ↦ elim (Result-cases listed) [
          | inr bad ↦ ground arith
          | inl (items, l) ↦
              rw (e, l) (update_quotas-Ignores used items (with_used (some used) r) u d)
        ]
      ]

  remove_cleanup_finalizer-Ignores : Ignores (remove_cleanup_finalizer env)
  unfolding remove_cleanup_finalizer write_finalizers
  remove_cleanup_finalizer-Ignores r u d = ground arith

  run_steps-Ignores :
      (steps : List (Step (State Q W))) → All Ignores steps → Ignores (run_steps steps)
  unfolding run_steps
  run_steps-Ignores [] h r u d = refl
  run_steps-Ignores (step ∷ steps) h r u d =
      let e = h.0 r u d in
      let rest = run_steps-Ignores steps h.1 (step r).1 u d in
      elim (Result-cases (step r).0) [
        | inr bad ↦ ground arith
        | inl (signal, p) ↦ elim (Signal-cases signal) [
          | inl continues ↦ ground arith
          | inr halts ↦ ground arith
        ]
      ]

  pub cleanup_agrees :
      (s : State Q W) (u : User) (d : List Text) (x : Option (UserQuota Q))
      → Agree (cleanup env (with_used x (with_user u d s))) (cleanup env s)
  unfolding cleanup update_namespace_quota_status_exclusive
  cleanup_agrees s u d x =
      let ignores =
        run_steps-Ignores (cleanup_steps env)
          (
            remove_ceph_user-Ignores,
            (
              remove_s3_user-Ignores,
              (update_namespace_quota_status-Ignores false, (remove_cleanup_finalizer-Ignores, tt)),
            ),
          )
          s u d in
      let (y, blind) =
        run_steps-Blind env (cleanup_steps env)
          (
            remove_ceph_user-Blind env,
            (
              remove_s3_user-Blind env,
              (
                update_namespace_quota_status-Blind env false,
                (remove_cleanup_finalizer-Blind env, tt),
              ),
            ),
          )
          (with_user u d s) x in
      (
        ap (λ p. p.0) blind ∙ ap (λ p. p.0) ignores,
        ap (λ p. p.1.world) blind ∙ ap (λ p. p.1.world) ignores,
      )
