-- ===== src/ClaimController/Rounds.antt =====
-- `Reconcile` of internal/controllers/s3userclaim/handler.go on a reconciler that has run before,
-- against a new one.
use ceph_s3_operator.Prelude.{
  ◌≡◌, inl, inr, refl, true, if◌then◌else◌, Option, List, [], ◌∷◌, arith, ap, sym,
}
use mathlib.Core.Path.{subst}
use ceph_s3_operator.Prelude.Text.{Text}
use ceph_s3_operator.Go.{Result, ok, Result-cases, has_reason}
use ceph_s3_operator.Names.{NamespacedName}
use ceph_s3_operator.Api.{User, UserQuota, empty_claim}
use ceph_s3_operator.Env.{Env}
use ceph_s3_operator.Subreconciler.{
  CtrlResult, Step, continue_reconciling, evaluate, run_steps, handle,
}
use ceph_s3_operator.Subreconciler.Agree.{if_agrees, after_step_agrees}
use ceph_s3_operator.ClaimController.State.{State, Config, new_reconciler, init_vars}
use ceph_s3_operator.ClaimController.CephUser.{
  desired_user, keep_user, modify_or_create, ensure_ceph_user,
}
use ceph_s3_operator.ClaimController.Secrets.{
  ensure_admin_secret, ensure_readonly_secret, ensure_other_subusers_secret,
}
use ceph_s3_operator.ClaimController.Status.{update_namespace_quota_status_inclusive}
use ceph_s3_operator.ClaimController.Flow.{provision_steps, provision, cleanup, reconcile}
use ceph_s3_operator.ClaimController.Fresh.{
  with_used, run_steps-Blind, ensure_ceph_user_quota-Blind, sync_subusers_list-Blind,
  retrieve_ceph_user-Blind, ensure_user_secret-Blind, ensure_subuser_secrets-Blind,
  ensure_s3_user-Blind, update_s3_user_claim_status-Blind, update_namespace_quota_status-Blind,
  add_cleanup_finalizer-Blind,
}
use ceph_s3_operator.ClaimController.Leftovers.{with_user, Agree, cleanup_agrees}

abbrev after_first : {A : Type 0} → List A → List A
after_first [] = []
after_first (_ ∷ xs) = xs

module _ {Q W : Type 0} (env : Env Q W) where
  -- The first step reads neither field, and sets both where it goes on.
  ensure_ceph_user_agrees :
      (s : State Q W) (u : User) (d : List Text) (x : Option (UserQuota Q))
      → Agree (ensure_ceph_user env (with_used x (with_user u d s))) (ensure_ceph_user env s)
        × ((ensure_ceph_user env s).0 ≡ ok continue_reconciling
            → (ensure_ceph_user env (with_used x (with_user u d s))).1
              ≡ with_used x (ensure_ceph_user env s).1)
  unfolding ensure_ceph_user modify_or_create desired_user keep_user
  ensure_ceph_user_agrees s u d x = ground arith

  -- The steps after the first.
  abbrev later_steps : List (Step (State Q W))
  later_steps = after_first (provision_steps env)

  provision_agrees :
      (s : State Q W) (u : User) (d : List Text) (x : Option (UserQuota Q))
      → Agree (provision env (with_used x (with_user u d s))) (provision env s)
  unfolding provision run_steps ensure_admin_secret ensure_readonly_secret
      ensure_other_subusers_secret update_namespace_quota_status_inclusive
  provision_agrees s u d x =
      let (same, sets) = ensure_ceph_user_agrees s u d x in
      let (y, blind) =
        run_steps-Blind env later_steps
          (
            ensure_ceph_user_quota-Blind env,
            (
              sync_subusers_list-Blind env,
              (
                retrieve_ceph_user-Blind env,
                (
                  (λ r. ensure_user_secret-Blind env _ _ r),
                  (
                    (λ r. ensure_user_secret-Blind env _ _ r),
                    (
                      (λ r. ensure_subuser_secrets-Blind env _ r),
                      (
                        ensure_s3_user-Blind env,
                        (
                          update_s3_user_claim_status-Blind env,
                          (
                            update_namespace_quota_status-Blind env true,
                            (add_cleanup_finalizer-Blind env, tt),
                          ),
                        ),
                      ),
                    ),
                  ),
                ),
              ),
            ),
          )
          (ensure_ceph_user env s).1 x in
      after_step_agrees (λ (r : State Q W). r.world)
        (ensure_ceph_user env (with_used x (with_user u d s))) (ensure_ceph_user env s)
        (run_steps later_steps) same
        (λ continues.
          subst
            (λ t.
              Agree (run_steps later_steps t) (run_steps later_steps (ensure_ceph_user env s).1))
            (sym (sets continues)) (ap (λ p. p.0) blind, ap (λ p. p.1.world) blind))

  -- The reconciler with the variables of the request, from its configuration and world alone.
  abbrev started : Text → Text → W → NamespacedName → State Q W → State Q W
  started cluster class w req r = init_vars req (record r {
    s3_user_claim = empty_claim;
    world = w;
    cluster_name = cluster;
    s3_user_class = class;
  })

  -- `Reconcile` after the variables are set.
  abbrev dispatch : NamespacedName → State Q W → Result CtrlResult × State Q W
  dispatch req r' =
      handle (env.claims.get r'.world req, r')
        (λ e r. if has_reason env.not_found e then cleanup env r else (evaluate true, r))
        (λ claim r.
          let r'' = record r { s3_user_claim = claim } in
          if claim.meta.deleting then cleanup env r'' else provision env r'')

  dispatch_agrees :
      (req : NamespacedName) (s : State Q W) (u : User) (d : List Text) (x : Option (UserQuota Q))
      → Agree (dispatch req (with_used x (with_user u d s))) (dispatch req s)
  dispatch_agrees req s u d x = elim (Result-cases (env.claims.get s.world req)) [
    | inl (claim, e) ↦
        let s' = record s { s3_user_claim = claim } in
        rw e (
          if_agrees (λ (r : State Q W). r.world) claim.meta.deleting _ _ _ _
            (cleanup_agrees env s' u d x) (provision_agrees s' u d x))
    | inr (inr e) ↦ rw e (refl, refl)
    | inr (inl (error, e)) ↦ rw e (
        if_agrees (λ (r : State Q W). r.world) (has_reason env.not_found error) _ _ _ _
          (cleanup_agrees env s u d x) (refl, refl))
  ]

  -- A round of a reconciler with the class and the cluster's name of a configuration, whatever is
  -- left in its other fields, has the result of a round of a new reconciler in the same world, and
  -- leaves the same world.
  pub reconcile-new_reconciler :
      (cfg : Config) (r : State Q W) (req : NamespacedName)
      → r.cluster_name ≡ cfg.cluster_name
      → r.s3_user_class ≡ cfg.s3_user_class
      → ((reconcile env req r).0 ≡ (reconcile env req (new_reconciler cfg r.world)).0)
        × ((reconcile env req r).1.world ≡ (reconcile env req (new_reconciler cfg r.world)).1.world)
  unfolding reconcile new_reconciler init_vars
  reconcile-new_reconciler cfg r req cluster class =
      let fresh = new_reconciler cfg r.world in
      let s = started cfg.cluster_name cfg.s3_user_class r.world req fresh in
      let same : started r.cluster_name r.s3_user_class r.world req r
          ≡ with_used r.namespace_used_quota
              (with_user r.ceph_user r.desired_subusers_string_list s) =
        λ i. started (cluster i) (class i) r.world req r in
      subst (λ t. Agree (dispatch req t) (dispatch req s)) (sym same)
        (dispatch_agrees req s r.ceph_user r.desired_subusers_string_list r.namespace_used_quota)
