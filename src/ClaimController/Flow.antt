-- ===== src/ClaimController/Flow.antt =====
-- `Reconcile`, `Provision` and `Cleanup` of internal/controllers/s3userclaim.
use ceph_s3_operator.Prelude.{List, [], ◌∷◌, true, if◌then◌else◌}
use ceph_s3_operator.Go.{Result, has_reason}
use ceph_s3_operator.Names.{NamespacedName}
use ceph_s3_operator.Api.{empty_claim}
use ceph_s3_operator.Env.{Env}
use ceph_s3_operator.Subreconciler.{Step, CtrlResult, evaluate, run_steps, handle}
use ceph_s3_operator.ClaimController.State.{State, init_vars}
use ceph_s3_operator.ClaimController.CephUser.{
  ensure_ceph_user, ensure_ceph_user_quota, retrieve_ceph_user, remove_ceph_user,
}
use ceph_s3_operator.ClaimController.Subusers.{sync_subusers_list}
use ceph_s3_operator.ClaimController.Secrets.{
  ensure_admin_secret, ensure_readonly_secret, ensure_other_subusers_secret,
}
use ceph_s3_operator.ClaimController.S3User.{ensure_s3_user, remove_s3_user}
use ceph_s3_operator.ClaimController.Status.{
  update_s3_user_claim_status, update_namespace_quota_status_inclusive,
  update_namespace_quota_status_exclusive, add_cleanup_finalizer, remove_cleanup_finalizer,
}

module _ {Q W : Type 0} (env : Env Q W) where
  open env use {claims, not_found}

  abbrev pub provision_steps : List (Step (State Q W))
  provision_steps =
      ensure_ceph_user env
      ∷ ensure_ceph_user_quota env
      ∷ sync_subusers_list env
      ∷ retrieve_ceph_user env
      ∷ ensure_admin_secret env
      ∷ ensure_readonly_secret env
      ∷ ensure_other_subusers_secret env
      ∷ ensure_s3_user env
      ∷ update_s3_user_claim_status env
      ∷ update_namespace_quota_status_inclusive env
      ∷ add_cleanup_finalizer env
      ∷ []

  abbrev pub cleanup_steps : List (Step (State Q W))
  cleanup_steps =
      remove_ceph_user env
      ∷ remove_s3_user env
      ∷ update_namespace_quota_status_exclusive env
      ∷ remove_cleanup_finalizer env
      ∷ []

  unfoldable pub provision : State Q W → Result CtrlResult × State Q W
  provision = run_steps provision_steps

  unfoldable pub cleanup : State Q W → Result CtrlResult × State Q W
  cleanup = run_steps cleanup_steps

  unfoldable pub reconcile : NamespacedName → State Q W → Result CtrlResult × State Q W
  reconcile req r =
      let r' = init_vars req (record r { s3_user_claim = empty_claim }) in
      handle (claims.get r'.world req, r')
        (λ e r. if has_reason not_found e then cleanup r else (evaluate true, r))
        (λ claim r.
          let r'' = record r { s3_user_claim = claim } in
          if claim.meta.deleting then cleanup r'' else provision r'')
