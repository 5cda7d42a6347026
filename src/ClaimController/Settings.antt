-- ===== src/ClaimController/Settings.antt =====
-- What a round of internal/controllers/s3userclaim leaves in the reconciler as `NewReconciler` has
-- set it from the configuration: the name of the cluster and the class.
use ceph_s3_operator.Prelude.{◌≡◌, refl, All, Bool, true, false, List, [], ◌∷◌, arith}
use ceph_s3_operator.Prelude.Text.{Text}
use ceph_s3_operator.Prelude.Assoc.{Assoc}
use ceph_s3_operator.Go.{Result, ok, err, panic, has_reason}
use ceph_s3_operator.Names.{NamespacedName}
use ceph_s3_operator.Api.{Secret, UserQuota, ResourceQuota, S3UserClaim, empty_claim}
use ceph_s3_operator.Env.{Env}
use ceph_s3_operator.Subreconciler.{evaluate}
use ceph_s3_operator.Subreconciler.Keeps.{Keeps, run_steps-Keeps, if_keeps}
use ceph_s3_operator.ClaimController.State.{State, init_vars}
use ceph_s3_operator.ClaimController.CephUser.{
  keep_user, modify_or_create, ensure_ceph_user, keep_quota, ensure_ceph_user_quota,
  retrieve_ceph_user, remove_ceph_user,
}
use ceph_s3_operator.ClaimController.Subusers.{
  generate_subuser, remove_subuser_and_secret, sync_subuser, sync_entries, sync_subusers_list,
}
use ceph_s3_operator.ClaimController.Secrets.{
  update_secret, ensure_secret, ensure_user_secret, ensure_admin_secret, ensure_readonly_secret,
  ensure_subuser_secrets, ensure_other_subusers_secret,
}
use ceph_s3_operator.ClaimController.S3User.{ensure_s3_user, remove_s3_user}
use ceph_s3_operator.ClaimController.Status.{
  update_s3_user_claim_status, update_quotas, update_namespace_quota_status,
  update_namespace_quota_status_inclusive, update_namespace_quota_status_exclusive,
  write_finalizers, add_cleanup_finalizer, remove_cleanup_finalizer,
}
use ceph_s3_operator.ClaimController.Steps.{with_claim}
use ceph_s3_operator.ClaimController.Flow.{
  provision_steps, cleanup_steps, provision, cleanup, reconcile,
}

module _ {Q W : Type 0} (env : Env Q W) where
  abbrev pub settings : State Q W → Text × Text
  settings r = (r.cluster_name, r.s3_user_class)

  ensure_ceph_user-Keeps : Keeps settings (ensure_ceph_user env)
  unfolding ensure_ceph_user modify_or_create keep_user
  ensure_ceph_user-Keeps r = ground arith

  ensure_ceph_user_quota-Keeps : Keeps settings (ensure_ceph_user_quota env)
  unfolding ensure_ceph_user_quota keep_quota
  ensure_ceph_user_quota-Keeps r = ground arith

  retrieve_ceph_user-Keeps : Keeps settings (retrieve_ceph_user env)
  unfolding retrieve_ceph_user
  retrieve_ceph_user-Keeps r = ground arith

  remove_ceph_user-Keeps : Keeps settings (remove_ceph_user env)
  unfolding remove_ceph_user
  remove_ceph_user-Keeps r = ground arith

  sync_subuser_keeps :
      (entry : Text × Text) (r : State Q W) → settings (sync_subuser env entry r).1 ≡ settings r
  unfolding sync_subuser generate_subuser remove_subuser_and_secret
  sync_subuser_keeps entry r = ground arith

  sync_entries-Keeps : (entries : Assoc Text) → Keeps settings (sync_entries env entries)
  unfolding sync_entries
  sync_entries-Keeps [] r = ground arith
  sync_entries-Keeps (entry ∷ entries) r =
      ground
        (arith, sync_entries-Keeps entries (sync_subuser env entry r).1, sync_subuser_keeps entry r)

  sync_subusers_list-Keeps : Keeps settings (sync_subusers_list env)
  unfolding sync_subusers_list
  sync_subusers_list-Keeps r = sync_entries-Keeps _ r

  ensure_secret-Keeps : (secret : Secret) → Keeps settings (ensure_secret env secret)
  unfolding ensure_secret update_secret
  ensure_secret-Keeps secret r = ground arith

  ensure_user_secret-Keeps : (user name : Text) → Keeps settings (ensure_user_secret env user name)
  unfolding ensure_user_secret
  ensure_user_secret-Keeps user name r = grind (arith, ensure_secret-Keeps)

  ensure_subuser_secrets-Keeps :
      (subusers : List Text) → Keeps settings (ensure_subuser_secrets env subusers)
  unfolding ensure_subuser_secrets
  ensure_subuser_secrets-Keeps [] r = ground arith
  ensure_subuser_secrets-Keeps (subuser ∷ subusers) r =
      grind (arith, ensure_subuser_secrets-Keeps subusers, ensure_user_secret-Keeps)

  ensure_s3_user-Keeps : Keeps settings (ensure_s3_user env)
  unfolding ensure_s3_user
  ensure_s3_user-Keeps r = ground arith

  remove_s3_user-Keeps : Keeps settings (remove_s3_user env)
  unfolding remove_s3_user
  remove_s3_user-Keeps r = ground arith

  update_s3_user_claim_status-Keeps : Keeps settings (update_s3_user_claim_status env)
  unfolding update_s3_user_claim_status
  update_s3_user_claim_status-Keeps r = ground arith

  update_quotas-Keeps :
      (used : UserQuota Q) (items : List (ResourceQuota Q))
      → Keeps settings (update_quotas env used items)
  unfolding update_quotas
  update_quotas-Keeps used [] r = ground arith
  update_quotas-Keeps used (quota ∷ items) r = grind (arith, update_quotas-Keeps used items)

  update_namespace_quota_status-Keeps :
      (flag : Bool) → Keeps settings (update_namespace_quota_status env flag)
  unfolding update_namespace_quota_status
  update_namespace_quota_status-Keeps flag r = grind (arith, update_quotas-Keeps)

  add_cleanup_finalizer-Keeps : Keeps settings (add_cleanup_finalizer env)
  unfolding add_cleanup_finalizer write_finalizers
  add_cleanup_finalizer-Keeps r = ground arith

  remove_cleanup_finalizer-Keeps : Keeps settings (remove_cleanup_finalizer env)
  unfolding remove_cleanup_finalizer write_finalizers
  remove_cleanup_finalizer-Keeps r = ground arith

  provision_steps-Keeps : All (Keeps settings) (provision_steps env)
  unfolding ensure_admin_secret ensure_readonly_secret ensure_other_subusers_secret
      update_namespace_quota_status_inclusive
  provision_steps-Keeps = (
    ensure_ceph_user-Keeps,
    (
      ensure_ceph_user_quota-Keeps,
      (
        sync_subusers_list-Keeps,
        (
          retrieve_ceph_user-Keeps,
          (
            (λ s. ensure_user_secret-Keeps _ _ s),
            (
              (λ s. ensure_user_secret-Keeps _ _ s),
              (
                (λ s. ensure_subuser_secrets-Keeps _ s),
                (
                  ensure_s3_user-Keeps,
                  (
                    update_s3_user_claim_status-Keeps,
                    (update_namespace_quota_status-Keeps true, (add_cleanup_finalizer-Keeps, tt)),
                  ),
                ),
              ),
            ),
          ),
        ),
      ),
    ),
  )

  cleanup_steps-Keeps : All (Keeps settings) (cleanup_steps env)
  unfolding update_namespace_quota_status_exclusive
  cleanup_steps-Keeps = (
    remove_ceph_user-Keeps,
    (
      remove_s3_user-Keeps,
      (update_namespace_quota_status-Keeps false, (remove_cleanup_finalizer-Keeps, tt)),
    ),
  )

  provision_keeps : (r : State Q W) → settings (provision env r).1 ≡ settings r
  unfolding provision
  provision_keeps r = run_steps-Keeps settings (provision_steps env) r provision_steps-Keeps

  cleanup_keeps : (r : State Q W) → settings (cleanup env r).1 ≡ settings r
  unfolding cleanup
  cleanup_keeps r = run_steps-Keeps settings (cleanup_steps env) r cleanup_steps-Keeps

  with_claim_keeps :
      (got : Result (S3UserClaim Q)) (s : State Q W)
      → settings (with_claim env got s).1 ≡ settings s
  with_claim_keeps (ok claim) s =
      let s' = record s { s3_user_claim = claim } in
      if_keeps settings claim.meta.deleting (cleanup env s') (provision env s') s (cleanup_keeps s')
        (provision_keeps s')
  with_claim_keeps (err x) s =
      if_keeps settings (has_reason env.not_found x) (cleanup env s) (evaluate true, s) s
        (cleanup_keeps s) refl
  with_claim_keeps panic s = refl

  pub reconcile_keeps :
      (req : NamespacedName) (r : State Q W) → settings (reconcile env req r).1 ≡ settings r
  unfolding reconcile init_vars
  reconcile_keeps req r =
      with_claim_keeps (env.claims.get r.world req)
        (init_vars req (record r { s3_user_claim = empty_claim }))
