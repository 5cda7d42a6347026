-- ===== src/ClaimController/Steps.antt =====
-- `Provision` and `Cleanup` of internal/controllers/s3userclaim as chains: what each step can
-- return.
use ceph_s3_operator.Prelude.{◌≡◌, ◌↔◌, All, Bool, true, false, List, [], ◌∷◌, arith, if◌then◌else◌}
use ceph_s3_operator.Prelude.Text.{Text}
use ceph_s3_operator.Prelude.Assoc.{Assoc}
use ceph_s3_operator.Go.{Result, has_reason}
use ceph_s3_operator.Api.{Secret, UserQuota, ResourceQuota, S3UserClaim}
use ceph_s3_operator.Env.{Env}
use ceph_s3_operator.Subreconciler.{CtrlResult, evaluate, handle}
use ceph_s3_operator.Subreconciler.Chain.{Retries, Ran, All-Retries-NeverDone, run_steps_iff}
use ceph_s3_operator.ClaimController.State.{State}
use ceph_s3_operator.ClaimController.CephUser.{
  keep_user, modify_or_create, ensure_ceph_user, keep_quota, ensure_ceph_user_quota,
  retrieve_ceph_user, remove_ceph_user,
}
use ceph_s3_operator.ClaimController.Subusers.{sync_subuser, sync_entries, sync_subusers_list}
use ceph_s3_operator.ClaimController.Secrets.{
  update_secret, ensure_secret, ensure_user_secret, ensure_admin_secret, ensure_readonly_secret,
  ensure_subuser_secrets, ensure_other_subusers_secret,
}
use ceph_s3_operator.ClaimController.S3User.{ensure_s3_user, remove_s3_user}
use ceph_s3_operator.ClaimController.Status.{
  update_s3_user_claim_status, update_quotas, update_namespace_quota_status,
  update_namespace_quota_status_inclusive, update_namespace_quota_status_exclusive,
  write_finalizers, add_cleanup_finalizer, remove_cleanup_finalizer,
}
use ceph_s3_operator.ClaimController.Flow.{provision_steps, cleanup_steps, provision, cleanup}

module _ {Q W : Type 0} (env : Env Q W) where
  ensure_ceph_user-Retries : Retries (ensure_ceph_user env)
  unfolding ensure_ceph_user modify_or_create keep_user
  ensure_ceph_user-Retries r = ground arith

  ensure_ceph_user_quota-Retries : Retries (ensure_ceph_user_quota env)
  unfolding ensure_ceph_user_quota keep_quota
  ensure_ceph_user_quota-Retries r = ground arith

  retrieve_ceph_user-Retries : Retries (retrieve_ceph_user env)
  unfolding retrieve_ceph_user
  retrieve_ceph_user-Retries r = ground arith

  remove_ceph_user-Retries : Retries (remove_ceph_user env)
  unfolding remove_ceph_user
  remove_ceph_user-Retries r = ground arith

  sync_entries-Retries : (entries : Assoc Text) → Retries (sync_entries env entries)
  unfolding sync_entries
  sync_entries-Retries [] r = ground arith
  sync_entries-Retries (entry ∷ entries) r =
      ground (arith, sync_entries-Retries entries (sync_subuser env entry r).1)

  sync_subusers_list-Retries : Retries (sync_subusers_list env)
  unfolding sync_subusers_list
  sync_subusers_list-Retries r = sync_entries-Retries _ r

  ensure_secret-Retries : (secret : Secret) → Retries (ensure_secret env secret)
  unfolding ensure_secret update_secret
  ensure_secret-Retries secret r = ground arith

  ensure_user_secret-Retries : (user name : Text) → Retries (ensure_user_secret env user name)
  unfolding ensure_user_secret
  ensure_user_secret-Retries user name r = grind (arith, ensure_secret-Retries)

  ensure_subuser_secrets-Retries :
      (subusers : List Text) → Retries (ensure_subuser_secrets env subusers)
  unfolding ensure_subuser_secrets
  ensure_subuser_secrets-Retries [] r = ground arith
  ensure_subuser_secrets-Retries (subuser ∷ subusers) r =
      grind (arith, ensure_subuser_secrets-Retries subusers, ensure_user_secret-Retries)

  ensure_s3_user-Retries : Retries (ensure_s3_user env)
  unfolding ensure_s3_user
  ensure_s3_user-Retries r = ground arith

  remove_s3_user-Retries : Retries (remove_s3_user env)
  unfolding remove_s3_user
  remove_s3_user-Retries r = ground arith

  update_s3_user_claim_status-Retries : Retries (update_s3_user_claim_status env)
  unfolding update_s3_user_claim_status
  update_s3_user_claim_status-Retries r = ground arith

  update_quotas-Retries :
      (used : UserQuota Q) (items : List (ResourceQuota Q)) → Retries (update_quotas env used items)
  unfolding update_quotas
  update_quotas-Retries used [] r = ground arith
  update_quotas-Retries used (quota ∷ items) r = grind (arith, update_quotas-Retries used items)

  update_namespace_quota_status-Retries :
      (flag : Bool) → Retries (update_namespace_quota_status env flag)
  unfolding update_namespace_quota_status
  update_namespace_quota_status-Retries flag r = grind (arith, update_quotas-Retries)

  add_cleanup_finalizer-Retries : Retries (add_cleanup_finalizer env)
  unfolding add_cleanup_finalizer write_finalizers
  add_cleanup_finalizer-Retries r = ground arith

  remove_cleanup_finalizer-Retries : Retries (remove_cleanup_finalizer env)
  unfolding remove_cleanup_finalizer write_finalizers
  remove_cleanup_finalizer-Retries r = ground arith

  provision_steps-Retries : All Retries (provision_steps env)
  unfolding ensure_admin_secret ensure_readonly_secret ensure_other_subusers_secret
      update_namespace_quota_status_inclusive
  provision_steps-Retries = (
    ensure_ceph_user-Retries,
    (
      ensure_ceph_user_quota-Retries,
      (
        sync_subusers_list-Retries,
        (
          retrieve_ceph_user-Retries,
          (
            (λ s. ensure_user_secret-Retries _ _ s),
            (
              (λ s. ensure_user_secret-Retries _ _ s),
              (
                (λ s. ensure_subuser_secrets-Retries _ s),
                (
                  ensure_s3_user-Retries,
                  (
                    update_s3_user_claim_status-Retries,
                    (
                      update_namespace_quota_status-Retries true,
                      (add_cleanup_finalizer-Retries, tt),
                    ),
                  ),
                ),
              ),
            ),
          ),
        ),
      ),
    ),
  )

  cleanup_steps-Retries : All Retries (cleanup_steps env)
  unfolding update_namespace_quota_status_exclusive
  cleanup_steps-Retries = (
    remove_ceph_user-Retries,
    (
      remove_s3_user-Retries,
      (update_namespace_quota_status-Retries false, (remove_cleanup_finalizer-Retries, tt)),
    ),
  )

  -- A round of provisioning a claim ends without a request for another exactly if these eleven steps
  -- have gone through in this order, each on the state that the one before has left, and the last
  -- leaves the state of the round: the user, its quota, its subusers, the user as it is then, the
  -- three kinds of secrets, the S3User, the status, the used quota with this claim, the finalizer.
  pub provision_iff :
      (r r' : State Q W)
      → (provision env r ≡ (evaluate false, r'))
        ↔ Ran
            (ensure_ceph_user env
              ∷ ensure_ceph_user_quota env
              ∷ sync_subusers_list env
              ∷ retrieve_ceph_user env
              ∷ ensure_admin_secret env
              ∷ ensure_readonly_secret env
              ∷ ensure_other_subusers_secret env
              ∷ ensure_s3_user env
              ∷ update_s3_user_claim_status env
              ∷ update_namespace_quota_status_inclusive env
              ∷ add_cleanup_finalizer env
              ∷ [])
            r
            r'
  unfolding provision
  provision_iff r r' =
      run_steps_iff (provision_steps env) r r'
        (All-Retries-NeverDone (provision_steps env) provision_steps-Retries)

  -- A round of cleaning up a claim ends without a request for another exactly if each of its four
  -- steps, in their order, has gone through, the last one in the state that is left.
  pub cleanup_iff :
      (r r' : State Q W) → (cleanup env r ≡ (evaluate false, r')) ↔ Ran (cleanup_steps env) r r'
  unfolding cleanup
  cleanup_iff r r' =
      run_steps_iff (cleanup_steps env) r r'
        (All-Retries-NeverDone (cleanup_steps env) cleanup_steps-Retries)

  -- `Reconcile` after the claim has been looked for.
  abbrev pub with_claim : Result (S3UserClaim Q) → State Q W → Result CtrlResult × State Q W
  with_claim got s =
      handle (got, s)
        (λ e r. if has_reason env.not_found e then cleanup env r else (evaluate true, r))
        (λ claim r.
          let r' = record r { s3_user_claim = claim } in
          if claim.meta.deleting then cleanup env r' else provision env r')
