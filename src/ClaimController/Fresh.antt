-- ===== src/ClaimController/Fresh.antt =====
-- The steps of internal/controllers/s3userclaim on a reconciler whose field of the used quota is
-- left from an earlier round.
use ceph_s3_operator.Prelude.{
  ◌≡◌, ◌⊎◌, inl, inr, refl, Bool, Option, some, List, [], ◌∷◌, arith, All, Bool-cases,
}
use ceph_s3_operator.Prelude.Text.{Text}
use ceph_s3_operator.Prelude.Assoc.{Assoc}
use ceph_s3_operator.Go.{Result-cases}
use ceph_s3_operator.Names.{generate_subuser_full_id, generate_subuser_secret_name}
use ceph_s3_operator.Quota.{calculate_namespace_used_quota}
use ceph_s3_operator.Api.{UserQuota, ResourceQuota, ResourceQuotaStatus}
use ceph_s3_operator.Env.{Env}
use ceph_s3_operator.Subreconciler.{
  Signal, Step, continue_reconciling, requeue, do_not_requeue, run_steps,
}
use ceph_s3_operator.ClaimController.State.{State}
use ceph_s3_operator.ClaimController.CephUser.{
  desired_quota, quota_differs, keep_quota, ensure_ceph_user_quota, retrieve_ceph_user,
  remove_ceph_user,
}
use ceph_s3_operator.ClaimController.Subusers.{
  generate_subuser_access, generate_subuser, remove_subuser_and_secret, sync_subuser, sync_entries,
  sync_subusers_list,
}
use ceph_s3_operator.ClaimController.Secrets.{
  assemble_ceph_user_secret, update_secret, ensure_secret, ensure_user_secret,
  ensure_subuser_secrets,
}
use ceph_s3_operator.ClaimController.S3User.{assemble_s3_user, ensure_s3_user, remove_s3_user}
use ceph_s3_operator.ClaimController.Status.{
  wanted_status, assign_used_quota_to_resource_status, update_s3_user_claim_status, update_quotas,
  update_namespace_quota_status, write_finalizers, add_cleanup_finalizer, remove_cleanup_finalizer,
}

module _ {Q W : Type 0} where
  abbrev pub with_used : Option (UserQuota Q) → State Q W → State Q W
  with_used x r = record r { namespace_used_quota = x }

  -- What the step does, but to the field of the used quota, does not depend on that field.
  abbrev pub Blind : {A : Type 0} → (State Q W → A × State Q W) → Type 0
  Blind f =
      (r : State Q W) (x : Option (UserQuota Q))
      → (y : Option (UserQuota Q)) × (f (with_used x r) ≡ ((f r).0, with_used y (f r).1))

pub Signal-cases :
    (s : Signal) → (s ≡ continue_reconciling) ⊎ ((s ≡ requeue) ⊎ (s ≡ do_not_requeue))
Signal-cases continue_reconciling = inl refl
Signal-cases requeue = inr (inl refl)
Signal-cases do_not_requeue = inr (inr refl)

module _ {Q W : Type 0} (env : Env Q W) where
  pub ensure_ceph_user_quota-Blind : Blind (ensure_ceph_user_quota env)
  unfolding ensure_ceph_user_quota desired_quota quota_differs keep_quota
  ensure_ceph_user_quota-Blind r x = (x, ground arith)

  pub sync_subuser-Blind : (entry : Text × Text) → Blind (sync_subuser env entry)
  unfolding sync_subuser generate_subuser remove_subuser_and_secret
  sync_subuser-Blind entry r x = (x, ground arith)

  pub retrieve_ceph_user-Blind : Blind (retrieve_ceph_user env)
  unfolding retrieve_ceph_user
  retrieve_ceph_user-Blind r x = (x, ground arith)

  pub remove_ceph_user-Blind : Blind (remove_ceph_user env)
  unfolding remove_ceph_user
  remove_ceph_user-Blind r x = (x, ground arith)

  pub ensure_user_secret-Blind : (user name : Text) → Blind (ensure_user_secret env user name)
  unfolding ensure_user_secret assemble_ceph_user_secret ensure_secret update_secret
  ensure_user_secret-Blind user name r x = (x, ground arith)

  pub ensure_s3_user-Blind : Blind (ensure_s3_user env)
  unfolding ensure_s3_user assemble_s3_user
  ensure_s3_user-Blind r x = (x, ground arith)

  pub remove_s3_user-Blind : Blind (remove_s3_user env)
  unfolding remove_s3_user
  remove_s3_user-Blind r x = (x, ground arith)

  pub update_s3_user_claim_status-Blind : Blind (update_s3_user_claim_status env)
  unfolding update_s3_user_claim_status wanted_status
  update_s3_user_claim_status-Blind r x = (x, ground arith)

  pub add_cleanup_finalizer-Blind : Blind (add_cleanup_finalizer env)
  unfolding add_cleanup_finalizer write_finalizers
  add_cleanup_finalizer-Blind r x = (x, ground arith)

  pub remove_cleanup_finalizer-Blind : Blind (remove_cleanup_finalizer env)
  unfolding remove_cleanup_finalizer write_finalizers
  remove_cleanup_finalizer-Blind r x = (x, ground arith)

  pub sync_entries-Blind : (entries : Assoc Text) → Blind (sync_entries env entries)
  unfolding sync_entries
  sync_entries-Blind [] r x = (x, refl)
  sync_entries-Blind (entry ∷ entries) r x =
      let (y, e) = sync_subuser-Blind entry r x in
      let (z, rest) = sync_entries-Blind entries (sync_subuser env entry r).1 y in
      elim (Result-cases (sync_subuser env entry r).0) [
        | inl (u, p) ↦ (z, ground arith)
        | inr bad ↦ (y, ground arith)
      ]

  pub sync_subusers_list-Blind : Blind (sync_subusers_list env)
  unfolding sync_subusers_list generate_subuser_access
  sync_subusers_list-Blind r x = sync_entries-Blind _ r x

  pub ensure_subuser_secrets-Blind :
      (subusers : List Text) → Blind (ensure_subuser_secrets env subusers)
  unfolding ensure_subuser_secrets
  ensure_subuser_secrets-Blind [] r x = (x, refl)
  ensure_subuser_secrets-Blind (s ∷ subusers) r x =
      let user = generate_subuser_full_id r.ceph_user_full_id s in
      let name = generate_subuser_secret_name r.s3_user_claim.meta.name s in
      let (y, e) = ensure_user_secret-Blind user name r x in
      let (z, rest) =
        ensure_subuser_secrets-Blind subusers (ensure_user_secret env user name r).1 y in
      elim (Result-cases (ensure_user_secret env user name r).0) [
        | inr bad ↦ (y, ground arith)
        | inl (signal, p) ↦ elim (Signal-cases signal) [
          | inl continues ↦ (z, ground arith)
          | inr halts ↦ (y, ground arith)
        ]
      ]

  pub update_quotas-Blind :
      (used : UserQuota Q) (items : List (ResourceQuota Q)) → Blind (update_quotas env used items)
  unfolding update_quotas
  update_quotas-Blind used [] r x = (x, refl)
  update_quotas-Blind used (quota ∷ items) r x =
      let status = assign_used_quota_to_resource_status env quota.status used in
      let p =
        env.retry_on_conflict (ResourceQuota Q)
          (env.resource_quotas.update_status (record quota { status = status })) r.world in
      let (y, same) = update_quotas-Blind used items r x in
      let (z, written) = update_quotas-Blind used items (record r { world = p.1 }) x in
      elim (Bool-cases (env.deep_equal (ResourceQuotaStatus Q) quota.status status)) [
        | inl equal ↦ (y, rw (equal, update_quotas) same)
        | inr differs ↦ elim (Result-cases p.0) [
          | inl (o, e) ↦ (z, rw (differs, e, update_quotas) written)
          | inr bad ↦ (x, ground arith)
        ]
      ]

  pub update_namespace_quota_status-Blind :
      (flag : Bool) → Blind (update_namespace_quota_status env flag)
  unfolding update_namespace_quota_status
  update_namespace_quota_status-Blind flag r x =
      let after = (update_namespace_quota_status env flag r).1.namespace_used_quota in
      elim (Result-cases (
        calculate_namespace_used_quota env r.world (some r.s3_user_claim) r.s3_user_claim_namespace
          flag)) [
            | inl (used, e) ↦ (after, rw e refl)
            | inr bad ↦ elim bad [ inl (error, e) ↦ (after, rw e refl) | inr e ↦ (x, rw e refl) ]
          ]

  -- A chain of such steps.
  pub run_steps-Blind :
      (steps : List (Step (State Q W))) → All Blind steps → Blind (run_steps steps)
  unfolding run_steps
  run_steps-Blind [] h r x = (x, refl)
  run_steps-Blind (step ∷ steps) h r x =
      let (y, e) = h.0 r x in
      let (z, rest) = run_steps-Blind steps h.1 (step r).1 y in
      elim (Result-cases (step r).0) [
        | inr bad ↦ (y, ground arith)
        | inl (signal, p) ↦ elim (Signal-cases signal) [
          | inl continues ↦ (z, ground arith)
          | inr halts ↦ (y, ground arith)
        ]
      ]
