-- ===== src/ClaimController/Progress/Objects.antt =====
-- The steps of `Provision` in internal/controllers/s3userclaim/provisioner.go that work on the S3User,
-- the claim and the resource quotas, where the API server answers.
use ceph_s3_operator.Prelude.{
  ◌≡◌, inl, inr, refl, Bool, true, false, some, List, [], ◌∷◌, All, arith, Bool-cases,
}
use ceph_s3_operator.Go.{ok}
use ceph_s3_operator.Consts.{s3_user_claim_cleanup_finalizer}
use ceph_s3_operator.Api.{
  UserQuota, S3UserClaim, S3UserClaimStatus, S3UserSpec, S3User, ResourceQuota, ResourceQuotaStatus,
  empty_meta,
}
use ceph_s3_operator.Api.{ObjectMeta, ResourceQuota}
use ceph_s3_operator.Prelude.{refl, ap, ◌∙◌, List, ◌≡◌}
use ceph_s3_operator.Go.{ok}
use mathlib.Core.Path.{subst}
use ceph_s3_operator.Env.{Env}
use ceph_s3_operator.Subreconciler.{continue_reconciling}
use ceph_s3_operator.ClaimController.State.{State}
use ceph_s3_operator.ClaimController.S3User.{assemble_s3_user, ensure_s3_user}
use ceph_s3_operator.ClaimController.Status.{
  wanted_status, update_s3_user_claim_status, assign_used_quota_to_resource_status, update_quotas,
  update_namespace_quota_status, write_finalizers, add_cleanup_finalizer,
}
use ceph_s3_operator.Quota.{
  add_quota, empty_quota, is_other_name, sum_claims, add_current, calculate_namespace_used_quota,
}
use ceph_s3_operator.ClaimController.Progress.{Counting, S3UserThere, Storing}

module _ {Q W : Type 0} (env : Env Q W) (Known : ObjectMeta → W → Type 0)
    (Listed : List (ResourceQuota Q) → W → Type 0) (objects : Storing env Known Listed) where
  assemble_s3_user_total :
      (r : State Q W) (q : UserQuota Q)
      → r.s3_user_claim.spec.quota ≡ some q
      → (user : S3User Q) × (assemble_s3_user env r ≡ ok user) × (user.meta.name ≡ r.s3_user_name)
  unfolding assemble_s3_user
  assemble_s3_user_total r q has_quota =
      let (ref, e) = objects.refers r.s3_user_claim.meta in
      (
        record {
          meta = record empty_meta { name = r.s3_user_name };
          spec = record { s3_user_class = r.s3_user_class; quota = some q; claim_ref = some ref };
        },
        ground arith,
        refl,
      )

  pub ensure_s3_user_goes_on :
      (r : State Q W) (q : UserQuota Q)
      → r.s3_user_claim.spec.quota ≡ some q
      → Known r.s3_user_claim.meta r.world
      → (w : W) × (ensure_s3_user env r ≡ (ok continue_reconciling, record r { world = w }))
        × Known r.s3_user_claim.meta w
        × S3UserThere env r.s3_user_name w
  unfolding ensure_s3_user
  ensure_s3_user_goes_on r q has_quota known =
      let (user, made, named) = assemble_s3_user_total r q has_quota in
      elim (objects.gets_user r.s3_user_name r.s3_user_claim.meta r.world known) [
        | inr (x, e, absent) ↦
            let ((stored, e', known'), there) =
              objects.creates user x r.s3_user_claim.meta r.world known
                (ap (env.users.get r.world) named ∙ e) absent in
            (
              (env.users.create user r.world).1,
              ground arith,
              known',
              subst (λ n. S3UserThere env n (env.users.create user r.world).1) named there,
            )
        | inl (existing, e) ↦
            elim (Bool-cases (env.deep_equal (S3UserSpec Q) user.spec existing.spec)) [
              | inl same ↦ (r.world, ground arith, known, (existing, e))
              | inr differs ↦
                  let new = record existing { spec = user.spec } in
                  let ((stored, e', known'), there) =
                    objects.updates r.s3_user_name existing new r.s3_user_claim.meta r.world known e
                      refl in
                  ((env.users.update new r.world).1, ground arith, known', there)
            ]
      ]

  pub update_s3_user_claim_status_goes_on :
      (r : State Q W)
      → Known r.s3_user_claim.meta r.world
      → (w : W) × (c : S3UserClaim Q) × (update_s3_user_claim_status env r
          ≡ (ok continue_reconciling, record r { world = w; s3_user_claim = c }))
        × Known c.meta w
        × (c.spec.quota ≡ r.s3_user_claim.spec.quota)
  unfolding update_s3_user_claim_status
  update_s3_user_claim_status_goes_on r known =
      let claim = record (r.s3_user_claim) { status = wanted_status env r } in
      elim (Bool-cases
        (env.deep_equal (S3UserClaimStatus Q) r.s3_user_claim.status (wanted_status env r))) [
          | inl same ↦ (r.world, r.s3_user_claim, ground arith, known, refl)
          | inr differs ↦
              let (stored, e, kept, known') = objects.stores_status claim r.world known in
              let once =
                objects.counting.not_again _ (env.claims.update_status claim) r.world stored e in
              (
                (env.claims.update_status claim r.world).1,
                stored,
                ground (arith, once),
                known',
                kept,
              )
        ]

module _ {Q W : Type 0} (env : Env Q W) (Known : ObjectMeta → W → Type 0)
    (Listed : List (ResourceQuota Q) → W → Type 0) (counting : Counting env Known Listed) where
  update_quotas_goes_on :
      (used : UserQuota Q) (items : List (ResourceQuota Q)) (r : State Q W)
      → Listed items r.world
      → Known r.s3_user_claim.meta r.world
      → (w : W) × (update_quotas env used items r
          ≡ (ok continue_reconciling, record r { world = w }))
        × Known r.s3_user_claim.meta w
  unfolding update_quotas
  update_quotas_goes_on used [] r current known = (r.world, refl, known)
  update_quotas_goes_on used (quota ∷ items) r current known =
      let status = assign_used_quota_to_resource_status env quota.status used in
      let new = record quota { status = status } in
      elim (Bool-cases (env.deep_equal (ResourceQuotaStatus Q) quota.status status)) [
        | inl same ↦
            let (w, rest, known') =
              update_quotas_goes_on used items r (counting.skips quota items r.world current)
                known in
            (w, rw (update_quotas, same) rest, known')
        | inr differs ↦
            let ((stored, e, known'), current') =
              counting.stores_used quota items status r.s3_user_claim.meta r.world known current in
            let once =
              counting.not_again _ (env.resource_quotas.update_status new) r.world stored e in
            let (w, rest, known2) =
              update_quotas_goes_on used items
                (record r { world = (env.resource_quotas.update_status new r.world).1 }) current'
                known' in
            (w, ground (arith, differs, once, e, rest), known2)
      ]

  sums :
      (counted : S3UserClaim Q → Bool) (base : UserQuota Q) (items : List (S3UserClaim Q))
      → All (λ c. (q : UserQuota Q) × (c.spec.quota ≡ some q)) items
      → (total : UserQuota Q) × (sum_claims env.quantities counted base items ≡ ok total)
  unfolding sum_claims
  sums counted base [] h = (base, refl)
  sums counted base (c ∷ items) h = elim (Bool-cases (counted c)) [
    | inl other ↦
        let (total, e) = sums counted (add_quota env.quantities base h.0.0) items h.1 in
        (total, rw (sum_claims, other, h.0.1) e)
    | inr own ↦ let (total, e) = sums counted base items h.1 in (total, rw (sum_claims, own) e)
  ]

  adds :
      (flag : Bool) (c : S3UserClaim Q) (q total : UserQuota Q)
      → c.spec.quota ≡ some q
      → (used : UserQuota Q) × (add_current env.quantities flag c total ≡ ok used)
  unfolding add_current
  adds true c q total h = (add_quota env.quantities total q, rw h refl)
  adds false c q total h = (total, refl)

  used_total :
      (flag : Bool) (r : State Q W) (q : UserQuota Q)
      → r.s3_user_claim.spec.quota ≡ some q
      → Known r.s3_user_claim.meta r.world
      → (used : UserQuota Q) × (calculate_namespace_used_quota env r.world
            (some r.s3_user_claim)
            r.s3_user_claim_namespace
            flag
          ≡ ok used)
  unfolding calculate_namespace_used_quota
  used_total flag r q has_quota known =
      let (items, listed, quotas) =
        counting.lists_claims r.s3_user_claim_namespace r.s3_user_claim.meta r.world known in
      let (base, summed) =
        sums (is_other_name env r.s3_user_claim) (empty_quota env.quantities) items quotas in
      let (total, added) = adds flag r.s3_user_claim q base has_quota in
      (total, rw (listed, summed) added)

  pub update_namespace_quota_status_goes_on :
      (flag : Bool) (r : State Q W) (q : UserQuota Q)
      → r.s3_user_claim.spec.quota ≡ some q
      → Known r.s3_user_claim.meta r.world
      → (w : W) × (used : UserQuota Q) × (update_namespace_quota_status env flag r
          ≡ (ok continue_reconciling, record r { world = w; namespace_used_quota = some used }))
        × Known r.s3_user_claim.meta w
  unfolding update_namespace_quota_status
  update_namespace_quota_status_goes_on flag r q has_quota known =
      let (used, e) = used_total flag r q has_quota known in
      let (items, listed, current) =
        counting.lists_quotas r.s3_user_claim_namespace r.s3_user_claim.meta r.world known in
      let (w, ran, known') =
        update_quotas_goes_on used items (record r { namespace_used_quota = some used }) current
          known in
      (w, used, rw (update_namespace_quota_status, e, listed) ran, known')

  pub add_cleanup_finalizer_goes_on :
      (r : State Q W)
      → Known r.s3_user_claim.meta r.world
      → (w : W) × (c : S3UserClaim Q) × (add_cleanup_finalizer env r
          ≡ (ok continue_reconciling, record r { world = w; s3_user_claim = c }))
        × Known c.meta w
  unfolding add_cleanup_finalizer write_finalizers
  add_cleanup_finalizer_goes_on r known =
      let (meta, updated) =
        env.add_finalizer s3_user_claim_cleanup_finalizer r.s3_user_claim.meta in
      let claim = record (r.s3_user_claim) { meta = meta } in
      let known2 =
        counting.adds_finalizer s3_user_claim_cleanup_finalizer r.s3_user_claim.meta r.world
          known in
      elim (Bool-cases updated) [
        | inl new ↦
            let (stored, e, known') = counting.stores claim r.world known2 in
            ((env.claims.update claim r.world).1, stored, ground arith, known')
        | inr old ↦ (r.world, claim, ground arith, known2)
      ]
