-- ===== src/ClaimController/Progress/Cleanup.antt =====
-- A round for a claim that is being deleted: `Cleanup` of internal/controllers/s3userclaim/cleaner.go,
-- where Ceph and the API server answer.
use ceph_s3_operator.Prelude.{
  ◌≡◌, ◌⊎◌, inl, inr, refl, ap, ◌∙◌, true, false, Bool-cases, some, arith, if◌then◌else◌,
}
use ceph_s3_operator.Prelude.Text.{Text}
use ceph_s3_operator.Go.{Error, ok, err, wraps_rgw}
use ceph_s3_operator.Names.{NamespacedName}
use ceph_s3_operator.Consts.{s3_user_claim_cleanup_finalizer}
use ceph_s3_operator.Api.{UserQuota, S3UserClaim, empty_claim, user_with_id}
use ceph_s3_operator.Api.{ObjectMeta, ResourceQuota}
use ceph_s3_operator.Go.{has_reason}
use ceph_s3_operator.Names.{ceph_tenant, ceph_user_full_id, s3_user_name}
use ceph_s3_operator.Prelude.{List}
use ceph_s3_operator.Env.{Env}
use ceph_s3_operator.Subreconciler.{continue_reconciling, evaluate}
use ceph_s3_operator.ClaimController.State.{State, init_vars}
use ceph_s3_operator.ClaimController.CephUser.{remove_ceph_user}
use ceph_s3_operator.ClaimController.S3User.{remove_s3_user}
use ceph_s3_operator.ClaimController.Status.{
  update_namespace_quota_status_exclusive, write_finalizers, remove_cleanup_finalizer,
}
use ceph_s3_operator.ClaimController.Flow.{provision, cleanup, reconcile}
use ceph_s3_operator.ClaimController.Steps.{cleanup_iff, with_claim}
use ceph_s3_operator.ClaimController.Progress.{Looked, Counting}
use ceph_s3_operator.ClaimController.Progress.Objects.{update_namespace_quota_status_goes_on}

module _ {Q W : Type 0} (env : Env Q W) where
  -- The claim as it is written in the end, without the finalizer.
  abbrev pub released : S3UserClaim Q → S3UserClaim Q
  released claim = record claim {
    meta = (env.remove_finalizer s3_user_claim_cleanup_finalizer claim.meta).0;
  }

  -- The claim has been written without the finalizer as the last thing, if it had it.
  abbrev pub IsReleased : S3UserClaim Q → State Q W → Type 0
  IsReleased claim r' =
      (env.remove_finalizer s3_user_claim_cleanup_finalizer claim.meta).1 ≡ true
      → (w : W) × (env.claims.update (released claim) w ≡ (ok r'.s3_user_claim, r'.world))

module _ {Q W : Type 0} (env : Env Q W) (Known : ObjectMeta → W → Type 0)
    (Listed : List (ResourceQuota Q) → W → Type 0) where
  -- GetUser answers that there is no user of this id.
  abbrev pub NoUser : Text → W → Type 0
  NoUser id w =
      (e : Error) × (env.get_user w (user_with_id id) ≡ err e)
      × (wraps_rgw env.no_such_user e ≡ true)

  abbrev pub NoS3User : Text → W → Type 0
  NoS3User name w =
      (e : Error) × (env.users.get w name ≡ err e) × (has_reason env.not_found e ≡ true)

  -- Ceph and the API server answer. A user is removed with its data, or is not there; so for an
  -- S3User. Neither is there again after a write of the claim or of a resource quota.
  pub record Removing : Type 1 where
    pub removes :
        (id : Text) (m : ObjectMeta) (w : W)
        → Known m w
        → (((env.remove_user (record (user_with_id id) { purge_data = some 1 }) w).0 ≡ ok tt)
            ⊎ ((e : Error) × ((env.remove_user
                    (record (user_with_id id) { purge_data = some 1 })
                    w).0
                  ≡ err e)
                × (wraps_rgw env.no_such_user e ≡ true)))
          × Known m (env.remove_user (record (user_with_id id) { purge_data = some 1 }) w).1
          × NoUser id (env.remove_user (record (user_with_id id) { purge_data = some 1 }) w).1
    pub deletes :
        (id name : Text) (m : ObjectMeta) (w : W)
        → Known m w
        → NoUser id w
        → Looked env (env.users.delete name w).0
          × Known m (env.users.delete name w).1
          × NoUser id (env.users.delete name w).1
          × NoS3User name (env.users.delete name w).1
    pub counting :
        (id name : Text) → Counting env (λ m w. Known m w × NoUser id w × NoS3User name w) Listed

  module _ (removing : Removing) where
    remove_ceph_user_goes_on :
        (r : State Q W)
        → Known r.s3_user_claim.meta r.world
        → (w : W) × (remove_ceph_user env r ≡ (ok continue_reconciling, record r { world = w }))
          × Known r.s3_user_claim.meta w
          × NoUser r.ceph_user_full_id w
    unfolding remove_ceph_user
    remove_ceph_user_goes_on r known =
        let (answer, known', no_user) =
          removing.removes r.ceph_user_full_id r.s3_user_claim.meta r.world known in
        let user = record (user_with_id r.ceph_user_full_id) { purge_data = some 1 } in
        (
          (env.remove_user user r.world).1,
          elim answer [ inl e ↦ ground arith | inr (x, e, gone) ↦ ground arith ],
          known',
          no_user,
        )

    remove_s3_user_goes_on :
        (r : State Q W)
        → Known r.s3_user_claim.meta r.world
        → NoUser r.ceph_user_full_id r.world
        → (w : W) × (remove_s3_user env r ≡ (ok continue_reconciling, record r { world = w }))
          × Known r.s3_user_claim.meta w
          × NoUser r.ceph_user_full_id w
          × NoS3User r.s3_user_name w
    unfolding remove_s3_user
    remove_s3_user_goes_on r known no_user =
        let (answer, known', no_user', no_s3_user) =
          removing.deletes r.ceph_user_full_id r.s3_user_name r.s3_user_claim.meta r.world known
            no_user in
        (
          (env.users.delete r.s3_user_name r.world).1,
          elim answer [ inl (a, e) ↦ ground arith | inr (x, e, gone) ↦ ground arith ],
          known',
          no_user',
          no_s3_user,
        )

    -- The user and the S3User are gone.
    abbrev pub Removed : Text → Text → ObjectMeta → W → Type 0
    Removed id name m w = Known m w × NoUser id w × NoS3User name w

    remove_cleanup_finalizer_goes_on :
        (id name : Text) (r : State Q W)
        → Removed id name r.s3_user_claim.meta r.world
        → (r' : State Q W) × (remove_cleanup_finalizer env r ≡ (ok continue_reconciling, r'))
          × Removed id name r'.s3_user_claim.meta r'.world
          × IsReleased env r.s3_user_claim r'
    unfolding remove_cleanup_finalizer write_finalizers
    remove_cleanup_finalizer_goes_on id name r removed =
        let claim = released env r.s3_user_claim in
        let counting = removing.counting id name in
        let removed2 =
          counting.removes_finalizer s3_user_claim_cleanup_finalizer r.s3_user_claim.meta r.world
            removed in
        elim (Bool-cases
          (env.remove_finalizer s3_user_claim_cleanup_finalizer r.s3_user_claim.meta).1) [
            | inl changed ↦
                let (stored, e, removed') = counting.stores claim r.world removed2 in
                let w = (env.claims.update claim r.world).1 in
                (
                  record r { world = w; s3_user_claim = stored },
                  ground arith,
                  removed',
                  λ _. (r.world, λ i. (e i, w)),
                )
            | inr kept ↦
                (record r { s3_user_claim = claim }, ground arith, removed2, λ h. ground arith)
          ]

    cleanup_goes_through :
        (r : State Q W) (q : UserQuota Q)
        → r.s3_user_claim.spec.quota ≡ some q
        → Known r.s3_user_claim.meta r.world
        → (r' : State Q W) × (cleanup env r ≡ (evaluate false, r'))
          × Removed r.ceph_user_full_id r.s3_user_name r'.s3_user_claim.meta r'.world
          × IsReleased env r.s3_user_claim r'
    unfolding update_namespace_quota_status_exclusive
    cleanup_goes_through r q has_quota known =
        let id = r.ceph_user_full_id in
        let name = r.s3_user_name in
        let (w1, user_gone, known1, no_user) = remove_ceph_user_goes_on r known in
        let r1 = record r { world = w1 } in
        let (w2, s3_user_gone, known2, no_user2, no_s3_user) =
          remove_s3_user_goes_on r1 known1 no_user in
        let r2 = record r1 { world = w2 } in
        let (w3, used, counted, removed3) =
          update_namespace_quota_status_goes_on env (Removed id name) Listed
            (removing.counting id name) false r2 q has_quota (known2, no_user2, no_s3_user) in
        let r3 = record r2 { world = w3; namespace_used_quota = some used } in
        let (r', last, removed', is_released) =
          remove_cleanup_finalizer_goes_on id name r3 removed3 in
        (
          r',
          (cleanup_iff env r r').1
              (r1, user_gone, (r2, s3_user_gone, (r3, counted, (r', last, refl)))),
          removed',
          is_released,
        )

    -- Where Ceph and the API server answer from the world at hand on: a round for a claim with a
    -- quota that is found and is being deleted, whatever the rounds before have left in the
    -- reconciler, ends without a request for another. In the world that it leaves, Ceph has no user
    -- of the claim's full id, and there is no S3User of its name; if the claim has the finalizer,
    -- the last call of the round has written it without.
    pub cleanup_round_goes_through :
        (req : NamespacedName) (r : State Q W) {claim : S3UserClaim Q} {q : UserQuota Q}
        → env.claims.get r.world req ≡ ok claim
        → claim.meta.deleting ≡ true
        → claim.spec.quota ≡ some q
        → Known claim.meta r.world
        → (r' : State Q W) × (reconcile env req r ≡ (evaluate false, r'))
          × NoUser (ceph_user_full_id (ceph_tenant r.cluster_name req.namespace) req.name) r'.world
          × NoS3User (s3_user_name req) r'.world
          × IsReleased env claim r'
    unfolding reconcile init_vars
    cleanup_round_goes_through req r {claim} {q} got deleting has_quota known =
        let r0 = init_vars req (record r { s3_user_claim = empty_claim }) in
        let r1 = record r0 { s3_user_claim = claim } in
        let (r', ran, (known', no_user, no_s3_user), is_released) =
          cleanup_goes_through r1 q has_quota known in
        (
          r',
          ap (λ g. with_claim env g r0) got
              ∙ (ap (λ d. if d then cleanup env r1 else provision env r1) deleting ∙ ran),
          no_user,
          no_s3_user,
          is_released,
        )
