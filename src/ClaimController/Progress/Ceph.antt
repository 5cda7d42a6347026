-- ===== src/ClaimController/Progress/Ceph.antt =====
-- The first four steps of `Provision` in internal/controllers/s3userclaim/provisioner.go, which
-- work on Ceph, where it answers.
use ceph_s3_operator.Prelude.{
  ◌≡◌, inl, inr, refl, ℕ, Bool, true, not, some, ◌==◌ as eqb, arith, Bool-cases,
}
use ceph_s3_operator.Prelude.Text.{Text, ◌==◌}
use ceph_s3_operator.Prelude.Assoc.{Assoc}
use ceph_s3_operator.Go.{ok}
use ceph_s3_operator.Consts.{subuser_tag_create}
use ceph_s3_operator.Api.{UserQuota, User, QuotaSpec}
use ceph_s3_operator.Api.{ObjectMeta, ResourceQuota}
use ceph_s3_operator.Prelude.{List}
use ceph_s3_operator.Env.{Env}
use ceph_s3_operator.Subreconciler.{continue_reconciling}
use ceph_s3_operator.ClaimController.State.{State}
use ceph_s3_operator.ClaimController.CephUser.{
  same_pointer, desired_user, keep_user, modify_or_create, ensure_ceph_user, desired_quota,
  same_bool, quota_differs, keep_quota, ensure_ceph_user_quota, retrieve_ceph_user,
  retrieve_subusers_string,
}
use ceph_s3_operator.ClaimController.Subusers.Sync.{SubuserLaws, Parses}
use ceph_s3_operator.ClaimController.Progress.{HasKey, IsAnswer, Working}

module _ {Q W : Type 0} (env : Env Q W) (laws : SubuserLaws env) (Up : ObjectMeta → W → Type 0)
    (Known : Text → ObjectMeta → W → Type 0) (Listed : List (ResourceQuota Q) → W → Type 0)
    (working : Working env laws Up Known Listed) where
  -- The reconciler after the first step.
  abbrev pub with_user : W → User → State Q W → State Q W
  with_user w v r = record r {
    world = w;
    ceph_user = v;
    desired_subusers_string_list = retrieve_subusers_string r.s3_user_claim.spec.subusers;
  }

  pub ensure_ceph_user_goes_on :
      (r : State Q W) (q : UserQuota Q)
      → r.s3_user_claim.spec.quota ≡ some q
      → Up r.s3_user_claim.meta r.world
      → (w : W) × (v : User) × (ensure_ceph_user env r ≡ (ok continue_reconciling, with_user w v r))
        × Known r.ceph_user_full_id r.s3_user_claim.meta w
        × IsAnswer env laws w r.ceph_user_full_id v
  unfolding ensure_ceph_user modify_or_create keep_user desired_user
  ensure_ceph_user_goes_on r q has_quota up =
      let desired = desired_user r q in
      elim (working.looks_up desired r.s3_user_claim.meta r.world up) [
        | inl (v, e, known, answer) ↦
            elim (Bool-cases (same_pointer v.max_buckets desired.max_buckets)) [
              | inl same ↦ (r.world, v, ground arith, known, answer)
              | inr differs ↦
                  let (v', e', known', answer') =
                    working.modifies desired r.s3_user_claim.meta r.world known in
                  ((env.modify_user desired r.world).1, v', ground arith, known', answer')
            ]
        | inr (x, e, nobody) ↦
            let (v', e', known', answer') =
              working.creates_user desired x r.s3_user_claim.meta r.world up e nobody in
            ((env.create_user desired r.world).1, v', ground arith, known', answer')
      ]

  pub retrieve_ceph_user_goes_on :
      (r : State Q W)
      → Known r.ceph_user_full_id r.s3_user_claim.meta r.world
      → (v : User) × (retrieve_ceph_user env r
          ≡ (ok continue_reconciling, record r { ceph_user = v }))
        × HasKey r.ceph_user_full_id v
        × ((n : Text) → laws.has_subuser r.world r.ceph_user_full_id n ≡ true → HasKey n v)
  unfolding retrieve_ceph_user
  retrieve_ceph_user_goes_on r known =
      let (v, e, key, keys) =
        working.retrieves r.ceph_user_full_id r.s3_user_claim.meta r.world known in
      (v, rw e refl, key, keys)

  quota_differs_total :
      (a b : QuotaSpec) {e e' : Bool} {size size' objects objects' : ℕ}
      → a.enabled ≡ some e
      → a.max_size ≡ some size
      → a.max_objects ≡ some objects
      → b.enabled ≡ some e'
      → b.max_size ≡ some size'
      → b.max_objects ≡ some objects'
      → (differs : Bool) × (quota_differs env a b ≡ ok differs)
  unfolding quota_differs
  quota_differs_total a b {e} {e'} {size} {size'} {objects} {objects'} h1 h2 h3 k1 k2 k3 =
      elim (Bool-cases (same_bool env e e')) [
        | inr other ↦ (true, ground arith)
        | inl equal ↦ elim (Bool-cases (eqb size size')) [
          | inr other ↦ (true, ground arith)
          | inl equal' ↦ (not (eqb objects objects'), ground arith)
        ]
      ]

  pub ensure_ceph_user_quota_goes_on :
      (r : State Q W) (q : UserQuota Q)
      → r.s3_user_claim.spec.quota ≡ some q
      → Known r.ceph_user_full_id r.s3_user_claim.meta r.world
      → (w : W) × (ensure_ceph_user_quota env r ≡ (
        ok continue_reconciling,
        record r {
          world = w;
          ceph_user = record (r.ceph_user) { user_quota = desired_quota env r q };
        },
      ))
        × Known r.ceph_user_full_id r.s3_user_claim.meta w
        × ((id n : Text) → laws.has_subuser w id n ≡ laws.has_subuser r.world id n)
  unfolding ensure_ceph_user_quota keep_quota desired_quota
  ensure_ceph_user_quota_goes_on r q has_quota known =
      let desired = desired_quota env r q in
      let (existing, enabled, size, objects, e, some_enabled, some_size, some_objects) =
        working.reads_quota desired r.s3_user_claim.meta r.world known in
      let (differs, compared) =
        quota_differs_total existing desired some_enabled some_size some_objects refl refl refl in
      elim (Bool-cases differs) [
        | inr same ↦ (r.world, ground arith, known, λ id n. refl)
        | inl new ↦
            let (unit, set, known') =
              working.sets_quota desired r.s3_user_claim.meta r.world known in
            (
              (env.set_user_quota desired r.world).1,
              ground arith,
              known',
              working.quota_keeps desired r.world,
            )
      ]

  -- The entry can be carried out: its name can be parsed, and the subuser is there exactly if it is
  -- to be removed.
  abbrev Ready : W → Text → Text → Text → Type 0
  Ready w id k t = Parses k × (laws.has_subuser w id k ≡ not (t == subuser_tag_create))
