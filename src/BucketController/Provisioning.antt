-- ===== src/BucketController/Provisioning.antt =====
-- `Provision` and `initVars` of internal/controllers/s3bucket: the names that both controllers
-- derive, the bindings, the creation of the bucket, and the chain of the steps.
use ceph_s3_operator.Prelude.{
  ◌≡◌, ◌↔◌, ◌⊎◌, inl, inr, refl, Option, none, some, List, [], ◌∷◌, arith, if◌then◌else◌,
  Option-cases, false, All,
}
use ceph_s3_operator.Prelude.Text.{Text, ◌==◌, eq_iff}
use ceph_s3_operator.Prelude.Assoc.{Assoc, lookup, insert, lookup-insert}
use ceph_s3_operator.Go.{Error, ok, err, aws_code, Result-cases}
use ceph_s3_operator.Names.{NamespacedName}
use ceph_s3_operator.Api.{SubuserBinding}
use ceph_s3_operator.Env.{Env}
use ceph_s3_operator.S3Agent.{agent_create_bucket, create_error}
use ceph_s3_operator.Subreconciler.{continue_reconciling}
use ceph_s3_operator.ClaimController.State as ClaimState
use ceph_s3_operator.Subreconciler.{evaluate}
use ceph_s3_operator.Subreconciler.Chain.{Retries, All-Retries-NeverDone, Ran, run_steps_iff}
use ceph_s3_operator.BucketController.{
  State, access_map, init_vars, ensure_bucket, ensure_bucket_policy, update_bucket_status,
  update_bucket_status_success, write_finalizers, add_cleanup_finalizer, provision_steps, provision,
}

-- Both controllers give the same full user id and the same tenant for a claim and a bucket of one
-- namespace that refers to it, where they have the same name of the cluster.
pub full_ids_agree :
    {Q W V : Type 0} (r : ClaimState.State Q W) (b : State V) (claim bucket : NamespacedName)
    → r.cluster_name ≡ b.cluster_name
    → claim.namespace ≡ bucket.namespace
    → b.s3_user_ref ≡ claim.name
    → ((ClaimState.init_vars claim r).ceph_user_full_id ≡ (init_vars bucket b).ceph_user_full_id)
      × ((ClaimState.init_vars claim r).ceph_tenant ≡ (init_vars bucket b).ceph_tenant)
unfolding init_vars ClaimState.init_vars
full_ids_agree r b claim bucket cluster namespace user = (cc, cc)

-- The access of the last binding of a subuser.
unfoldable pub last_access : Text → List SubuserBinding → Option Text
last_access n [] = none
last_access n (binding ∷ bindings) = elim (last_access n bindings) [
  | some access ↦ some access
  | none ↦ if binding.name == n then some binding.access else none
]

lookup-access_map_onto :
    (n : Text) (bindings : List SubuserBinding) (m : Assoc Text)
    → lookup n (access_map bindings m)
      ≡ (elim (last_access n bindings) [ some access ↦ some access | none ↦ lookup n m ])
unfolding access_map last_access
lookup-access_map_onto n [] m = refl
lookup-access_map_onto n (binding ∷ bindings) m = ground (
  arith,
  lookup-access_map_onto n bindings (insert binding.name binding.access m),
  lookup-insert binding.name n binding.access m,
)

-- The map of accesses holds for each subuser the access of its last binding, and nothing else.
pub lookup-access_map :
    (n : Text) (bindings : List SubuserBinding)
    → lookup n (access_map bindings []) ≡ last_access n bindings
unfolding lookup
lookup-access_map n bindings = ground (arith, lookup-access_map_onto n bindings [])

module _ {Q W : Type 0} (env : Env Q W) where
  -- The step goes on exactly if S3 has created the bucket, or answers that it is there.
  pub ensure_bucket_iff :
      (r : State W)
      → ((ensure_bucket env r).0 ≡ ok continue_reconciling) ↔ (
          ((env.create_bucket r.s3_agent.client r.s3_bucket.meta.name r.world).0 ≡ ok tt)
          ⊎ ((e : Error) × ((env.create_bucket r.s3_agent.client r.s3_bucket.meta.name r.world).0
                ≡ err e)
              × ((aws_code e ≡ some env.bucket_already_exists)
                  ⊎ (aws_code e ≡ some env.bucket_already_owned_by_you))))
  unfolding ensure_bucket agent_create_bucket create_error
  ensure_bucket_iff r =
      elim (Result-cases (env.create_bucket r.s3_agent.client r.s3_bucket.meta.name r.world).0) [
        | inl (u, e) ↦ (λ h. inl e, λ h. ground arith)
        | inr bad ↦ elim bad [
          | inr e ↦ (λ h. ground arith, λ h. ground arith)
          | inl (x, e) ↦ elim (Option-cases (aws_code x)) [
            | inl no_code ↦ (λ h. ground arith, λ h. ground arith)
            | inr (code, c) ↦
                let exists = eq_iff code env.bucket_already_exists in
                let owned = eq_iff code env.bucket_already_owned_by_you in
                (λ h. inr (x, e, ground (arith, exists, owned)), λ h. ground (arith, exists, owned))
          ]
        ]
      ]

  ensure_bucket-Retries : Retries (ensure_bucket env)
  unfolding ensure_bucket
  ensure_bucket-Retries r = ground arith

  ensure_bucket_policy-Retries : Retries (ensure_bucket_policy env)
  unfolding ensure_bucket_policy update_bucket_status
  ensure_bucket_policy-Retries r = ground arith

  update_bucket_status_success-Retries : Retries (update_bucket_status_success env)
  unfolding update_bucket_status_success update_bucket_status
  update_bucket_status_success-Retries r = ground arith

  add_cleanup_finalizer-Retries : Retries (add_cleanup_finalizer env)
  unfolding add_cleanup_finalizer write_finalizers
  add_cleanup_finalizer-Retries r = ground arith

  pub provision_steps-Retries : All Retries (provision_steps env)
  provision_steps-Retries = (
    ensure_bucket-Retries,
    (
      ensure_bucket_policy-Retries,
      (update_bucket_status_success-Retries, (add_cleanup_finalizer-Retries, tt)),
    ),
  )

  -- A round of provisioning a bucket ends without a request for another exactly if these four steps
  -- have gone through in this order, each on the state that the one before has left, and the last
  -- leaves the state of the round: the bucket, its policy, its status, the finalizer.
  pub provision-Ran :
      (r r' : State W)
      → (provision env r ≡ (evaluate false, r'))
        ↔ Ran
            (ensure_bucket env
              ∷ ensure_bucket_policy env
              ∷ update_bucket_status_success env
              ∷ add_cleanup_finalizer env
              ∷ [])
            r
            r'
  unfolding provision
  provision-Ran r r' =
      run_steps_iff (provision_steps env) r r'
        (All-Retries-NeverDone (provision_steps env) provision_steps-Retries)
