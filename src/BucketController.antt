-- ===== src/BucketController.antt =====
-- The controller of S3Buckets: internal/controllers/s3bucket (handler.go, provisioner.go and
-- cleaner.go).
pub mod Deletion
pub mod Provisioning
pub mod Keys
pub mod Rounds
pub mod Errors
pub mod Serve
pub mod Progress
use ceph_s3_operator.Prelude.{
  ℕ, Bool, true, false, not, Option, none, some, List, [], ◌∷◌, if◌then◌else◌,
}
use ceph_s3_operator.Prelude.Text.{Text, text, ◌==◌}
use ceph_s3_operator.Prelude.Assoc.{Assoc, lookup, insert}
use ceph_s3_operator.Go.{Error, Result, ok, err, panic, has_reason, aws_code, error_text, ◌>>=◌}
use ceph_s3_operator.Names.{NamespacedName, ceph_tenant, ceph_user_full_id}
use ceph_s3_operator.Consts.{
  data_key_access_key, data_key_secret_key, deletion_policy_retain, s3_bucket_cleanup_finalizer,
}
use ceph_s3_operator.Api.{S3Bucket, S3BucketStatus, S3BucketSpec, SubuserBinding, empty_meta}
use ceph_s3_operator.Env.{Env, AwsConfig}
use ceph_s3_operator.ClaimController.State.{Config}
use ceph_s3_operator.S3Agent.{
  S3Agent, new_s3_agent, agent_create_bucket, agent_delete_bucket, set_bucket_policy,
}
use ceph_s3_operator.Subreconciler.{
  Signal, Step, CtrlResult, continue_reconciling, requeue, done, handle, evaluate, run_steps,
}

-- Reconciler, with the world outside. `s3_bucket` is never nil: `Reconcile` allocates it first.
pub record State (W : Type 0) : Type 0 where
  pub world : W
  pub s3_agent : S3Agent
  pub s3_bucket : S3Bucket
  pub s3_user_ref : Text
  pub s3_bucket_name : Text
  pub rgw_endpoint : Text
  pub cluster_name : Text
  pub ceph_tenant : Text
  pub ceph_user_full_id : Text
  pub subuser_access_map : Assoc Text
  pub bucket_policy : Text

-- `&s3v1alpha1.S3Bucket{}`
abbrev pub empty_bucket : S3Bucket
empty_bucket = record {
  meta = empty_meta;
  spec = record { s3_user_ref = []; s3_deletion_policy = []; s3_subuser_binding = [] };
  status = record { created = false; reason = []; policy = [] };
}

-- NewReconciler, in a world. The code starts with a nil agent, which nothing reads before `Reconcile`
-- has set it; any agent stands for it here.
unfoldable pub new_reconciler : {W : Type 0} → S3Agent → Config → W → State W
new_reconciler agent cfg w = record {
  world = w;
  s3_agent = agent;
  s3_bucket = empty_bucket;
  s3_user_ref = [];
  s3_bucket_name = [];
  rgw_endpoint = cfg.rgw.endpoint;
  cluster_name = cfg.cluster_name;
  ceph_tenant = [];
  ceph_user_full_id = [];
  subuser_access_map = [];
  bucket_policy = [];
}

-- The loop over the bindings: of two for one name the later one counts.
unfoldable pub access_map : List SubuserBinding → Assoc Text → Assoc Text
access_map [] m = m
access_map (binding ∷ bindings) m = access_map bindings (insert binding.name binding.access m)

unfoldable pub init_vars : {W : Type 0} → NamespacedName → State W → State W
init_vars req r =
    let tenant = ceph_tenant r.cluster_name req.namespace in
    record r {
      ceph_tenant = tenant;
      ceph_user_full_id = ceph_user_full_id tenant r.s3_user_ref;
      subuser_access_map = access_map r.s3_bucket.spec.s3_subuser_binding [];
    }

abbrev pub in_world {ℓ} : {W : Type 0} {A : Type ℓ} → State W → A × W → A × State W
in_world r (a, w) = (a, record r { world = w })

-- A missing key of a map reads as the empty text.
abbrev pub value_or_empty : Option Text → Text
value_or_empty none = []
value_or_empty (some t) = t

module _ {Q W : Type 0} (env : Env Q W) where
  open env use {
    claims, secrets, buckets, not_found, no_such_bucket, retry_on_conflict, deep_equal,
    add_finalizer, remove_finalizer,
  }

  abbrev give_up : {A : Type 0} → A → Step (State W)
  give_up _ = done requeue

  -- The agent for the keys in the admin secret of the claim that the bucket refers to.
  unfoldable pub find_s3_agent : State W → NamespacedName → Result S3Agent
  find_s3_agent r req = do
    claim ← claims.get r.world (record { namespace = req.namespace; name = r.s3_user_ref })
    secret ←
        secrets.get r.world (record { namespace = req.namespace; name = claim.spec.admin_secret })
    new_s3_agent env (value_or_empty (lookup data_key_access_key secret.contents))
        (value_or_empty (lookup data_key_secret_key secret.contents)) r.rgw_endpoint true

  unfoldable pub update_bucket_status : Bool → Text → Text → Step (State W)
  update_bucket_status created reason policy r =
      let status : S3BucketStatus = record {
        created = created;
        reason = reason;
        policy = policy;
      } in
      let bucket = record (r.s3_bucket) { status = status } in
      if not (deep_equal S3BucketStatus r.s3_bucket.status status)
      then handle
          (in_world (record r { s3_bucket = bucket })
            (retry_on_conflict S3Bucket (buckets.update_status bucket) r.world))
          give_up (λ stored r. done continue_reconciling (record r { s3_bucket = stored }))
      else done continue_reconciling r

  unfoldable pub ensure_bucket : Step (State W)
  ensure_bucket r =
      handle (in_world r (agent_create_bucket env r.s3_agent r.s3_bucket.meta.name r.world)) give_up
        (λ _. done continue_reconciling)

  -- A step whose result the caller drops, before it asks for a new round; a panic is not dropped.
  abbrev then_requeue : Result Signal × State W → Result Signal × State W
  then_requeue (ok _, r) = done requeue r
  then_requeue (err _, r) = done requeue r
  then_requeue (panic, r) = (panic, r)

  unfoldable pub ensure_bucket_policy : Step (State W)
  ensure_bucket_policy r =
      handle
        (in_world r (
          set_bucket_policy env r.s3_agent r.subuser_access_map r.ceph_tenant r.s3_user_ref
            r.s3_bucket_name r.world))
        (λ e r.
          then_requeue
            (update_bucket_status true (error_text e) [] (record r { bucket_policy = [] })))
        (λ policy r. done continue_reconciling (record r { bucket_policy = policy }))

  unfoldable pub update_bucket_status_success : Step (State W)
  update_bucket_status_success r = update_bucket_status true [] r.bucket_policy r

  unfoldable pub write_finalizers : State W → S3Bucket → Bool → Result Signal × State W
  write_finalizers r bucket obj_updated =
      let r' = record r { s3_bucket = bucket } in
      if obj_updated
      then handle (in_world r' (buckets.update bucket r'.world)) give_up
          (λ stored r. done continue_reconciling (record r { s3_bucket = stored }))
      else done continue_reconciling r'

  unfoldable pub add_cleanup_finalizer : Step (State W)
  add_cleanup_finalizer r =
      let (meta, obj_updated) = add_finalizer s3_bucket_cleanup_finalizer r.s3_bucket.meta in
      write_finalizers r (record (r.s3_bucket) { meta = meta }) obj_updated

  unfoldable pub remove_cleanup_finalizer : Step (State W)
  remove_cleanup_finalizer r =
      let (meta, obj_updated) = remove_finalizer s3_bucket_cleanup_finalizer r.s3_bucket.meta in
      write_finalizers r (record (r.s3_bucket) { meta = meta }) obj_updated

  abbrev is_no_such_bucket : Option Text → Bool
  is_no_such_bucket none = false
  is_no_such_bucket (some code) = code == no_such_bucket

  unfoldable pub remove_or_retain_bucket : Step (State W)
  remove_or_retain_bucket r =
      if r.s3_bucket.spec.s3_deletion_policy == deletion_policy_retain
      then done continue_reconciling r
      else handle (in_world r (agent_delete_bucket env r.s3_agent r.s3_bucket_name r.world))
          (λ e r.
            if is_no_such_bucket (aws_code e)
            then done continue_reconciling r
            else then_requeue (update_bucket_status true (error_text e) (text "unknown") r))
          (λ _. done continue_reconciling)

  abbrev pub provision_steps : List (Step (State W))
  provision_steps =
      ensure_bucket ∷ ensure_bucket_policy ∷ update_bucket_status_success ∷ add_cleanup_finalizer
      ∷ []

  abbrev pub cleanup_steps : List (Step (State W))
  cleanup_steps = remove_or_retain_bucket ∷ remove_cleanup_finalizer ∷ []

  unfoldable pub provision : State W → Result CtrlResult × State W
  provision = run_steps provision_steps

  unfoldable pub cleanup : State W → Result CtrlResult × State W
  cleanup = run_steps cleanup_steps

  unfoldable pub reconcile : NamespacedName → State W → Result CtrlResult × State W
  reconcile req r =
      let r0 = record r { s3_bucket = empty_bucket; s3_bucket_name = req.name } in
      handle (buckets.get r0.world req, r0)
        (λ e r. if has_reason not_found e then (evaluate false, r) else (evaluate true, r))
        (λ bucket r.
          let r1 = record r { s3_bucket = bucket; s3_user_ref = bucket.spec.s3_user_ref } in
          handle (find_s3_agent r1 req, r1) (λ e r. (evaluate true, r))
            (λ agent r.
              let r2 = init_vars req (record r { s3_agent = agent }) in
              if bucket.meta.deleting then cleanup r2 else provision r2))
