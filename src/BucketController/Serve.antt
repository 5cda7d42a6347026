-- ===== src/BucketController/Serve.antt =====
-- `Reconcile` of internal/controllers/s3bucket/handler.go, called on one reconciler again and
-- again: by the queue of the manager, for requests in any order.
use ceph_s3_operator.Prelude.{◌≡◌, refl, List, ap, ◌∙◌, arith, true, false}
use ceph_s3_operator.Prelude.Text.{Text}
use ceph_s3_operator.Go.{Result, ok, err, panic, has_reason}
use ceph_s3_operator.Names.{NamespacedName}
use ceph_s3_operator.Api.{S3Bucket}
use ceph_s3_operator.Env.{Env}
use ceph_s3_operator.Subreconciler.{CtrlResult, evaluate}
use ceph_s3_operator.Subreconciler.Keeps.{Keeps, run_steps-Keeps, if_keeps}
use ceph_s3_operator.Subreconciler.Serve as Queue
use ceph_s3_operator.Subreconciler.Serve.{Call, serve-respond_lem}
use ceph_s3_operator.S3Agent.{S3Agent}
use ceph_s3_operator.ClaimController.State.{Config}
use ceph_s3_operator.BucketController.{
  State, empty_bucket, new_reconciler, init_vars, find_s3_agent, ensure_bucket,
  ensure_bucket_policy, update_bucket_status, update_bucket_status_success, write_finalizers,
  add_cleanup_finalizer, remove_cleanup_finalizer, remove_or_retain_bucket, provision_steps,
  cleanup_steps, provision, cleanup, reconcile,
}
use ceph_s3_operator.BucketController.Rounds.{
  with_agent, with_bucket, bucket_reconcile-new_reconciler,
}

module _ {Q W : Type 0} (env : Env Q W) where
  -- What `NewReconciler` has set from the configuration.
  abbrev settings : State W → Text × Text
  settings r = (r.rgw_endpoint, r.cluster_name)

  ensure_bucket-Keeps : Keeps settings (ensure_bucket env)
  unfolding ensure_bucket
  ensure_bucket-Keeps r = ground arith

  ensure_bucket_policy-Keeps : Keeps settings (ensure_bucket_policy env)
  unfolding ensure_bucket_policy update_bucket_status
  ensure_bucket_policy-Keeps r = ground arith

  update_bucket_status_success-Keeps : Keeps settings (update_bucket_status_success env)
  unfolding update_bucket_status_success update_bucket_status
  update_bucket_status_success-Keeps r = ground arith

  add_cleanup_finalizer-Keeps : Keeps settings (add_cleanup_finalizer env)
  unfolding add_cleanup_finalizer write_finalizers
  add_cleanup_finalizer-Keeps r = ground arith

  remove_or_retain_bucket-Keeps : Keeps settings (remove_or_retain_bucket env)
  unfolding remove_or_retain_bucket update_bucket_status
  remove_or_retain_bucket-Keeps r = ground arith

  remove_cleanup_finalizer-Keeps : Keeps settings (remove_cleanup_finalizer env)
  unfolding remove_cleanup_finalizer write_finalizers
  remove_cleanup_finalizer-Keeps r = ground arith

  provision_keeps : (r : State W) → settings (provision env r).1 ≡ settings r
  unfolding provision
  provision_keeps r = run_steps-Keeps settings (provision_steps env) r (
    ensure_bucket-Keeps,
    (
      ensure_bucket_policy-Keeps,
      (update_bucket_status_success-Keeps, (add_cleanup_finalizer-Keeps, tt)),
    ),
  )

  cleanup_keeps : (r : State W) → settings (cleanup env r).1 ≡ settings r
  unfolding cleanup
  cleanup_keeps r =
      run_steps-Keeps settings (cleanup_steps env) r
        (remove_or_retain_bucket-Keeps, (remove_cleanup_finalizer-Keeps, tt))

  with_agent_keeps :
      (found : Result S3Agent) (bucket : S3Bucket) (req : NamespacedName) (s : State W)
      → settings (with_agent env found bucket req s).1 ≡ settings s
  unfolding init_vars
  with_agent_keeps (ok agent) bucket req s =
      let r2 = init_vars req (record s { s3_agent = agent }) in
      if_keeps settings bucket.meta.deleting (cleanup env r2) (provision env r2) s
        (cleanup_keeps r2) (provision_keeps r2)
  with_agent_keeps (err x) bucket req s = refl
  with_agent_keeps panic bucket req s = refl

  with_bucket_keeps :
      (got : Result S3Bucket) (req : NamespacedName) (s : State W)
      → settings (with_bucket env got req s).1 ≡ settings s
  with_bucket_keeps (ok bucket) req s =
      let r1 = record s { s3_bucket = bucket; s3_user_ref = bucket.spec.s3_user_ref } in
      with_agent_keeps (find_s3_agent env r1 req) bucket req r1
  with_bucket_keeps (err x) req s =
      if_keeps settings (has_reason env.not_found x) (evaluate false, s) (evaluate true, s) s refl
        refl
  with_bucket_keeps panic req s = refl

  reconcile_keeps :
      (req : NamespacedName) (r : State W) → settings (reconcile env req r).1 ≡ settings r
  unfolding reconcile
  reconcile_keeps req r =
      with_bucket_keeps (env.buckets.get r.world req) req
        (record r { s3_bucket = empty_bucket; s3_bucket_name = req.name })

  abbrev world_of : State W → W
  world_of r = r.world

  abbrev enter : W → State W → State W
  enter w r = record r { world = w }

  -- One reconciler for all calls.
  abbrev pub serve : S3Agent → Config → List (Call W) → State W → List (Result CtrlResult) × W
  serve agent cfg = Queue.serve (reconcile env) world_of enter (new_reconciler agent cfg)

  -- A new one for each.
  abbrev pub respond : S3Agent → Config → List (Call W) → W → List (Result CtrlResult) × W
  respond agent cfg = Queue.respond (reconcile env) world_of enter (new_reconciler agent cfg)

  -- However many requests for buckets one reconciler serves, and whatever others do to the world
  -- between them: the results and the world left are those of a controller that keeps nothing
  -- between the rounds, where the reconciler starts with the endpoint and the cluster's name of the
  -- configuration.
  pub bucket_serve-respond :
      (agent : S3Agent) (cfg : Config) (calls : List (Call W)) (r : State W)
      → r.rgw_endpoint ≡ cfg.rgw.endpoint
      → r.cluster_name ≡ cfg.cluster_name
      → serve agent cfg calls r ≡ respond agent cfg calls r.world
  bucket_serve-respond agent cfg calls r endpoint cluster =
      serve-respond_lem (reconcile env) world_of enter (new_reconciler agent cfg)
        (λ s. settings s ≡ (cfg.rgw.endpoint, cfg.cluster_name)) (λ w s set. (set, refl))
        (λ req s set.
          let (same, there) =
            bucket_reconcile-new_reconciler env agent cfg s req (ap (λ (p : Text × Text). p.0) set)
              (ap (λ (p : Text × Text). p.1) set) in
          (reconcile_keeps req s ∙ set, same, there))
        calls r (λ i. (endpoint i, cluster i))
