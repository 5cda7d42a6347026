-- ===== src/BucketController/Rounds.antt =====
-- `Reconcile` of internal/controllers/s3bucket/handler.go on a reconciler that has run before,
-- against a new one.
use ceph_s3_operator.Prelude.{◌≡◌, refl, true, false, List, [], ◌∷◌, arith, ap, sym, if◌then◌else◌}
use mathlib.Core.Path.{subst}
use ceph_s3_operator.Prelude.Text.{Text}
use ceph_s3_operator.Go.{Result, ok, err, panic, has_reason}
use ceph_s3_operator.Names.{NamespacedName}
use ceph_s3_operator.Api.{S3Bucket}
use ceph_s3_operator.Env.{Env}
use ceph_s3_operator.Subreconciler.{
  Step, CtrlResult, continue_reconciling, evaluate, run_steps, handle,
}
use ceph_s3_operator.Subreconciler.Agree as Same
use ceph_s3_operator.Subreconciler.Agree.{if_agrees, after_step_agrees}
use ceph_s3_operator.S3Agent.{S3Agent}
use ceph_s3_operator.ClaimController.State.{Config}
use ceph_s3_operator.BucketController.{
  State, empty_bucket, new_reconciler, init_vars, find_s3_agent, ensure_bucket,
  ensure_bucket_policy, update_bucket_status, update_bucket_status_success, write_finalizers,
  add_cleanup_finalizer, remove_cleanup_finalizer, remove_or_retain_bucket, provision, cleanup,
  reconcile,
}

module _ {W : Type 0} where
  abbrev with_policy : Text → State W → State W
  with_policy p r = record r { bucket_policy = p }

  abbrev world_of : State W → W
  world_of r = r.world

module _ {Q W : Type 0} (env : Env Q W) where
  abbrev Agree : {A : Type 0} → A × State W → A × State W → Type 0
  Agree p q = Same.Agree world_of p q

  ensure_bucket_ignores :
      (r : State W) (p : Text)
      → ensure_bucket env (with_policy p r)
        ≡ ((ensure_bucket env r).0, with_policy p (ensure_bucket env r).1)
  unfolding ensure_bucket
  ensure_bucket_ignores r p = ground arith

  ensure_bucket_policy_agrees :
      (r : State W) (p : Text)
      → Agree (ensure_bucket_policy env (with_policy p r)) (ensure_bucket_policy env r)
        × ((ensure_bucket_policy env r).0 ≡ ok continue_reconciling
            → (ensure_bucket_policy env (with_policy p r)).1 ≡ (ensure_bucket_policy env r).1)
  unfolding ensure_bucket_policy update_bucket_status
  ensure_bucket_policy_agrees r p = ground arith

  remove_or_retain_bucket_ignores :
      (r : State W) (p : Text)
      → remove_or_retain_bucket env (with_policy p r)
        ≡ ((remove_or_retain_bucket env r).0, with_policy p (remove_or_retain_bucket env r).1)
  unfolding remove_or_retain_bucket update_bucket_status
  remove_or_retain_bucket_ignores r p = ground arith

  remove_cleanup_finalizer_ignores :
      (r : State W) (p : Text)
      → remove_cleanup_finalizer env (with_policy p r)
        ≡ ((remove_cleanup_finalizer env r).0, with_policy p (remove_cleanup_finalizer env r).1)
  unfolding remove_cleanup_finalizer write_finalizers
  remove_cleanup_finalizer_ignores r p = ground arith

  cleanup_agrees : (r : State W) (p : Text) → Agree (cleanup env (with_policy p r)) (cleanup env r)
  unfolding cleanup run_steps
  cleanup_agrees r p =
      let first = remove_or_retain_bucket_ignores r p in
      let m = (remove_or_retain_bucket env r).1 in
      after_step_agrees world_of (remove_or_retain_bucket env (with_policy p r))
        (remove_or_retain_bucket env r) (run_steps (remove_cleanup_finalizer env ∷ []))
        (ap (λ q. q.0) first, ap (λ q. q.1.world) first)
        (λ continues.
          let second = remove_cleanup_finalizer_ignores m p in
          subst
            (λ t.
              Agree (run_steps (remove_cleanup_finalizer env ∷ []) t)
                (run_steps (remove_cleanup_finalizer env ∷ []) m))
            (sym (ap (λ q. q.1) first))
            (after_step_agrees world_of (remove_cleanup_finalizer env (with_policy p m))
              (remove_cleanup_finalizer env m) (run_steps [])
              (ap (λ q. q.0) second, ap (λ q. q.1.world) second)
              (λ _. (refl, ap (λ q. q.1.world) second))))

  -- The steps after the creation of the bucket; the first of them sets the policy.
  abbrev later_steps : List (Step (State W))
  later_steps =
      ensure_bucket_policy env ∷ update_bucket_status_success env ∷ add_cleanup_finalizer env ∷ []

  later_steps-Agree :
      (r : State W) (p : Text)
      → Agree (run_steps later_steps (with_policy p r)) (run_steps later_steps r)
  unfolding run_steps
  later_steps-Agree r p =
      let (same, sets) = ensure_bucket_policy_agrees r p in
      let rest = run_steps (update_bucket_status_success env ∷ add_cleanup_finalizer env ∷ []) in
      after_step_agrees world_of (ensure_bucket_policy env (with_policy p r))
        (ensure_bucket_policy env r) rest same
        (λ continues.
          (ap (λ t. (rest t).0) (sets continues), ap (λ t. (rest t).1.world) (sets continues)))

  provision_agrees :
      (r : State W) (p : Text) → Agree (provision env (with_policy p r)) (provision env r)
  unfolding provision run_steps
  provision_agrees r p =
      let first = ensure_bucket_ignores r p in
      after_step_agrees world_of (ensure_bucket env (with_policy p r)) (ensure_bucket env r)
        (run_steps later_steps) (ap (λ q. q.0) first, ap (λ q. q.1.world) first)
        (λ continues.
          subst
            (λ t. Agree (run_steps later_steps t) (run_steps later_steps (ensure_bucket env r).1))
            (sym (ap (λ q. q.1) first)) (later_steps-Agree (ensure_bucket env r).1 p))

  -- `Reconcile` after the bucket and the agent have been looked for.
  abbrev pub with_agent :
      Result S3Agent → S3Bucket → NamespacedName → State W → Result CtrlResult × State W
  with_agent found bucket req s =
      handle (found, s) (λ e r. (evaluate true, r))
        (λ agent r.
          let r2 = init_vars req (record r { s3_agent = agent }) in
          if bucket.meta.deleting then cleanup env r2 else provision env r2)

  abbrev pub with_bucket : Result S3Bucket → NamespacedName → State W → Result CtrlResult × State W
  with_bucket got req s =
      handle (got, s)
        (λ e r. if has_reason env.not_found e then (evaluate false, r) else (evaluate true, r))
        (λ bucket r.
          let r1 = record r { s3_bucket = bucket; s3_user_ref = bucket.spec.s3_user_ref } in
          with_agent (find_s3_agent env r1 req) bucket req r1)

  -- A state with the fields of an earlier one that are not set before the bucket is looked for.
  abbrev leaving : State W → State W → State W
  leaving r s = record s {
    s3_agent = r.s3_agent;
    s3_user_ref = r.s3_user_ref;
    ceph_tenant = r.ceph_tenant;
    ceph_user_full_id = r.ceph_user_full_id;
    subuser_access_map = r.subuser_access_map;
    bucket_policy = r.bucket_policy;
  }

  with_agent_agrees :
      (found : Result S3Agent) (bucket : S3Bucket) (req : NamespacedName) (r s : State W)
      → r.s3_user_ref ≡ s.s3_user_ref
      → Agree (with_agent found bucket req (leaving r s)) (with_agent found bucket req s)
  unfolding init_vars
  with_agent_agrees (ok agent) bucket req r s same =
      let r2 = init_vars req (record s { s3_agent = agent }) in
      subst
        (λ u.
          Agree (with_agent (ok agent) bucket req (record (leaving r s) { s3_user_ref = u }))
            (with_agent (ok agent) bucket req s))
        (sym same)
        (if_agrees world_of bucket.meta.deleting _ _ _ _ (cleanup_agrees r2 r.bucket_policy)
          (provision_agrees r2 r.bucket_policy))
  with_agent_agrees (err e) bucket req r s same = (refl, refl)
  with_agent_agrees panic bucket req r s same = (refl, refl)

  with_bucket_agrees :
      (got : Result S3Bucket) (req : NamespacedName) (r s : State W)
      → Agree (with_bucket got req (leaving r s)) (with_bucket got req s)
  unfolding find_s3_agent
  with_bucket_agrees (ok bucket) req r s =
      let s1 = record s { s3_bucket = bucket; s3_user_ref = bucket.spec.s3_user_ref } in
      let r1 = record r { s3_user_ref = bucket.spec.s3_user_ref } in
      with_agent_agrees (find_s3_agent env s1 req) bucket req r1 s1 refl
  with_bucket_agrees (err e) req r s =
      if_agrees world_of (has_reason env.not_found e) _ _ _ _ (refl, refl) (refl, refl)
  with_bucket_agrees panic req r s = (refl, refl)

  -- A round of a reconciler with the endpoint and the cluster's name of a configuration, whatever is
  -- left in its other fields, has the result of a round of a new reconciler in the same world, and
  -- leaves the same world.
  pub bucket_reconcile-new_reconciler :
      (agent : S3Agent) (cfg : Config) (r : State W) (req : NamespacedName)
      → r.rgw_endpoint ≡ cfg.rgw.endpoint
      → r.cluster_name ≡ cfg.cluster_name
      → ((reconcile env req r).0 ≡ (reconcile env req (new_reconciler agent cfg r.world)).0)
        × ((reconcile env req r).1.world
            ≡ (reconcile env req (new_reconciler agent cfg r.world)).1.world)
  unfolding reconcile new_reconciler
  bucket_reconcile-new_reconciler agent cfg r req endpoint cluster =
      let got = env.buckets.get r.world req in
      let fresh = record (new_reconciler agent cfg r.world) { s3_bucket_name = req.name } in
      let same : record r { s3_bucket = empty_bucket; s3_bucket_name = req.name }
          ≡ leaving r fresh =
        λ i. record r {
          s3_bucket = empty_bucket;
          s3_bucket_name = req.name;
          rgw_endpoint = endpoint i;
          cluster_name = cluster i;
        } in
      subst (λ t. Agree (with_bucket got req t) (with_bucket got req fresh)) (sym same)
        (with_bucket_agrees got req r fresh)
