-- ===== src/ClaimController/Serve.antt =====
-- `Reconcile` of internal/controllers/s3userclaim/handler.go, called on one reconciler again and
-- again: by the queue of the manager, for requests in any order.
use ceph_s3_operator.Prelude.{◌≡◌, refl, List, ap, ◌∙◌}
use ceph_s3_operator.Prelude.Text.{Text}
use ceph_s3_operator.Go.{Result}
use ceph_s3_operator.Env.{Env}
use ceph_s3_operator.Subreconciler.{CtrlResult}
use ceph_s3_operator.Subreconciler.Serve as Queue
use ceph_s3_operator.Subreconciler.Serve.{Call, serve-respond_lem}
use ceph_s3_operator.ClaimController.State.{State, Config, new_reconciler}
use ceph_s3_operator.ClaimController.Flow.{reconcile}
use ceph_s3_operator.ClaimController.Settings.{settings, reconcile_keeps}
use ceph_s3_operator.ClaimController.Rounds.{reconcile-new_reconciler}

module _ {Q W : Type 0} (env : Env Q W) where
  abbrev world_of : State Q W → W
  world_of r = r.world

  abbrev enter : W → State Q W → State Q W
  enter w r = record r { world = w }

  -- One reconciler for all calls.
  abbrev pub serve : Config → List (Call W) → State Q W → List (Result CtrlResult) × W
  serve cfg = Queue.serve (reconcile env) world_of enter (new_reconciler cfg)

  -- A new one for each.
  abbrev pub respond : Config → List (Call W) → W → List (Result CtrlResult) × W
  respond cfg = Queue.respond (reconcile env) world_of enter (new_reconciler cfg)

  -- However many requests one reconciler serves, and whatever others do to the world between them:
  -- the results and the world left are those of a controller that keeps nothing between the rounds,
  -- where the reconciler starts with the cluster's name and the class of the configuration.
  pub serve-respond :
      (cfg : Config) (calls : List (Call W)) (r : State Q W)
      → r.cluster_name ≡ cfg.cluster_name
      → r.s3_user_class ≡ cfg.s3_user_class
      → serve cfg calls r ≡ respond cfg calls r.world
  serve-respond cfg calls r cluster class =
      serve-respond_lem (reconcile env) world_of enter (new_reconciler cfg)
        (λ s. settings env s ≡ (cfg.cluster_name, cfg.s3_user_class)) (λ w s set. (set, refl))
        (λ req s set.
          let (same, there) =
            reconcile-new_reconciler env cfg s req (ap (λ (p : Text × Text). p.0) set)
              (ap (λ (p : Text × Text). p.1) set) in
          (reconcile_keeps env req s ∙ set, same, there))
        calls r (λ i. (cluster i, class i))
