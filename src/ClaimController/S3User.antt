-- ===== src/ClaimController/S3User.antt =====
-- The cluster-wide S3User of a claim: `assembleS3User` and `ensureS3User` of
-- internal/controllers/s3userclaim/provisioner.go, `removeS3User` of cleaner.go, and
-- `s3UsertoS3UserClaim` of controller.go, which leads from it back to the claim.
pub mod Requests
use ceph_s3_operator.Prelude.{
  ℕ, Bool, true, false, not, Option, none, some, List, [], ◌∷◌, if◌then◌else◌,
}
use ceph_s3_operator.Prelude.Text.{Text, text}
use ceph_s3_operator.Go.{Error, Result, ok, err, panic, wrap, has_reason, ◌>>=◌, wrapping, deref}
use ceph_s3_operator.Names.{NamespacedName}
use ceph_s3_operator.Api.{ObjectReference, S3UserSpec, S3User, S3UserClaim, empty_meta}
use ceph_s3_operator.Env.{Env}
use ceph_s3_operator.Subreconciler.{Signal, Step, continue_reconciling, requeue, done, handle}
use ceph_s3_operator.ClaimController.State.{State}
use ceph_s3_operator.ClaimController.CephUser.{in_world, give_up}

-- A client.Object that the watch of S3Users hands over.
pub data Watched (Q : Type 0) : Type 0 where
  s3_user : S3User Q → Watched Q
  other : Watched Q

requests_of : Option ObjectReference → List NamespacedName
requests_of none = []
requests_of (some ref) = record { namespace = ref.namespace; name = ref.name } ∷ []

unfoldable pub s3_user_to_s3_user_claim : {Q : Type 0} → Watched Q → List NamespacedName
unfolding requests_of
s3_user_to_s3_user_claim (s3_user u) = requests_of u.spec.claim_ref
s3_user_to_s3_user_claim other = []

module _ {Q W : Type 0} (env : Env Q W) where
  open env use {users, not_found, get_reference, deep_equal}

  unfoldable pub assemble_s3_user : State Q W → Result (S3User Q)
  assemble_s3_user r = do
    claim_ref ←
        wrapping (text "failed to create claim reference, ") (get_reference r.s3_user_claim.meta)
    q ← deref r.s3_user_claim.spec.quota
    ok (record {
      meta = record empty_meta { name = r.s3_user_name };
      spec = record {
        s3_user_class = r.s3_user_class;
        quota = some (record {
          max_size = q.max_size;
          max_objects = q.max_objects;
          max_buckets = q.max_buckets;
        });
        claim_ref = some claim_ref;
      };
    })

  unfoldable pub ensure_s3_user : Step (State Q W)
  ensure_s3_user r =
      handle (users.get r.world r.s3_user_name, r)
        (λ e r.
          if has_reason not_found e
          then handle (assemble_s3_user r, r) (give_up env)
              (λ user r.
                handle (in_world r (users.create user r.world)) (give_up env)
                  (λ _. done continue_reconciling))
          else done requeue r)
        (λ existing r.
          handle (assemble_s3_user r, r) (give_up env)
            (λ desired r.
              if not (deep_equal (S3UserSpec Q) desired.spec existing.spec)
              then handle
                  (in_world r (users.update (record existing { spec = desired.spec }) r.world))
                  (give_up env) (λ _. done continue_reconciling)
              else done continue_reconciling r))

  unfoldable pub remove_s3_user : Step (State Q W)
  remove_s3_user r =
      handle (in_world r (users.delete r.s3_user_name r.world))
        (λ e. if has_reason not_found e then done continue_reconciling else done requeue)
        (λ _. done continue_reconciling)
