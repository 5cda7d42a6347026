-- ===== src/BucketController/Keys.antt =====
-- `setS3Agent` of internal/controllers/s3bucket/handler.go against `ensureAdminSecret` of
-- internal/controllers/s3userclaim/provisioner.go: the keys in the admin secret.
use ceph_s3_operator.Prelude.{◌≡◌, refl, true, some}
use ceph_s3_operator.Go.{ok}
use ceph_s3_operator.Names.{NamespacedName}
use ceph_s3_operator.Api.{S3UserClaim, UserKeySpec}
use ceph_s3_operator.Env.{Env}
use ceph_s3_operator.S3Agent.{new_s3_agent}
use ceph_s3_operator.Subreconciler.{continue_reconciling}
use ceph_s3_operator.ClaimController.State as ClaimState
use ceph_s3_operator.ClaimController.Secrets.{find_key, ensure_admin_secret}
use ceph_s3_operator.ClaimController.Secrets.Stored.{SecretLaws}
use ceph_s3_operator.ClaimController.Secrets.Keys.{ensure_user_secret-HoldsKey}
use ceph_s3_operator.BucketController.{State, find_s3_agent}

module _ {Q W : Type 0} (env : Env Q W) (laws : SecretLaws env) where
  -- Under the laws of secrets: where the claim controller's step for the admin secret has gone
  -- through, and the bucket controller then finds, in the namespace of the claim, a claim with the
  -- same admin secret under the name that the bucket refers to, its agent is the one for the two
  -- parts of the key that the Ceph user of the claim has.
  pub find_s3_agent-ensure_admin_secret :
      (r r' : ClaimState.State Q W) (b : State W) (req : NamespacedName) (claim : S3UserClaim Q)
      → ensure_admin_secret env r ≡ (ok continue_reconciling, r')
      → b.world ≡ r'.world
      → req.namespace ≡ r.s3_user_claim.meta.namespace
      → env.claims.get b.world (record { namespace = req.namespace; name = b.s3_user_ref })
        ≡ ok claim
      → claim.spec.admin_secret ≡ r.s3_user_claim.spec.admin_secret
      → (key : UserKeySpec) × (find_key r.ceph_user_full_id r.ceph_user.keys ≡ some key)
        × (find_s3_agent env b req
            ≡ new_s3_agent env key.access_key key.secret_key b.rgw_endpoint true)
  unfolding find_s3_agent ensure_admin_secret
  find_s3_agent-ensure_admin_secret r r' b req claim h world namespace got same =
      let (key, found, held) =
        ensure_user_secret-HoldsKey env laws r.ceph_user_full_id r.s3_user_claim.spec.admin_secret r
          r' h in
      let there : env.secrets.get b.world
            (record { namespace = req.namespace; name = claim.spec.admin_secret })
          ≡ ok held.kept =
        rw (world, namespace, same) held.found in
      (key, found, rw (got, there, held.access, held.secret) refl)
