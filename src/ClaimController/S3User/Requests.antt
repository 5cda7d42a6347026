-- ===== src/ClaimController/S3User/Requests.antt =====
-- `assembleS3User` of internal/controllers/s3userclaim/provisioner.go against the watch of S3Users
-- in controller.go.
use ceph_s3_operator.Prelude.{◌≡◌, [], ◌∷◌, arith, Option-cases, inl, inr}
use ceph_s3_operator.Go.{ok, Result-cases}
use ceph_s3_operator.Api.{ObjectMeta, ObjectReference, S3User}
use ceph_s3_operator.Env.{Env}
use ceph_s3_operator.ClaimController.State.{State}
use ceph_s3_operator.ClaimController.S3User.{s3_user, s3_user_to_s3_user_claim, assemble_s3_user}

-- reference.GetReference refers to an object by its namespace and name.
abbrev pub RefersByName : {Q W : Type 0} → Env Q W → Type 0
RefersByName env =
    (m : ObjectMeta) (ref : ObjectReference)
    → env.get_reference m ≡ ok ref
    → (ref.namespace ≡ m.namespace) × (ref.name ≡ m.name)

-- Where a reference gives the namespace and the name, an S3User that is assembled for a claim leads
-- the watch to one request, that of the claim, and has the quota of the claim, the class of the
-- operator and the name that the reconciler has derived.
pub assemble_s3_user-requests :
    {Q W : Type 0} (env : Env Q W)
    → RefersByName env
    → (r : State Q W) (u : S3User Q) → assemble_s3_user env r ≡ ok u
    → (s3_user_to_s3_user_claim (s3_user u)
        ≡ record { namespace = r.s3_user_claim.meta.namespace; name = r.s3_user_claim.meta.name }
          ∷ [])
      × (u.spec.quota ≡ r.s3_user_claim.spec.quota)
      × (u.spec.s3_user_class ≡ r.s3_user_class)
      × (u.meta.name ≡ r.s3_user_name)
unfolding assemble_s3_user s3_user_to_s3_user_claim
assemble_s3_user-requests env named r u h =
    elim (Result-cases (env.get_reference r.s3_user_claim.meta)) [
      | inr bad ↦ ground arith
      | inl (ref, e) ↦ elim (Option-cases r.s3_user_claim.spec.quota) [
        | inl nil ↦ ground arith
        | inr (q, p) ↦
            let same = named r.s3_user_claim.meta ref e in
            (ground arith, ground arith, ground arith, ground arith)
      ]
    ]
