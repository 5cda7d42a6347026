-- ===== src/ClaimController/Progress/Round.antt =====
-- A whole round of internal/controllers/s3userclaim for a claim that is there, from a world on in
-- which Ceph and the API server answer.
use ceph_s3_operator.Prelude.{◌≡◌, inl, inr, true, Bool-cases, List, [], ◌∷◌, All, arith}
use ceph_s3_operator.Prelude.Text.{Text, text, Lacks, ◌==◌, eq_iff}
use mathlib.Core.Path.{subst}
use ceph_s3_operator.Names.{ceph_user_full_id, generate_subuser_full_id}
use ceph_s3_operator.Names.Subuser.{extract-generate_subuser}
use ceph_s3_operator.Api.{S3UserClaim}
use ceph_s3_operator.Api.{ObjectMeta, ResourceQuota}
use ceph_s3_operator.Env.{Env}
use ceph_s3_operator.Subreconciler.{Step}
use ceph_s3_operator.ClaimController.State.{State}
use ceph_s3_operator.ClaimController.CephUser.{retrieve_ceph_user}
use ceph_s3_operator.ClaimController.Subusers.{sync_subusers_list}
use ceph_s3_operator.ClaimController.Subusers.Tags.{mem, full_ids, wanted_ids}
use ceph_s3_operator.ClaimController.Subusers.Sync.{SubuserLaws, Parses}
use ceph_s3_operator.ClaimController.Progress.{HasSubusers, Kept, SecretThere, S3UserThere, Working}
use ceph_s3_operator.ClaimController.Progress.Steps.{secret_steps, all_keys}
use ceph_s3_operator.ClaimController.Progress.Secrets.{subuser_key}
use ceph_s3_operator.Names.{s3_user_name}

pub full_ids-Parses :
    (id n : Text) (subusers : List Text)
    → Lacks b':' id
    → All (Lacks b':') subusers
    → mem n (full_ids id subusers) ≡ true
    → Parses n
unfolding mem
full_ids-Parses id n [] plain_id plain h = ground arith
full_ids-Parses id n (s ∷ subusers) plain_id plain h =
    let full_id = generate_subuser_full_id id s in
    elim (Bool-cases (full_id == n)) [
      | inl e ↦
          subst Parses ((eq_iff full_id n).0 e) (s, extract-generate_subuser id s plain_id plain.0)
      | inr other ↦ full_ids-Parses id n subusers plain_id plain.1 (ground arith)
    ]

module _ {Q W : Type 0} (env : Env Q W) (laws : SubuserLaws env) (Up : ObjectMeta → W → Type 0)
    (Known : Text → ObjectMeta → W → Type 0) (Listed : List (ResourceQuota Q) → W → Type 0)
    (working : Working env laws Up Known Listed) where
  -- Ceph knows the user, and has exactly the subusers that are wanted of the claim.
  abbrev HasWanted : State Q W → ObjectMeta → W → Type 0
  HasWanted r m w =
      Known r.ceph_user_full_id m w
      × HasSubusers env laws r.ceph_user_full_id
          (λ n. mem n (wanted_ids r r.desired_subusers_string_list)) w

  -- So it does, and the secrets and the S3User are there.
  abbrev Provided : State Q W → ObjectMeta → W → Type 0
  Provided r = Kept env (HasWanted r) (all_keys r) (r.s3_user_name ∷ [])

  abbrev subuser_steps : List (Step (State Q W))
  subuser_steps = sync_subusers_list env ∷ retrieve_ceph_user env ∷ secret_steps env

  -- What the round makes for a claim: the subusers of the user, the three kinds of secrets, and the
  -- S3User.
  pub record IsServed (claim : S3UserClaim Q) (id name : Text) (w : W) : Type 0 where
    pub subusers :
        (n : Text)
        → laws.has_subuser w id n ≡ mem n (full_ids id (text "readonly" ∷ claim.spec.subusers))
    pub admin_secret :
        SecretThere env
          (record { namespace = claim.meta.namespace; name = claim.spec.admin_secret })
          w
    pub readonly_secret :
        SecretThere env
          (record { namespace = claim.meta.namespace; name = claim.spec.readonly_secret })
          w
    pub subuser_secrets :
        All (λ s. SecretThere env (subuser_key claim.meta s) w) claim.spec.subusers
    pub s3_user : S3UserThere env name w
