-- ===== src/ClaimController/CephUser/Writes.antt =====
-- When `ensureCephUser` of
-- internal/controllers/s3userclaim/provisioner.go write to Ceph.
use ceph_s3_operator.Prelude.{◌≡◌, ◌≢◌, some, arith, Option-cases, inl, inr}
use ceph_s3_operator.Go.{ok}
use ceph_s3_operator.Api.{UserQuota, Cell, User}
use ceph_s3_operator.Env.{Env}
use ceph_s3_operator.Subreconciler.{handle}
use ceph_s3_operator.ClaimController.State.{State}
use ceph_s3_operator.ClaimController.CephUser.{
  same_pointer, desired_user, keep_user, in_world, give_up, modify_or_create, ensure_ceph_user,
}

-- GetUser decodes into fresh memory: no pointer in its answer is the one that the caller has made.
abbrev pub DecodesFresh : {Q W : Type 0} → Env Q W → Type 0
DecodesFresh {W} env =
    (w : W) (u v : User) (cell : Cell)
    → env.get_user w u ≡ ok v
    → v.max_buckets ≡ some cell
    → cell.address ≢ 0

module _ {Q W : Type 0} (env : Env Q W) where
  -- Where GetUser decodes into fresh memory, and the claim has a quota, the step for a user that
  -- Ceph has is always the call of ModifyUser with the wanted user, also where the number of
  -- buckets is the wanted one: the test compares two pointers.
  pub ensure_ceph_user-modifies :
      DecodesFresh env
      → (r : State Q W) (q : UserQuota Q) (existing : User) → r.s3_user_claim.spec.quota ≡ some q
      → env.get_user r.world (desired_user r q) ≡ ok existing
      → ensure_ceph_user env r
        ≡ handle (in_world r (env.modify_user (desired_user r q) r.world)) (give_up env) keep_user
  unfolding ensure_ceph_user modify_or_create same_pointer desired_user
  ensure_ceph_user-modifies fresh r q existing has_quota found =
      elim (Option-cases existing.max_buckets) [
        | inl nil ↦ ground arith
        | inr (cell, e) ↦ ground (arith, fresh r.world (desired_user r q) existing cell found e)
      ]
