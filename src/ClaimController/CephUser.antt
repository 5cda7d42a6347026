-- ===== src/ClaimController/CephUser.antt =====
-- The user in Ceph and its quota: `ensureCephUser`, `ensureCephUserQuota`, `retrieveCephUser` of
-- internal/controllers/s3userclaim/provisioner.go and `removeCephUser` of cleaner.go.
pub mod Writes
pub mod Quota
use ceph_s3_operator.Prelude.{
  ℕ, Bool, true, false, not, ◌&&◌, ◌||◌, Option, none, some, List, [], map, if◌then◌else◌, ◌==◌,
}
use ceph_s3_operator.Prelude.Text.{Text, text}
use ceph_s3_operator.Go.{Error, Result, ok, err, panic, wraps_rgw, ◌>>=◌, deref}
use ceph_s3_operator.Consts.{quota_type_user}
use ceph_s3_operator.Api.{UserQuota, Cell, QuotaSpec, User, Subuser, user_with_id, empty_quota_spec}
use ceph_s3_operator.Env.{Env}
use ceph_s3_operator.Subreconciler.{Signal, Step, continue_reconciling, requeue, done, handle}
use ceph_s3_operator.ClaimController.State.{State}

-- pointer.Int(v): a fresh cell, at address 0.
abbrev pub pointer_int : ℕ → Option Cell
pointer_int v = some (record { address = 0; value = v })

-- `p == q` on *int.
unfoldable pub same_pointer : Option Cell → Option Cell → Bool
same_pointer none none = true
same_pointer (some p) (some q) = p.address == q.address
same_pointer _ _ = false

-- retrieveSubusersString: string(desiredSubuser) for each.
unfoldable pub retrieve_subusers_string : List Subuser → List Text
retrieve_subusers_string = map (λ desired_subuser. desired_subuser)

module _ {Q W : Type 0} where
  unfoldable pub desired_user : State Q W → UserQuota Q → User
  desired_user r q = record (user_with_id r.ceph_user_full_id) {
    display_name = r.ceph_display_name;
    max_buckets = pointer_int q.max_buckets;
  }

  -- r.cephUser = user, and then the list of the desired subusers.
  unfoldable pub keep_user : User → Step (State Q W)
  keep_user user r = done continue_reconciling (record r {
    ceph_user = user;
    desired_subusers_string_list = retrieve_subusers_string r.s3_user_claim.spec.subusers;
  })

  -- The state after a call that may have changed the world.
  abbrev pub in_world {ℓ} : {A : Type ℓ} → State Q W → A × W → A × State Q W
  in_world r (a, w) = (a, record r { world = w })

module _ {Q W : Type 0} (env : Env Q W) where
  open env use {
    get_user, create_user, modify_user, remove_user, get_user_quota, set_user_quota, no_such_user,
    int64_value,
  }

  abbrev pub give_up : {A : Type 0} → A → Step (State Q W)
  give_up _ = done requeue

  -- The cases of the switch on GetUser.
  unfoldable pub modify_or_create : User → Result User → Step (State Q W)
  modify_or_create desired (ok existing) r =
      if not (same_pointer existing.max_buckets desired.max_buckets)
      then handle (in_world r (modify_user desired r.world)) give_up keep_user
      else keep_user existing r
  modify_or_create desired (err e) r =
      if wraps_rgw no_such_user e
      then handle (in_world r (create_user desired r.world)) give_up keep_user
      else done requeue r
  modify_or_create desired panic r = (panic, r)

  unfoldable pub ensure_ceph_user : Step (State Q W)
  ensure_ceph_user r = elim r.s3_user_claim.spec.quota [
    | none ↦ (panic, r)
    | some q ↦
        let desired = desired_user r q in modify_or_create desired (get_user r.world desired) r
  ]

  unfoldable pub desired_quota : State Q W → UserQuota Q → QuotaSpec
  desired_quota r q = record {
    uid = r.ceph_user_full_id;
    quota_type = quota_type_user;
    enabled = some true;
    max_size = some (int64_value q.max_size);
    max_objects = some (int64_value q.max_objects);
  }

  abbrev pub same_bool : Bool → Bool → Bool
  same_bool true b = b
  same_bool false b = not b

  -- The comparison field by field; `||` stops at the first field that differs, and a nil pointer
  -- that is read panics.
  unfoldable pub quota_differs : QuotaSpec → QuotaSpec → Result Bool
  quota_differs existing desired = do
    enabled ← deref existing.enabled
    want_enabled ← deref desired.enabled
    if not (same_bool enabled want_enabled) then ok true else do
      size ← deref existing.max_size
      want_size ← deref desired.max_size
      if not (size == want_size) then ok true else do
        objects ← deref existing.max_objects
        want_objects ← deref desired.max_objects
        ok (not (objects == want_objects))

  unfoldable pub keep_quota : QuotaSpec → Step (State Q W)
  keep_quota desired r =
      done continue_reconciling
        (record r { ceph_user = record (r.ceph_user) { user_quota = desired } })

  unfoldable pub ensure_ceph_user_quota : Step (State Q W)
  ensure_ceph_user_quota r = elim r.s3_user_claim.spec.quota [
    | none ↦ (panic, r)
    | some q ↦
        let desired = desired_quota r q in
        handle (get_user_quota r.world desired, r) give_up
          (λ existing r.
            handle (quota_differs existing desired, r) give_up
              (λ differs r.
                if differs
                then handle (in_world r (set_user_quota desired r.world)) give_up
                    (λ _. keep_quota desired)
                else keep_quota desired r))
  ]

  unfoldable pub retrieve_ceph_user : Step (State Q W)
  retrieve_ceph_user r =
      handle (get_user r.world (user_with_id r.ceph_user_full_id), r) give_up
        (λ retrieved r. done continue_reconciling (record r { ceph_user = retrieved }))

  unfoldable pub remove_ceph_user : Step (State Q W)
  remove_ceph_user r =
      handle
        (in_world r
          (remove_user (record (user_with_id r.ceph_user_full_id) { purge_data = some 1 }) r.world))
        (λ e. if wraps_rgw no_such_user e then done continue_reconciling else done requeue)
        (λ _. done continue_reconciling)
