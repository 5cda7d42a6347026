-- ===== src/ClaimController/Subusers.antt =====
-- The subusers in Ceph: `generateSubuserAccess`, `syncSubusersList`, `generateSubuser` and
-- `removeSubuserAndSecret` of internal/controllers/s3userclaim/provisioner.go.
pub mod Tags
pub mod Sync
pub mod Converge
use ceph_s3_operator.Prelude.{
  ℕ, Bool, true, false, Option, none, some, List, [], ◌∷◌, if◌then◌else◌,
}
use ceph_s3_operator.Prelude.Text.{Text, text, ◌==◌}
use ceph_s3_operator.Prelude.Assoc.{Assoc, lookup, insert, erase}
use ceph_s3_operator.Go.{Error, Result, ok, err, panic, has_reason, ◌>>=◌}
use ceph_s3_operator.Names.{
  NamespacedName, generate_subuser_full_id, generate_subuser_secret_name, extract_subuser_name,
}
use ceph_s3_operator.Consts.{subuser_tag_create, subuser_tag_remove, ceph_key_type_s3}
use ceph_s3_operator.Api.{SubuserSpec, User, user_with_id}
use ceph_s3_operator.Env.{Env}
use ceph_s3_operator.Subreconciler.{Signal, Step, continue_reconciling, requeue, done, handle}
use ceph_s3_operator.ClaimController.State.{State}
use ceph_s3_operator.ClaimController.CephUser.{in_world, give_up}

-- Tag the subusers of the spec with "create".
unfoldable pub tag_desired : Text → List Text → Assoc Text → Assoc Text
tag_desired user_id [] tags = tags
tag_desired user_id (subuser ∷ desired) tags =
    tag_desired user_id desired
      (insert (generate_subuser_full_id user_id subuser) subuser_tag_create tags)

abbrev pub toggle : Text → Option Text → Assoc Text → Assoc Text
toggle name (some _) tags = erase name tags
toggle name none tags = insert name subuser_tag_remove tags

-- Tag the current subusers as remove if they are not in the map, and take them out otherwise.
unfoldable pub tag_current : List SubuserSpec → Assoc Text → Assoc Text
tag_current [] tags = tags
tag_current (subuser ∷ current) tags =
    tag_current current (toggle subuser.name (lookup subuser.name tags) tags)

-- The parameter of the current subusers is not read: the code ranges over r.cephUser.Subusers.
unfoldable pub generate_subuser_access :
    {Q W : Type 0} → State Q W → List Text → List SubuserSpec → Assoc Text
generate_subuser_access r desired _ = tag_current r.ceph_user.subusers (
    insert r.readonly_ceph_user_full_id subuser_tag_create
      (tag_desired r.ceph_user_full_id desired []))

module _ {Q W : Type 0} (env : Env Q W) where
  open env use {create_subuser, remove_subuser, secrets, not_found, range}

  unfoldable pub desired_subuser : Text → SubuserSpec
  desired_subuser full_id = record {
    name = full_id;
    access = env.codes.subuser_access_none;
    key_type = some ceph_key_type_s3;
  }

  unfoldable pub generate_subuser : Text → SubuserSpec → State Q W → Result (Unit {0}) × State Q W
  generate_subuser user_id subuser r =
      in_world r (create_subuser (user_with_id user_id) subuser r.world)

  unfoldable pub remove_subuser_and_secret :
      Text → SubuserSpec → State Q W → Result (Unit {0}) × State Q W
  remove_subuser_and_secret user_id subuser r =
      handle (in_world r (remove_subuser (user_with_id user_id) subuser r.world))
        (λ e r. (err e, r))
        (λ _ r.
          handle (extract_subuser_name subuser.name, r) (λ e r. (err e, r))
            (λ name r.
              let key : NamespacedName = record {
                namespace = r.s3_user_claim.meta.namespace;
                name = generate_subuser_secret_name r.s3_user_claim.meta.name name;
              } in
              handle (in_world r (secrets.delete key r.world))
                (λ e r. if has_reason not_found e then (ok tt, r) else (err e, r))
                (λ _ r. (ok tt, r))))

  -- The body of the loop.
  unfoldable pub sync_subuser : Text × Text → State Q W → Result (Unit {0}) × State Q W
  sync_subuser (full_id, tag) r =
      if tag == subuser_tag_create
      then generate_subuser r.ceph_user_full_id (desired_subuser full_id) r
      else remove_subuser_and_secret r.ceph_user_full_id (desired_subuser full_id) r

  unfoldable pub sync_entries : Assoc Text → Step (State Q W)
  sync_entries [] r = done continue_reconciling r
  sync_entries (entry ∷ entries) r =
      let (result, r') = sync_subuser entry r in
      elim result [ ok _ ↦ sync_entries entries r' | err e ↦ done requeue r' | panic ↦ (panic, r') ]

  unfoldable pub sync_subusers_list : Step (State Q W)
  sync_subusers_list r =
      sync_entries
        (range (generate_subuser_access r r.desired_subusers_string_list r.ceph_user.subusers)) r
