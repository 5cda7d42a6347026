-- ===== src/ClaimController/Subusers/Converge.antt =====
-- `syncSubusersList` as a whole: when it goes through, and what Ceph then has.
use ceph_s3_operator.Prelude.{◌≡◌, refl, Bool, none, some, arith, ◌∙◌}
use ceph_s3_operator.Prelude.Text.{Text, ◌==◌}
use ceph_s3_operator.Prelude.Assoc.{Assoc, lookup}
use ceph_s3_operator.Go.{ok}
use ceph_s3_operator.Consts.{subuser_tag_create}
use ceph_s3_operator.Env.{Env}
use ceph_s3_operator.Subreconciler.{continue_reconciling}
use ceph_s3_operator.ClaimController.State.{State}
use ceph_s3_operator.ClaimController.Subusers.{generate_subuser_access, sync_subusers_list}
use ceph_s3_operator.ClaimController.Subusers.Tags.{
  mem, Distinct, names, wanted_ids, lookup-generate_subuser_access,
}
use ceph_s3_operator.ClaimController.Subusers.Sync.{
  Visits, SubuserLaws, after-Visits, sync_entries-has,
}

module _ {Q W : Type 0} (env : Env Q W) where
  -- The map of the step, as the code calls for it.
  abbrev pub tags : State Q W → Assoc Text
  tags r = generate_subuser_access r r.desired_subusers_string_list r.ceph_user.subusers

  tag_effect :
      (r : State Q W) (n : Text) (b : Bool)
      → Distinct (names r.ceph_user.subusers)
      → b ≡ mem n (names r.ceph_user.subusers)
      → ◌≡◌ {A = Bool}
          (elim (lookup n (tags r)) [ none ↦ b | some t ↦ t == subuser_tag_create ])
          (mem n (wanted_ids r r.desired_subusers_string_list))
  unfolding ◌==◌
  tag_effect r n b distinct there = ground (
    arith,
    lookup-generate_subuser_access r r.desired_subusers_string_list r.ceph_user.subusers n distinct,
  )

  -- Under the laws of subusers: where the subusers that Ceph has are those of the user as
  -- retrieved, with distinct names, and the loop visits the entries of the map, then after the step
  -- has gone through Ceph has, of all names, exactly the read-only subuser's and those of the spec.
  pub sync_subusers_list_converges :
      (laws : SubuserLaws env) (r r' : State Q W)
      → Distinct (names r.ceph_user.subusers)
      → Visits (tags r) (env.range (tags r))
      → ((n : Text)
          → laws.has_subuser r.world r.ceph_user_full_id n ≡ mem n (names r.ceph_user.subusers))
      → sync_subusers_list env r ≡ (ok continue_reconciling, r')
      → (n : Text)
      → laws.has_subuser r'.world r.ceph_user_full_id n
        ≡ mem n (wanted_ids r r.desired_subusers_string_list)
  unfolding sync_subusers_list
  sync_subusers_list_converges laws r r' distinct visits there h n =
      let b = laws.has_subuser r.world r.ceph_user_full_id n in
      sync_entries-has env laws (env.range (tags r)) r r' r.ceph_user_full_id n refl h
      ∙ (after-Visits n b (tags r) (env.range (tags r)) visits
          ∙ tag_effect r n b distinct (there n))
