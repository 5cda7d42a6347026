-- ===== src/Tests/Claim.antt =====
-- The claim controller's steps and rounds on the sample claim.
use ceph_s3_operator.Quota.{calculate_namespace_used_quota, sum_claims, add_current}
use ceph_s3_operator.Prelude.{
  ◌≡◌, ◌↔◌, refl, ap, sym, Bool, true, false, ◌||◌, none, some, [], ◌∷◌, ◌++◌, arith,
}
use mathlib.Core.Path.{subst}
use ceph_s3_operator.Prelude.Int.{ℤ}
use ceph_s3_operator.ClaimController.CephUser.{retrieve_ceph_user, quota_differs}
use ceph_s3_operator.ClaimController.CephUser.Quota.{
  SameLimits, QuotaLaws, ensure_ceph_user_quota-SameLimits,
}
use ceph_s3_operator.Api.{QuotaSpec}
use ceph_s3_operator.Go.{ok_injective}
use ceph_s3_operator.ClaimController.Secrets.{
  ensure_admin_secret, ensure_readonly_secret, ensure_other_subusers_secret,
}
use ceph_s3_operator.ClaimController.S3User.{ensure_s3_user}
use ceph_s3_operator.ClaimController.Status.{
  update_s3_user_claim_status, update_namespace_quota_status_inclusive, add_cleanup_finalizer,
}
use ceph_s3_operator.Prelude.Text.{Text, text, ◌==◌, eq_iff}
use ceph_s3_operator.Prelude.Assoc.{insert, lookup}
use ceph_s3_operator.Go.{ok}
use ceph_s3_operator.Consts.{subuser_tag_create}
use ceph_s3_operator.Names.{extract_subuser_name, generate_subuser_full_id}
use ceph_s3_operator.Api.{S3User, ResourceQuotaStatus, empty_meta}
use ceph_s3_operator.Subreconciler.{handle, continue_reconciling, evaluate, run_steps}
use ceph_s3_operator.Subreconciler.Chain.{Ran}
use ceph_s3_operator.ClaimController.State.{State}
use ceph_s3_operator.ClaimController.CephUser.{
  remove_ceph_user, desired_user, in_world, give_up, keep_user, ensure_ceph_user, desired_quota,
  keep_quota, ensure_ceph_user_quota,
}
use ceph_s3_operator.ClaimController.CephUser.Writes.{ensure_ceph_user-modifies}
use ceph_s3_operator.ClaimController.Subusers.{
  sync_entries, sync_subuser, generate_subuser, remove_subuser_and_secret, desired_subuser,
  tag_current, tag_desired, generate_subuser_access, sync_subusers_list,
}
use ceph_s3_operator.ClaimController.Subusers.Tags.{
  mem, Distinct, names, lookup-generate_subuser_access,
}
use ceph_s3_operator.ClaimController.Subusers.Sync.{Visits, Parses}
use ceph_s3_operator.ClaimController.Subusers.Converge.{tags, sync_subusers_list_converges}
use ceph_s3_operator.ClaimController.S3User.{
  assemble_s3_user, remove_s3_user, s3_user, s3_user_to_s3_user_claim,
}
use ceph_s3_operator.ClaimController.S3User.Requests.{assemble_s3_user-requests}
use ceph_s3_operator.ClaimController.Status.{
  update_namespace_quota_status_exclusive, update_namespace_quota_status, update_quotas,
  remove_cleanup_finalizer, write_finalizers,
}
use ceph_s3_operator.ClaimController.Flow.{provision, cleanup}
use ceph_s3_operator.ClaimController.Steps.{provision_iff}
use ceph_s3_operator.ClaimController.Serve.{serve, respond, serve-respond}
use ceph_s3_operator.Subreconciler.Serve.{Call}
use ceph_s3_operator.Prelude.{List}
use ceph_s3_operator.Sample.Objects.{config}
use ceph_s3_operator.Sample.{World, env}
use ceph_s3_operator.Sample.Laws.{subuser_laws, decodes_fresh, refers_by_name}
use ceph_s3_operator.Sample.Ranges.{entries_iff}
use ceph_s3_operator.Sample.Objects.{
  orders, orders_id, shop, old_subuser, ceph_user, quota, hard, request, reconciler, world,
}

or_false : (a : Bool) → (a || false) ≡ a
or_false a = ground arith

old_alone : Distinct (names reconciler.ceph_user.subusers)
unfolding mem
old_alone = (refl, tt)

visits : Visits (tags env reconciler) (env.range (tags env reconciler))
unfolding generate_subuser_access tag_current lookup insert tag_desired ◌==◌
    generate_subuser_full_id
visits = entries_iff (tags env reconciler) (refl, (refl, (refl, tt)))

there :
    (n : Text)
    → subuser_laws.has_subuser reconciler.world reconciler.ceph_user_full_id n
      ≡ mem n (names reconciler.ceph_user.subusers)
unfolding ◌==◌ mem
there n = rw (or_false (old_subuser.name == n)) refl

abbrev synced : State ℤ World
synced = (sync_subusers_list env reconciler).1

went_through : sync_subusers_list env reconciler ≡ (ok continue_reconciling, synced)
unfolding sync_subusers_list sync_entries generate_subuser_access tag_current lookup insert
    tag_desired ◌==◌ generate_subuser_full_id sync_subuser generate_subuser
    remove_subuser_and_secret extract_subuser_name desired_subuser
went_through = refl

-- The subuser of the spec is there, and the old one is not.
sync_subusers_list_converges_example :
    subuser_laws.has_subuser synced.world orders_id (orders_id ++ text ":dev") ≡ true
unfolding mem ◌==◌ generate_subuser_full_id
sync_subusers_list_converges_example =
    sync_subusers_list_converges env subuser_laws reconciler synced old_alone visits there
      went_through (orders_id ++ text ":dev")

old-Parses : (n : Text) → mem n (names reconciler.ceph_user.subusers) ≡ true → Parses n
unfolding mem extract_subuser_name
old-Parses n h =
    let same = (eq_iff old_subuser.name n).0 (rw (or_false (old_subuser.name == n)) at h) in
    subst Parses same (text "old", refl)

lookup-generate_subuser_access_example :
    lookup (orders_id ++ text ":dev") (generate_subuser_access reconciler (text "dev" ∷ []) [])
    ≡ some subuser_tag_create
unfolding generate_subuser_access lookup mem ◌==◌ generate_subuser_full_id
lookup-generate_subuser_access_example =
    lookup-generate_subuser_access reconciler (text "dev" ∷ []) [] (orders_id ++ text ":dev")
      old_alone

provision_iff_example :
    (provision env reconciler ≡ (evaluate false, (provision env reconciler).1))
    ↔ Ran
        (ensure_ceph_user env
          ∷ ensure_ceph_user_quota env
          ∷ sync_subusers_list env
          ∷ retrieve_ceph_user env
          ∷ ensure_admin_secret env
          ∷ ensure_readonly_secret env
          ∷ ensure_other_subusers_secret env
          ∷ ensure_s3_user env
          ∷ update_s3_user_claim_status env
          ∷ update_namespace_quota_status_inclusive env
          ∷ add_cleanup_finalizer env
          ∷ [])
        reconciler
        (provision env reconciler).1
provision_iff_example = provision_iff env reconciler (provision env reconciler).1

cleaned : cleanup env reconciler ≡ (evaluate false, (cleanup env reconciler).1)
unfolding cleanup run_steps remove_ceph_user remove_s3_user update_namespace_quota_status_exclusive
    update_namespace_quota_status calculate_namespace_used_quota sum_claims ◌==◌ add_current
    update_quotas remove_cleanup_finalizer write_finalizers
cleaned = refl

abbrev orders_user : S3User ℤ
orders_user = record {
  meta = record empty_meta { name = text "shop.orders" };
  spec = record {
    s3_user_class = text "ceph";
    quota = some (quota 3);
    claim_ref = some (record { namespace = shop; name = text "orders" });
  };
}

assemble_s3_user-requests_example :
    (s3_user_to_s3_user_claim (s3_user orders_user) ≡ request ∷ [])
    × (orders_user.spec.quota ≡ orders.spec.quota)
    × (orders_user.spec.s3_user_class ≡ reconciler.s3_user_class)
    × (orders_user.meta.name ≡ reconciler.s3_user_name)
unfolding assemble_s3_user
assemble_s3_user-requests_example =
    assemble_s3_user-requests env refers_by_name reconciler orders_user refl

ensure_ceph_user-modifies_example :
    ensure_ceph_user env reconciler
    ≡ handle
        (in_world reconciler (env.modify_user (desired_user reconciler (quota 3)) world))
        (give_up env)
        keep_user
ensure_ceph_user-modifies_example =
    ensure_ceph_user-modifies env decodes_fresh reconciler (quota 3) ceph_user refl refl

abbrev unused : ResourceQuotaStatus ℤ
unused = record { hard = hard 5; used = none }

-- Two requests for the claim; in between its user disappears from Ceph.
abbrev calls : List (Call World)
calls =
    record { others = λ w. w; request = request }
    ∷ record { others = λ w. record w { ceph_user = none }; request = request }
    ∷ []

serve-respond_example : serve env config calls reconciler ≡ respond env config calls world
serve-respond_example = serve-respond env config calls reconciler refl refl

quota_laws : QuotaLaws env
quota_laws = record {
  set = λ q a w h got.
      let e = ok_injective got in
      record {
        enabled = ap (λ (x : QuotaSpec). x.enabled) (sym e);
        size = ap (λ (x : QuotaSpec). x.max_size) (sym e);
        objects = ap (λ (x : QuotaSpec). x.max_objects) (sym e);
      };
}

ensure_ceph_user_quota-SameLimits_example :
    ((desired_quota env reconciler (quota 3)).enabled ≡ some true)
    × ((desired_quota env reconciler (quota 3)).max_size ≡ some 30)
    × ((desired_quota env reconciler (quota 3)).max_objects ≡ some 300)
    × SameLimits (desired_quota env reconciler (quota 3)) (desired_quota env reconciler (quota 3))
unfolding ensure_ceph_user_quota quota_differs keep_quota desired_quota
ensure_ceph_user_quota-SameLimits_example =
    ensure_ceph_user_quota-SameLimits env quota_laws reconciler
      (ensure_ceph_user_quota env reconciler).1 (quota 3) (desired_quota env reconciler (quota 3))
      refl refl refl
