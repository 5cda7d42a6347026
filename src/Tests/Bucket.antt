-- ===== src/Tests/Bucket.antt =====
-- The S3 agent and the bucket controller on the sample bucket.
use ceph_s3_operator.S3Agent.{S3Agent}
use ceph_s3_operator.BucketController.{find_s3_agent}
use ceph_s3_operator.Prelude.{All, ◌≡◌, ◌↔◌, refl, false, some, List, [], ◌∷◌}
use ceph_s3_operator.Prelude.Text.{◌==◌, Text, text}
use ceph_s3_operator.Prelude.Assoc.{insert, Assoc, lookup}
use ceph_s3_operator.Go.{has_reason, ok}
use ceph_s3_operator.Env.{Policy}
use ceph_s3_operator.Names.{NamespacedName}
use ceph_s3_operator.Subreconciler.{continue_reconciling, evaluate, run_steps}
use ceph_s3_operator.S3Agent.{
  agent_delete_bucket, statements, generate_bucket_access_action, aws_iam, statement_for,
  bucket_policy, group_by_access,
}
use ceph_s3_operator.S3Agent.Policies.{
  Grants, OnBucket, Granted, VisitsSlices, bucket_policy-Grants,
}
use ceph_s3_operator.BucketController.{
  write_finalizers, State, ensure_bucket, remove_or_retain_bucket, remove_cleanup_finalizer,
  cleanup,
}
use ceph_s3_operator.BucketController.Deletion.{IsSettled, cleanup-IsSettled}
use ceph_s3_operator.ClaimController.State as ClaimState
use ceph_s3_operator.S3Agent.{
  agent_create_bucket, set_bucket_policy, statements, generate_bucket_access_action,
}
use ceph_s3_operator.Prelude.Assoc.{insert}
use ceph_s3_operator.Prelude.Text.{◌==◌}
use ceph_s3_operator.BucketController.{
  ensure_bucket_policy, update_bucket_status_success, update_bucket_status, add_cleanup_finalizer,
  write_finalizers, provision, find_s3_agent,
}
use ceph_s3_operator.BucketController.Provisioning.{provision-Ran}
use ceph_s3_operator.BucketController.Keys.{find_s3_agent-ensure_admin_secret}
use ceph_s3_operator.Subreconciler.Chain.{Ran}
use ceph_s3_operator.S3Agent.{new_s3_agent}
use ceph_s3_operator.ClaimController.Secrets.{
  ensure_user_secret, assemble_ceph_user_secret, ensure_secret, find_key, ensure_admin_secret,
}
use ceph_s3_operator.Api.{UserKeySpec}
use ceph_s3_operator.Prelude.{true, some}
use ceph_s3_operator.Prelude.Int.{ℤ}
use ceph_s3_operator.Sample.Laws.{secret_laws}
use ceph_s3_operator.Sample.Objects.{orders, orders_id}
use ceph_s3_operator.BucketController.{reconcile}
use ceph_s3_operator.Sample.Objects.{config, world}
use ceph_s3_operator.BucketController.Serve.{serve, respond, bucket_serve-respond}
use ceph_s3_operator.Subreconciler.Serve.{Call}
use ceph_s3_operator.BucketController.Errors.{bucket_reconcile_never_errs}
use ceph_s3_operator.Prelude.{◌≢◌}
use ceph_s3_operator.Go.{err}
use ceph_s3_operator.Sample.Objects.{meta}
use ceph_s3_operator.Prelude.{true}
use ceph_s3_operator.Sample.{World, env, absent, put_secret}
use ceph_s3_operator.Sample.Ranges.{entries_iff}
use ceph_s3_operator.Sample.Objects.{shop, reconciler, bucket_reconciler}

abbrev bindings : Assoc Text
bindings = (text "dev", text "read") ∷ []

abbrev dev : Text
dev = aws_iam (text "c__shop") (text "images") (text "dev")

abbrev policy : Policy
policy = record {
  version = text "2012-10-17";
  id = text "S3Policy";
  statement =
      statement_for (text "c__shop") (text "photos") (dev ∷ [])
        (text "s3:ListBucket" ∷ text "s3:GetObject" ∷ [])
      ∷ [];
}

made : bucket_policy env bindings (text "c__shop") (text "images") (text "photos") ≡ ok policy
unfolding bucket_policy statements group_by_access insert lookup generate_bucket_access_action ◌==◌
made = refl

abbrev groups : Assoc (List Text)
groups = group_by_access (text "c__shop") (text "images") bindings []

visits : VisitsSlices groups groups
unfolding group_by_access insert lookup
visits = entries_iff groups (refl, tt)

abbrev photos_content : Text
photos_content = text "arn:aws:s3::c__shop:photos/*"

bucket_policy-Grants_example :
    All (λ st. st.effect ≡ text "Allow") policy.statement
    × (Grants dev (text "s3:GetObject") photos_content policy.statement ↔ (
        Granted (text "c__shop") (text "images") dev (text "s3:GetObject") bindings
        × OnBucket (text "c__shop") (text "photos") photos_content))
bucket_policy-Grants_example =
    bucket_policy-Grants env bindings (text "c__shop") (text "images") (text "photos") dev
      (text "s3:GetObject") photos_content policy visits made

abbrev deleted : State World
deleted = (cleanup env bucket_reconciler).1

cleaned : cleanup env bucket_reconciler ≡ (evaluate false, deleted)
unfolding cleanup run_steps remove_or_retain_bucket ◌==◌ agent_delete_bucket
    remove_cleanup_finalizer write_finalizers
cleaned = refl

cleanup-IsSettled_example :
    IsSettled env bucket_reconciler
    × ((m : State World) × (remove_or_retain_bucket env bucket_reconciler
          ≡ (ok continue_reconciling, m))
        × (remove_cleanup_finalizer env m ≡ (ok continue_reconciling, deleted)))
cleanup-IsSettled_example = cleanup-IsSettled env bucket_reconciler deleted cleaned

abbrev images_key : NamespacedName
images_key = record { namespace = shop; name = text "images" }

abbrev photos_key : NamespacedName
photos_key = record { namespace = shop; name = text "photos" }

abbrev provisioned : State World
provisioned = (provision env bucket_reconciler).1

provision-Ran_example :
    Ran
      (ensure_bucket env
        ∷ ensure_bucket_policy env
        ∷ update_bucket_status_success env
        ∷ add_cleanup_finalizer env
        ∷ [])
      bucket_reconciler
      provisioned
unfolding provision run_steps ensure_bucket agent_create_bucket ensure_bucket_policy
    set_bucket_policy bucket_policy statements group_by_access insert lookup
    generate_bucket_access_action ◌==◌ update_bucket_status_success update_bucket_status
    add_cleanup_finalizer write_finalizers
provision-Ran_example = (provision-Ran env bucket_reconciler provisioned).0 refl

-- The bucket of the claim at hand, after the step for its admin secret.
abbrev with_secret : ClaimState.State ℤ World
with_secret = (ensure_admin_secret env reconciler).1

abbrev of_orders : State World
of_orders = record bucket_reconciler { world = with_secret.world; s3_user_ref = text "orders" }

find_s3_agent-ensure_admin_secret_example :
    (key : UserKeySpec) × (find_key orders_id reconciler.ceph_user.keys ≡ some key)
    × (find_s3_agent env of_orders photos_key
        ≡ new_s3_agent env key.access_key key.secret_key (text "http://rgw") true)
unfolding ensure_admin_secret ensure_user_secret assemble_ceph_user_secret find_key ◌==◌
    ensure_secret has_reason
find_s3_agent-ensure_admin_secret_example =
    find_s3_agent-ensure_admin_secret env secret_laws reconciler with_secret of_orders photos_key
      orders refl refl refl refl refl

-- Two requests for the bucket; in between its claim disappears.
abbrev calls : List (Call World)
calls =
    record { others = λ w. w; request = photos_key }
    ∷ record { others = λ w. record w { claim_list = [] }; request = photos_key }
    ∷ []

bucket_serve-respond_example :
    serve env bucket_reconciler.s3_agent config calls bucket_reconciler
    ≡ respond env bucket_reconciler.s3_agent config calls world
bucket_serve-respond_example =
    bucket_serve-respond env bucket_reconciler.s3_agent config calls bucket_reconciler refl refl

bucket_reconcile_never_errs_example : (reconcile env photos_key bucket_reconciler).0 ≢ err absent
bucket_reconcile_never_errs_example =
    bucket_reconcile_never_errs env photos_key bucket_reconciler absent

-- A world in which the claim's admin secret is there.
abbrev with_admin_secret : World
with_admin_secret = put_secret (record { meta = meta shop (text "images-rw"); contents = [] }) world

abbrev leftover : State World
leftover = record bucket_reconciler { world = with_admin_secret; s3_user_ref = text "orders" }
