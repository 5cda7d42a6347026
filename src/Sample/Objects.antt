-- ===== src/Sample/Objects.antt =====
-- Objects of the sample cluster: two namespaces of one team, three claims, one bucket.
use ceph_s3_operator.Prelude.{false, if◌then◌else◌, ℕ, ◌*◌, true, ◌&&◌, none, some, [], ◌∷◌, ◌++◌}
use ceph_s3_operator.Prelude.Int.{ℤ, pos}
use ceph_s3_operator.Prelude.Text.{Text, text, ◌==◌}
use ceph_s3_operator.Prelude.Assoc.{Assoc}
use ceph_s3_operator.Consts.{
  label_team, resource_name_s3_max_objects, resource_name_s3_max_size, resource_name_s3_max_buckets,
}
use ceph_s3_operator.Names.{NamespacedName}
use ceph_s3_operator.Api.{
  ObjectMeta, UserQuota, S3UserClaim, S3Bucket, ResourceQuota, Namespace, ClusterResourceQuota,
  QuotaSpec, User, SubuserSpec, UserKeySpec, empty_meta, empty_claim, empty_quota_spec,
  user_with_id,
}
use ceph_s3_operator.ClaimController.State as ClaimState
use ceph_s3_operator.BucketController as Bucket
use ceph_s3_operator.Sample.{World}

abbrev pub meta : Text → Text → ObjectMeta
meta ns n = record empty_meta { namespace = ns; name = n; uid = n }

abbrev pub shop : Text
shop = text "shop"

abbrev pub bank : Text
bank = text "bank"

abbrev pub quota : ℕ → UserQuota ℤ
quota n = record { max_size = pos (10 * n); max_objects = pos (100 * n); max_buckets = n }

abbrev pub claim : Text → Text → ℕ → S3UserClaim ℤ
claim ns n size = record empty_claim {
  meta = meta ns n;
  spec = record {
    s3_user_class = text "ceph";
    readonly_secret = n ++ text "-ro";
    admin_secret = n ++ text "-rw";
    quota = some (quota size);
    subusers = text "dev" ∷ [];
  };
}

-- The three claims; the first is the one at hand.
abbrev pub orders : S3UserClaim ℤ
orders = claim shop (text "orders") 3

abbrev pub images : S3UserClaim ℤ
images = claim shop (text "images") 2

abbrev pub ledger : S3UserClaim ℤ
ledger = claim bank (text "ledger") 1

abbrev pub team_namespace : Text → Namespace
team_namespace n = record { meta = record (meta [] n) { labels = (label_team, text "red") ∷ [] } }

abbrev pub hard : ℕ → Assoc ℤ
hard n =
    (resource_name_s3_max_objects, pos (100 * n))
    ∷ (resource_name_s3_max_size, pos (10 * n))
    ∷ (resource_name_s3_max_buckets, pos n)
    ∷ []

abbrev pub resource_quota : ResourceQuota ℤ
resource_quota = record {
  meta = meta shop (text "limits");
  hard = hard 5;
  status = record { hard = hard 5; used = none };
}

abbrev pub cluster_quota : ClusterResourceQuota ℤ
cluster_quota = record { meta = meta [] (text "red"); hard = hard 6 }

abbrev pub bucket : S3Bucket
bucket = record (Bucket.empty_bucket) {
  meta = meta shop (text "photos");
  spec = record {
    s3_user_ref = text "images";
    s3_deletion_policy = text "delete";
    s3_subuser_binding = record { name = text "dev"; access = text "read" } ∷ [];
  };
}

abbrev pub orders_id : Text
orders_id = text "c__shop$orders"

abbrev pub key : Text → UserKeySpec
key user = record { user = user; access_key = text "key"; secret_key = text "word" }

-- The user in Ceph: it has the subuser "old", which is not wanted.
abbrev pub old_subuser : SubuserSpec
old_subuser = record { name = orders_id ++ text ":old"; access = []; key_type = none }

abbrev pub ceph_user : User
ceph_user = record (user_with_id orders_id) {
  max_buckets = some (record { address = 7; value = 3 });
  subusers = old_subuser ∷ [];
  keys = key orders_id ∷ key (orders_id ++ text ":readonly") ∷ key (orders_id ++ text ":dev") ∷ [];
}

abbrev pub ceph_quota : QuotaSpec
ceph_quota = record empty_quota_spec {
  enabled = some true;
  max_size = some 30;
  max_objects = some 100;
}

abbrev pub world : World
world = record {
  claim_list = images ∷ orders ∷ ledger ∷ [];
  namespace_list = team_namespace shop ∷ team_namespace bank ∷ [];
  quota_list = resource_quota ∷ [];
  cluster_quota = some cluster_quota;
  bucket_list = bucket ∷ [];
  ceph_user = some ceph_user;
  s3_has = λ n. false;
  s3_policy = λ n. none;
  ceph_users = λ id. if id == orders_id then some ceph_user else none;
  s3_users = λ name. none;
  ceph_quota = ceph_quota;
  subuser_of = λ id n. id == orders_id && old_subuser.name == n;
  secret_at = λ ns n. none;
}

abbrev pub request : NamespacedName
request = record { namespace = shop; name = text "orders" }

-- The reconciler of claims as it starts a round for `orders`.
abbrev pub config : ClaimState.Config
config = record {
  s3_user_class = text "ceph";
  cluster_name = text "c";
  validation_webhook_timeout_seconds = 10;
  rgw = record { endpoint = text "http://rgw"; access_key = text "a"; secret_key = text "s" };
}

abbrev pub reconciler : ClaimState.State ℤ World
reconciler = record {
  world = world;
  s3_user_claim = orders;
  ceph_user = ceph_user;
  s3_user_claim_namespace = shop;
  ceph_tenant = text "c__shop";
  ceph_user_id = text "orders";
  ceph_user_full_id = orders_id;
  ceph_display_name = text "orders in shop.c";
  s3_user_name = text "shop.orders";
  readonly_ceph_user_id = text "readonly";
  readonly_ceph_user_full_id = orders_id ++ text ":readonly";
  desired_subusers_string_list = text "dev" ∷ [];
  namespace_used_quota = none;
  cluster_name = text "c";
  s3_user_class = text "ceph";
}

-- The reconciler of buckets as it has found the agent for `photos`.
abbrev pub bucket_reconciler : Bucket.State World
bucket_reconciler = record {
  world = world;
  s3_agent = record {
    client = record {
      region = text "us-east-1";
      access_key = text "key";
      secret_key = text "word";
      endpoint = text "http://rgw";
      force_path_style = true;
      max_retries = 5;
      disable_ssl = true;
      timeout_seconds = 15;
      debug = true;
    };
  };
  s3_bucket = bucket;
  s3_user_ref = text "images";
  s3_bucket_name = text "photos";
  rgw_endpoint = text "http://rgw";
  cluster_name = text "c";
  ceph_tenant = text "c__shop";
  ceph_user_full_id = text "c__shop$images";
  subuser_access_map = (text "dev", text "read") ∷ [];
  bucket_policy = [];
}

-- The claim at hand as it asks for less.
abbrev pub smaller : S3UserClaim ℤ
smaller = claim shop (text "orders") 1
