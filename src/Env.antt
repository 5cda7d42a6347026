-- ===== src/Env.antt =====
-- What the operator calls and does not implement: resource.Quantity, the Kubernetes client and its
-- utilities, the RGW admin API of Ceph and the S3 API of AWS's SDK. Each is a field of a record of
-- operations, over a type `W` of states of the world outside. A call that may change the world
-- returns the new one, also when it fails. Reads do not change it: between two calls of one pass
-- nobody else writes.
use Prim.Native.Nat.{Ordering}
use ceph_s3_operator.Prelude.{ℕ, Bool, List}
use ceph_s3_operator.Prelude.Text.{Text}
use ceph_s3_operator.Prelude.Assoc.{Assoc}
use ceph_s3_operator.Go.{Result}
use ceph_s3_operator.Names.{NamespacedName}
use ceph_s3_operator.Api.{
  ObjectMeta, ObjectReference, S3UserClaim, S3User, S3Bucket, Secret, ResourceQuota, Namespace,
  ClusterResourceQuota, SubuserSpec, QuotaSpec, User,
}

-- resource.Quantity: the zero value, Add, Cmp, Value and NewQuantity.
pub record Quantities (Q : Type 0) : Type 0 where
  pub zero_quantity : Q
  pub add : Q → Q → Q
  pub cmp : Q → Q → Ordering
  pub int64_value : Q → ℕ
  pub new_quantity : ℕ → Q

-- client.Client at one kind of object `O`, found by a key `K`. An update returns the object as the
-- server has stored it.
pub record KindClient (W K O : Type 0) : Type 0 where
  pub get : W → K → Result O
  pub list : W → Text → Result (List O)
  pub create : O → W → Result O × W
  pub update : O → W → Result O × W
  pub update_status : O → W → Result O × W
  pub delete : K → W → Result (Unit {0}) × W

pub record Kube (Q W : Type 0) : Type 0 where
  pub claims : KindClient W NamespacedName (S3UserClaim Q)
  pub users : KindClient W Text (S3User Q)
  pub buckets : KindClient W NamespacedName S3Bucket
  pub secrets : KindClient W NamespacedName Secret
  pub resource_quotas : KindClient W NamespacedName (ResourceQuota Q)
  pub namespaces : KindClient W Text Namespace
  pub cluster_quotas : KindClient W Text (ClusterResourceQuota Q)
  -- List of S3UserClaims by the reader that bypasses the cache, and of all namespaces
  pub uncached_claims : W → Text → Result (List (S3UserClaim Q))
  pub all_namespaces : W → Result (List Namespace)
  -- ctrl.SetControllerReference, metav1.IsControlledBy, controllerutil and reference
  pub set_controller_reference : ObjectMeta → ObjectMeta → Result ObjectMeta
  pub is_controlled_by : ObjectMeta → ObjectMeta → Bool
  pub add_finalizer : Text → ObjectMeta → ObjectMeta × Bool
  pub remove_finalizer : Text → ObjectMeta → ObjectMeta × Bool
  pub get_reference : ObjectMeta → Result ObjectReference

-- github.com/ceph/go-ceph/rgw/admin
pub record Rgw (W : Type 0) : Type 0 where
  pub get_user : W → User → Result User
  pub create_user : User → W → Result User × W
  pub modify_user : User → W → Result User × W
  pub remove_user : User → W → Result (Unit {0}) × W
  pub get_user_quota : W → QuotaSpec → Result QuotaSpec
  pub set_user_quota : QuotaSpec → W → Result (Unit {0}) × W
  pub create_subuser : User → SubuserSpec → W → Result (Unit {0}) × W
  pub remove_subuser : User → SubuserSpec → W → Result (Unit {0}) × W

-- The settings that `NewS3Agent` gives to the session; the agent's client is known by them.
pub record AwsConfig : Type 0 where
  pub region : Text
  pub access_key : Text
  pub secret_key : Text
  pub endpoint : Text
  pub force_path_style : Bool
  pub max_retries : ℕ
  pub disable_ssl : Bool
  pub timeout_seconds : ℕ
  pub debug : Bool

-- A bucket policy, and json.Marshal of it.
pub record Statement : Type 0 where
  pub sid : Text
  pub effect : Text
  pub principal_aws : List Text
  pub action : List Text
  pub resource : List Text

pub record Policy : Type 0 where
  pub version : Text
  pub id : Text
  pub statement : List Statement

-- github.com/aws/aws-sdk-go: the session and the calls of the S3 service.
pub record S3 (W : Type 0) : Type 0 where
  pub new_session : AwsConfig → Result (Unit {0})
  pub create_bucket : AwsConfig → Text → W → Result (Unit {0}) × W
  pub delete_bucket : AwsConfig → Text → W → Result (Unit {0}) × W
  pub put_bucket_policy : AwsConfig → Text → Text → W → Result (Unit {0}) × W
  pub marshal : Policy → Result Text
  -- the order in which `range` visits the entries of a map of string slices
  pub range_slices : Assoc (List Text) → Assoc (List Text)

-- The error codes of the libraries that the program tests for, and admin.SubuserAccessNone.
pub record Codes : Type 0 where
  pub not_found : Text
  pub no_such_user : Text
  pub no_such_bucket : Text
  pub bucket_already_exists : Text
  pub bucket_already_owned_by_you : Text
  pub subuser_access_none : Text

pub record Env (Q W : Type 0) : Type 1 where
  pub quantities : Quantities Q
  pub open quantities use *
  pub kube : Kube Q W
  pub open kube use *
  pub rgw : Rgw W
  pub open rgw use *
  pub s3 : S3 W
  pub open s3 use *
  pub codes : Codes
  pub open codes use *
  -- apiequality.Semantic.DeepEqual
  pub deep_equal : (A : Type 0) → A → A → Bool
  -- retry.RetryOnConflict(retry.DefaultRetry, f)
  pub retry_on_conflict : (A : Type 0) → (W → Result A × W) → W → Result A × W
  -- the order in which `range` visits the entries of a map
  pub range : Assoc Text → Assoc Text
