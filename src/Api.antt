-- ===== src/Api.antt =====
-- The objects that the operator reads and writes: api/v1alpha1/*_types.go and types.go, and the
-- fields that it uses of objects of the Kubernetes, OpenShift and Ceph libraries.
--
-- `Q` stands for resource.Quantity. An int64 is its bit pattern, a number below 2 ^ 64.
use ceph_s3_operator.Prelude.{ℕ, Bool, false, Option, none, List, []}
use ceph_s3_operator.Prelude.Text.{Text}
use ceph_s3_operator.Prelude.Assoc.{Assoc}

-- metav1.ObjectMeta: the fields in use. `deleting` is `DeletionTimestamp != nil`, and an owner
-- reference is the uid of the owner and whether that is the controller.
pub record OwnerReference : Type 0 where
  pub uid : Text
  pub controller : Bool

pub record ObjectMeta : Type 0 where
  pub name : Text
  pub namespace : Text
  pub uid : Text
  pub labels : Assoc Text
  pub finalizers : List Text
  pub deleting : Bool
  pub owner_references : List OwnerReference

-- v1.ObjectReference
pub record ObjectReference : Type 0 where
  pub namespace : Text
  pub name : Text

pub record UserQuota (Q : Type 0) : Type 0 where
  pub max_size : Q
  pub max_objects : Q
  pub max_buckets : ℕ

abbrev pub Subuser : Type 0
Subuser = Text

pub record SubuserBinding : Type 0 where
  pub name : Text
  pub access : Text

pub record S3UserClaimSpec (Q : Type 0) : Type 0 where
  pub s3_user_class : Text
  pub readonly_secret : Text
  pub admin_secret : Text
  pub quota : Option (UserQuota Q)
  pub subusers : List Subuser

pub record S3UserClaimStatus (Q : Type 0) : Type 0 where
  pub quota : Option (UserQuota Q)
  pub s3_user_name : Text
  pub subusers : List Subuser

pub record S3UserClaim (Q : Type 0) : Type 0 where
  pub meta : ObjectMeta
  pub spec : S3UserClaimSpec Q
  pub status : S3UserClaimStatus Q

pub record S3UserSpec (Q : Type 0) : Type 0 where
  pub s3_user_class : Text
  pub quota : Option (UserQuota Q)
  pub claim_ref : Option ObjectReference

pub record S3User (Q : Type 0) : Type 0 where
  pub meta : ObjectMeta
  pub spec : S3UserSpec Q

pub record S3BucketSpec : Type 0 where
  pub s3_user_ref : Text
  pub s3_deletion_policy : Text
  pub s3_subuser_binding : List SubuserBinding

pub record S3BucketStatus : Type 0 where
  pub created : Bool
  pub reason : Text
  pub policy : Text

pub record S3Bucket : Type 0 where
  pub meta : ObjectMeta
  pub spec : S3BucketSpec
  pub status : S3BucketStatus

-- corev1.Secret; `contents` is its `Data`.
pub record Secret : Type 0 where
  pub meta : ObjectMeta
  pub contents : Assoc Text

-- corev1.ResourceQuota with `Spec.Hard`; `used` is nil before the first write of the status.
pub record ResourceQuotaStatus (Q : Type 0) : Type 0 where
  pub hard : Assoc Q
  pub used : Option (Assoc Q)

pub record ResourceQuota (Q : Type 0) : Type 0 where
  pub meta : ObjectMeta
  pub hard : Assoc Q
  pub status : ResourceQuotaStatus Q

-- corev1.Namespace
pub record Namespace : Type 0 where
  pub meta : ObjectMeta

-- openshiftquota.ClusterResourceQuota, with `Spec.Quota.Hard`.
pub record ClusterResourceQuota (Q : Type 0) : Type 0 where
  pub meta : ObjectMeta
  pub hard : Assoc Q

-- A `*int` or nil: Go compares pointers by address. Address 0 is the cell that `pointer.Int` fills
-- in the call at hand.
pub record Cell : Type 0 where
  pub address : ℕ
  pub value : ℕ

-- admin.UserKeySpec
pub record UserKeySpec : Type 0 where
  pub user : Text
  pub access_key : Text
  pub secret_key : Text

-- admin.SubuserSpec
pub record SubuserSpec : Type 0 where
  pub name : Text
  pub access : Text
  pub key_type : Option Text

-- admin.QuotaSpec
pub record QuotaSpec : Type 0 where
  pub uid : Text
  pub quota_type : Text
  pub enabled : Option Bool
  pub max_size : Option ℕ
  pub max_objects : Option ℕ

-- admin.User
pub record User : Type 0 where
  pub id : Text
  pub display_name : Text
  pub max_buckets : Option Cell
  pub purge_data : Option ℕ
  pub subusers : List SubuserSpec
  pub keys : List UserKeySpec
  pub user_quota : QuotaSpec

-- The zero values that Go's composite literals start from.
abbrev pub empty_meta : ObjectMeta
empty_meta = record {
  name = [];
  namespace = [];
  uid = [];
  labels = [];
  finalizers = [];
  deleting = false;
  owner_references = [];
}

abbrev pub empty_claim : {Q : Type 0} → S3UserClaim Q
empty_claim = record {
  meta = empty_meta;
  spec = record {
    s3_user_class = [];
    readonly_secret = [];
    admin_secret = [];
    quota = none;
    subusers = [];
  };
  status = record { quota = none; s3_user_name = []; subusers = [] };
}

abbrev pub empty_quota_spec : QuotaSpec
empty_quota_spec = record {
  uid = [];
  quota_type = [];
  enabled = none;
  max_size = none;
  max_objects = none;
}

-- admin.User{ID: id}
abbrev pub user_with_id : Text → User
user_with_id id = record {
  id = id;
  display_name = [];
  max_buckets = none;
  purge_data = none;
  subusers = [];
  keys = [];
  user_quota = empty_quota_spec;
}
