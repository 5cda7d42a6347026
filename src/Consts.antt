-- ===== src/Consts.antt =====
-- pkg/consts/consts.go
use ceph_s3_operator.Prelude.{◌++◌}
use ceph_s3_operator.Prelude.Text.{Text, text}
use ceph_s3_operator.Go.{Error, custom}

abbrev pub label_team : Text
label_team = text "snappcloud.io/team"

abbrev pub resource_name_s3_max_objects : Text
resource_name_s3_max_objects = text "s3/objects"

abbrev pub resource_name_s3_max_size : Text
resource_name_s3_max_size = text "s3/size"

abbrev pub resource_name_s3_max_buckets : Text
resource_name_s3_max_buckets = text "s3/buckets"

abbrev pub quota_type_user : Text
quota_type_user = text "user"

abbrev pub data_key_access_key : Text
data_key_access_key = text "accessKey"

abbrev pub data_key_secret_key : Text
data_key_secret_key = text "secretKey"

abbrev pub ceph_key_type_s3 : Text
ceph_key_type_s3 = text "s3"

-- The texts of the custom errors.
abbrev pub exceeded_cluster_quota : Text
exceeded_cluster_quota = text "exceeded cluster quota"

abbrev pub exceeded_namespace_quota : Text
exceeded_namespace_quota = text "exceeded namespace quota"

abbrev pub cluster_quota_not_defined : Text
cluster_quota_not_defined = text "cluster quota is not defined"

abbrev pub err_exceeded_cluster_quota : Error
err_exceeded_cluster_quota = custom exceeded_cluster_quota

abbrev pub err_exceeded_namespace_quota : Error
err_exceeded_namespace_quota = custom exceeded_namespace_quota

abbrev pub err_cluster_quota_not_defined : Error
err_cluster_quota_not_defined = custom cluster_quota_not_defined

abbrev pub s3_user_class_immutable_err_message : Text
s3_user_class_immutable_err_message = text "s3UserClass is immutable"

abbrev pub s3_user_ref_immutable_err_message : Text
s3_user_ref_immutable_err_message = text "s3UserRef is immutable"

abbrev pub s3_user_ref_not_found_err_message : Text
s3_user_ref_not_found_err_message = text "there is no s3UserClaim regarding the defined s3UserRef"

abbrev pub finalizer_prefix : Text
finalizer_prefix = text "s3.snappcloud.io/"

abbrev pub s3_user_claim_cleanup_finalizer : Text
s3_user_claim_cleanup_finalizer = finalizer_prefix ++ text "cleanup-s3userclaim"

abbrev pub s3_bucket_cleanup_finalizer : Text
s3_bucket_cleanup_finalizer = finalizer_prefix ++ text "cleanup-s3bucket"

abbrev pub deletion_policy_delete : Text
deletion_policy_delete = text "delete"

abbrev pub deletion_policy_retain : Text
deletion_policy_retain = text "retain"

abbrev pub subuser_tag_create : Text
subuser_tag_create = text "create"

abbrev pub subuser_tag_remove : Text
subuser_tag_remove = text "remove"

abbrev pub bucket_access_read : Text
bucket_access_read = text "read"

abbrev pub bucket_access_write : Text
bucket_access_write = text "write"
