-- ===== src/ClaimWebhook.antt =====
-- api/v1alpha1/s3userclaim_webhook.go: what the admission webhook answers for an S3UserClaim.
pub mod Limits
pub mod Quotas
pub mod Verdicts
pub mod Deletion
pub mod Overflow
pub mod Reports
use Prim.Native.Nat.{Ordering}
use ceph_s3_operator.Prelude.{
  ℕ, ◌+◌, ◌%◌, ◌^◌, Bool, true, false, not, Option, none, some, List, [], ◌∷◌, ◌++◌, if◌then◌else◌,
  ltb,
}
use ceph_s3_operator.Prelude.Text.{Text, text, ◌==◌}
use ceph_s3_operator.Prelude.Assoc.{Assoc, lookup}
use ceph_s3_operator.Go.{
  Error, Result, ok, err, panic, message, custom, wrap, ◌>>=◌, wrapping, is_custom, wraps_custom,
  has_reason, error_text,
}
use ceph_s3_operator.Names.{NamespacedName}
use ceph_s3_operator.Consts.{
  resource_name_s3_max_objects, resource_name_s3_max_size, resource_name_s3_max_buckets,
  exceeded_namespace_quota, exceeded_cluster_quota, cluster_quota_not_defined,
  err_exceeded_namespace_quota, err_exceeded_cluster_quota, err_cluster_quota_not_defined,
  s3_user_class_immutable_err_message,
}
use ceph_s3_operator.Api.{UserQuota, S3UserClaim, S3Bucket, ResourceQuota}
use ceph_s3_operator.Env.{Quantities, Env}
use ceph_s3_operator.Quota.{calculate_namespace_used_quota, calculate_cluster_used_quota}

-- field.Error: the path, and the message or the error inside.
pub data FieldError : Type 0 where
  forbidden : Text → Text → FieldError
  internal_error : Text → Error → FieldError

-- What a validator returns: nil, apierrors.NewInvalid for the object's name, another error, or a
-- panic.
pub data Verdict : Type 0 where
  allowed : Verdict
  invalid : Text → List FieldError → Verdict
  failed : Error → Verdict
  crashed : Verdict

-- if len(allErrs) == 0 { return nil }; return apierrors.NewInvalid(...)
unfoldable pub verdict : Text → List FieldError → Verdict
verdict name [] = allowed
verdict name (e ∷ all_errs) = invalid name (e ∷ all_errs)

-- The object that an update passes as the old one: an S3UserClaim, or of another type.
pub data Object (Q : Type 0) : Type 0 where
  claim_object : S3UserClaim Q → Object Q
  bucket_object : S3Bucket → Object Q
  other_object : Object Q

-- a > b on int64.
unfoldable pub gt_int64 : ℕ → ℕ → Bool
gt_int64 a b = ltb ((b + 2 ^ 63) % 2 ^ 64) ((a + 2 ^ 63) % 2 ^ 64)

module _ {Q : Type 0} (quantities : Quantities Q) where
  open quantities use {cmp, int64_value}

  -- a.Cmp(b) > 0
  abbrev pub gt_quantity : Q → Q → Bool
  gt_quantity a b = elim (cmp a b) [ Ordering.gt ↦ true | _ ↦ false ]

  -- `if max, ok := hard[key]; ok { if test(max) { exceeded } }`
  abbrev exceeds : (Q → Bool) → Option Q → Bool
  exceeds test none = false
  exceeds test (some limit) = test limit

  -- The body of the loop over the resource quotas.
  unfoldable pub exceeds_quota : UserQuota Q → Assoc Q → Bool
  exceeds_quota total hard =
      if exceeds (gt_quantity total.max_objects) (lookup resource_name_s3_max_objects hard)
      then true
      else if exceeds (gt_quantity total.max_size) (lookup resource_name_s3_max_size hard)
      then true
      else exceeds (λ limit. gt_int64 total.max_buckets (int64_value limit))
          (lookup resource_name_s3_max_buckets hard)

  unfoldable pub check_quotas : UserQuota Q → List (ResourceQuota Q) → Result (Unit {0})
  check_quotas total [] = ok tt
  check_quotas total (quota ∷ items) = elim (exceeds_quota total quota.hard) [
    | true ↦ err err_exceeded_namespace_quota
    | false ↦ check_quotas total items
  ]

  -- One limit of the cluster quota: an error where it is exceeded, or is not there.
  unfoldable pub check_limit : Text → (Q → Bool) → Option Q → Result (Unit {0})
  check_limit team test none = err (wrap [] err_cluster_quota_not_defined (text ", team=" ++ team))
  check_limit team test (some limit) = if test limit then err err_exceeded_cluster_quota else ok tt

  unfoldable pub check_cluster_quota : Text → UserQuota Q → Assoc Q → Result (Unit {0})
  check_cluster_quota team total hard = do
    _ ← check_limit team (gt_quantity total.max_objects) (lookup resource_name_s3_max_objects hard)
    _ ← check_limit team (gt_quantity total.max_size) (lookup resource_name_s3_max_size hard)
    check_limit team (λ limit. gt_int64 total.max_buckets (int64_value limit))
        (lookup resource_name_s3_max_buckets hard)

module _ {Q W : Type 0} (env : Env Q W) where
  open env use {resource_quotas, cluster_quotas, secrets, not_found}

  unfoldable pub validate_against_namespace_quota : W → S3UserClaim Q → Result (Unit {0})
  validate_against_namespace_quota w suc = do
    total ←
        wrapping (text "failed to calculate namespace used quota , ")
          (calculate_namespace_used_quota env w (some suc) suc.meta.namespace true)
    items ←
        wrapping (text "failed to list resource quotas, ")
          (resource_quotas.list w suc.meta.namespace)
    check_quotas env.quantities total items

  -- The errors of the Get of the team's ClusterResourceQuota.
  unfoldable pub cluster_quota_error : Text → Error → Error
  cluster_quota_error team e =
      if has_reason not_found e
      then wrap [] err_cluster_quota_not_defined (text ", team=" ++ team)
      else wrap (text "failed to get clusterQuota, ") e []

  abbrev pub map_error {ℓ} : {A : Type ℓ} → (Error → Error) → Result A → Result A
  map_error f (ok a) = ok a
  map_error f (err e) = err (f e)
  map_error f panic = panic

  unfoldable pub validate_against_cluster_quota : W → S3UserClaim Q → Result (Unit {0})
  validate_against_cluster_quota w suc = do
    used ←
        wrapping (text "failed to calculate cluster resource used quota , ")
          (calculate_cluster_used_quota env w suc true)
    cluster_quota ← map_error (cluster_quota_error used.1) (cluster_quotas.get w used.1)
    check_cluster_quota env.quantities used.1 used.0 cluster_quota.hard

  abbrev pub quota_path : Text
  quota_path = text "spec.quota"

  abbrev pub spec_path : Text
  spec_path = text "spec"

  -- The two switches of validateQuota.
  unfoldable pub namespace_field_errors : Result (Unit {0}) → Result (List FieldError)
  namespace_field_errors (ok _) = ok []
  namespace_field_errors (err e) = ok (
      (if is_custom exceeded_namespace_quota e
        then forbidden quota_path (error_text e)
        else internal_error quota_path
            (wrap (text "failed to validate against cluster quota, ") e []))
      ∷ [])
  namespace_field_errors panic = panic

  unfoldable pub cluster_field_errors : Result (Unit {0}) → Result (List FieldError)
  cluster_field_errors (ok _) = ok []
  cluster_field_errors (err e) = ok (
      (if is_custom exceeded_cluster_quota e
        then forbidden quota_path (error_text e)
        else if wraps_custom cluster_quota_not_defined e
        then forbidden quota_path (error_text e)
        else internal_error quota_path
            (wrap (text "failed to validate against cluster quota, ") e []))
      ∷ [])
  cluster_field_errors panic = panic

  unfoldable pub validate_quota : W → S3UserClaim Q → List FieldError → Result (List FieldError)
  validate_quota w suc all_errs = do
    ns_errs ← namespace_field_errors (validate_against_namespace_quota w suc)
    cluster_errs ← cluster_field_errors (validate_against_cluster_quota w suc)
    ok (all_errs ++ (ns_errs ++ cluster_errs))

  -- The switch on the Get of one secret.
  unfoldable pub secret_field_errors {ℓ} : {A : Type ℓ} → Text → Result A → Result (List FieldError)
  secret_field_errors secret_name (ok _) =
      ok (forbidden spec_path (text "secret " ++ (secret_name ++ text " exists")) ∷ [])
  secret_field_errors secret_name (err e) = ok (
      if has_reason not_found e
      then []
      else internal_error spec_path
          (wrap (text "error with getting secret '" ++ (secret_name ++ text "': ")) e [])
        ∷ [])
  secret_field_errors secret_name panic = panic

  unfoldable pub validate_secrets :
      W → List Text → Text → List FieldError → Result (List FieldError)
  validate_secrets w [] namespace all_errs = ok all_errs
  validate_secrets w (secret_name ∷ secret_names) namespace all_errs = do
    errs ←
        secret_field_errors secret_name
          (secrets.get w (record { namespace = namespace; name = secret_name }))
    validate_secrets w secret_names namespace (all_errs ++ errs)

  abbrev pub to_verdict : Text → Result (List FieldError) → Verdict
  to_verdict name (ok all_errs) = verdict name all_errs
  to_verdict name (err e) = failed e
  to_verdict name panic = crashed

  unfoldable pub validate_create : W → S3UserClaim Q → Verdict
  validate_create w suc = to_verdict suc.meta.name (do
    all_errs ← validate_quota w suc []
    validate_secrets w (suc.spec.admin_secret ∷ suc.spec.readonly_secret ∷ []) suc.meta.namespace
        all_errs)

  -- The names of the secrets that the update changes.
  unfoldable pub changed_secrets : S3UserClaim Q → S3UserClaim Q → List Text
  changed_secrets old suc =
      (if not (old.spec.admin_secret == suc.spec.admin_secret)
        then suc.spec.admin_secret ∷ []
        else [])
      ++ (if not (old.spec.readonly_secret == suc.spec.readonly_secret)
          then suc.spec.readonly_secret ∷ []
          else [])

  unfoldable pub class_field_errors : S3UserClaim Q → S3UserClaim Q → List FieldError
  class_field_errors old suc =
      if not (suc.spec.s3_user_class == old.spec.s3_user_class)
      then forbidden (text "spec.s3UserClass") s3_user_class_immutable_err_message ∷ []
      else []

  unfoldable pub validate_update : W → Object Q → S3UserClaim Q → Verdict
  validate_update w (claim_object old) suc = to_verdict suc.meta.name (do
    all_errs ← validate_quota w suc (class_field_errors old suc)
    validate_secrets w (changed_secrets old suc) suc.meta.namespace all_errs)
  validate_update w (bucket_object _) suc = failed (message (text "internal error"))
  validate_update w other_object suc = failed (message (text "internal error"))

  -- The loop over the buckets of the namespace.
  unfoldable pub has_bucket_of : Text → List S3Bucket → Bool
  has_bucket_of user [] = false
  has_bucket_of user (bucket ∷ items) =
      let rest = has_bucket_of user items in if bucket.spec.s3_user_ref == user then true else rest

  unfoldable pub validate_delete : W → S3UserClaim Q → Verdict
  validate_delete w suc = elim (env.buckets.list w suc.meta.namespace) [
    | ok items ↦
        if has_bucket_of suc.meta.name items
        then failed (
            message (
              text
                "There are existing buckets associated with this userclaim. Please first delete them and try again."))
        else allowed
    | err e ↦ failed e
    | panic ↦ crashed
  ]
