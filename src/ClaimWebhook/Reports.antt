-- ===== src/ClaimWebhook/Reports.antt =====
-- What the validators of api/v1alpha1/s3userclaim_webhook.go report where they refuse a claim.
use ceph_s3_operator.Prelude.{
  ◌≡◌, ◌≢◌, ◌⊎◌, inl, inr, refl, true, false, Option, none, some, List, [], ◌∷◌, ◌++◌, arith, All,
  In, All-append, All-of_In, Bool-cases,
}
use ceph_s3_operator.Prelude.Text.{Text, text, ◌==◌, eq_iff}
use ceph_s3_operator.Go.{
  Error, Result, ok, err, panic, wrap, ◌>>=◌, is_custom, wraps_custom, has_reason, error_text,
}
use ceph_s3_operator.Consts.{
  exceeded_namespace_quota, exceeded_cluster_quota, cluster_quota_not_defined,
  s3_user_class_immutable_err_message,
}
use ceph_s3_operator.Api.{S3UserClaim, Secret}
use ceph_s3_operator.Env.{Env}
use ceph_s3_operator.ClaimWebhook.{
  FieldError, forbidden, internal_error, Verdict, allowed, invalid, failed, crashed, verdict,
  claim_object, validate_against_namespace_quota, validate_against_cluster_quota, quota_path,
  spec_path, namespace_field_errors, cluster_field_errors, validate_quota, secret_field_errors,
  validate_secrets, to_verdict, validate_create, changed_secrets, class_field_errors,
  validate_update,
}

module _ {Q W : Type 0} (env : Env Q W) (w : W) (suc : S3UserClaim Q) where
  -- Why a field error is reported for the claim, where the secrets of the given names are looked
  -- for, and an update has an old claim.
  pub data Reason (old : Option (S3UserClaim Q)) (names : List Text) : FieldError → Type 0 where
    class_changed :
        (was : S3UserClaim Q)
        → old ≡ some was
        → suc.spec.s3_user_class ≢ was.spec.s3_user_class
        → Reason old names (forbidden (text "spec.s3UserClass") s3_user_class_immutable_err_message)
    namespace_exceeded :
        (e : Error)
        → validate_against_namespace_quota env w suc ≡ err e
        → is_custom exceeded_namespace_quota e ≡ true
        → Reason old names (forbidden (quota_path env) (error_text e))
    namespace_failed :
        (e : Error)
        → validate_against_namespace_quota env w suc ≡ err e
        → is_custom exceeded_namespace_quota e ≡ false
        → Reason old names (
            internal_error
              (quota_path env)
              (wrap (text "failed to validate against cluster quota, ") e []))
    cluster_exceeded :
        (e : Error)
        → validate_against_cluster_quota env w suc ≡ err e
        → (is_custom exceeded_cluster_quota e ≡ true)
          ⊎ (wraps_custom cluster_quota_not_defined e ≡ true)
        → Reason old names (forbidden (quota_path env) (error_text e))
    cluster_failed :
        (e : Error)
        → validate_against_cluster_quota env w suc ≡ err e
        → is_custom exceeded_cluster_quota e ≡ false
        → wraps_custom cluster_quota_not_defined e ≡ false
        → Reason old names (
            internal_error
              (quota_path env)
              (wrap (text "failed to validate against cluster quota, ") e []))
    secret_exists :
        (name : Text) (secret : Secret)
        → In name names
        → env.secrets.get w (record { namespace = suc.meta.namespace; name = name }) ≡ ok secret
        → Reason old names (forbidden (spec_path env) (text "secret " ++ (name ++ text " exists")))
    secret_failed :
        (name : Text) (e : Error)
        → In name names
        → env.secrets.get w (record { namespace = suc.meta.namespace; name = name }) ≡ err e
        → has_reason env.not_found e ≡ false
        → Reason old names (
            internal_error
              (spec_path env)
              (wrap (text "error with getting secret '" ++ (name ++ text "': ")) e []))

  module _ (old : Option (S3UserClaim Q)) (names : List Text) where
    -- A validator reports what has a reason, if it does not panic.
    abbrev Reported : Result (List FieldError) → Type 0
    Reported (ok errs) = All (Reason old names) errs
    Reported (err e) = ⊥
    Reported panic = Unit

    bind-Reported :
        (r : Result (List FieldError)) (k : List FieldError → Result (List FieldError))
        → Reported r
        → ((errs : List FieldError) → All (Reason old names) errs → Reported (k errs))
        → Reported (r >>= k)
    bind-Reported (ok errs) k h h' = h' errs h
    bind-Reported (err e) k h h' = h
    bind-Reported panic k h h' = tt

    namespace-Reported :
        (r : Result (Unit {0}))
        → validate_against_namespace_quota env w suc ≡ r
        → Reported (namespace_field_errors env r)
    unfolding namespace_field_errors
    namespace-Reported (ok u) h = tt
    namespace-Reported (err e) h = elim (Bool-cases (is_custom exceeded_namespace_quota e)) [
      | inl c ↦ rw c (Reason.namespace_exceeded e h c, tt)
      | inr c ↦ rw c (Reason.namespace_failed e h c, tt)
    ]
    namespace-Reported panic h = tt

    cluster-Reported :
        (r : Result (Unit {0}))
        → validate_against_cluster_quota env w suc ≡ r
        → Reported (cluster_field_errors env r)
    unfolding cluster_field_errors
    cluster-Reported (ok u) h = tt
    cluster-Reported (err e) h = elim (Bool-cases (is_custom exceeded_cluster_quota e)) [
      | inl c ↦ rw c (Reason.cluster_exceeded e h (inl c), tt)
      | inr c ↦ elim (Bool-cases (wraps_custom cluster_quota_not_defined e)) [
        | inl d ↦ rw (c, d) (Reason.cluster_exceeded e h (inr d), tt)
        | inr d ↦ rw (c, d) (Reason.cluster_failed e h c d, tt)
      ]
    ]
    cluster-Reported panic h = tt

    secret-Reported :
        (name : Text) (r : Result Secret)
        → In name names
        → env.secrets.get w (record { namespace = suc.meta.namespace; name = name }) ≡ r
        → Reported (secret_field_errors env name r)
    unfolding secret_field_errors
    secret-Reported name (ok secret) i h = (Reason.secret_exists name secret i h, tt)
    secret-Reported name (err e) i h = elim (Bool-cases (has_reason env.not_found e)) [
      | inl c ↦ rw c tt
      | inr c ↦ rw c (Reason.secret_failed name e i h c, tt)
    ]
    secret-Reported name panic i h = tt

    validate_quota-Reported :
        (all_errs : List FieldError)
        → All (Reason old names) all_errs
        → Reported (validate_quota env w suc all_errs)
    unfolding validate_quota
    validate_quota-Reported all_errs h =
        bind-Reported _ _ (namespace-Reported _ refl) (λ ns_errs hn.
          bind-Reported _ _ (cluster-Reported _ refl)
            (λ cluster_errs hc. All-append _ all_errs _ h (All-append _ ns_errs _ hn hc)))

    validate_secrets-Reported :
        (secret_names : List Text) (all_errs : List FieldError)
        → All (λ name. In name names) secret_names
        → All (Reason old names) all_errs
        → Reported (validate_secrets env w secret_names suc.meta.namespace all_errs)
    unfolding validate_secrets
    validate_secrets-Reported [] all_errs i h = h
    validate_secrets-Reported (name ∷ secret_names) all_errs i h =
        bind-Reported _ _ (secret-Reported name _ i.0 refl) (λ errs he.
          validate_secrets-Reported secret_names (all_errs ++ errs) i.1
            (All-append _ all_errs errs h he))

    -- A refusal names the claim and has at least one error, each with a reason; no validator
    -- returns another error.
    abbrev pub IsExplained : Verdict → Type 0
    IsExplained allowed = Unit
    IsExplained (invalid name errs) =
        (name ≡ suc.meta.name) × (errs ≢ []) × All (Reason old names) errs
    IsExplained (failed e) = ⊥
    IsExplained crashed = Unit

    to_verdict-IsExplained :
        (r : Result (List FieldError)) → Reported r → IsExplained (to_verdict env suc.meta.name r)
    unfolding verdict
    to_verdict-IsExplained (ok []) h = tt
    to_verdict-IsExplained (ok (e ∷ errs)) h = (refl, (λ p. ground arith), h)
    to_verdict-IsExplained (err e) h = h
    to_verdict-IsExplained panic h = tt

  -- The creation of a claim is admitted, or refused with at least one error, or ends in a panic. Each
  -- error that is reported has its reason: that the namespace's or the team's quota is exceeded,
  -- that the team's is not defined, that one of these checks or the look for a secret has failed, or
  -- that one of the two secrets exists; and it has the text of that reason.
  pub validate_create-IsExplained :
      IsExplained none
        (suc.spec.admin_secret ∷ suc.spec.readonly_secret ∷ [])
        (validate_create env w suc)
  unfolding validate_create
  validate_create-IsExplained =
      let names = suc.spec.admin_secret ∷ suc.spec.readonly_secret ∷ [] in
      to_verdict-IsExplained none names _ (
        bind-Reported none names _ _ (validate_quota-Reported none names [] tt) (λ errs h.
          validate_secrets-Reported none names names errs (inl refl, (inr (inl refl), tt)) h))

  class-Reported :
      (was : S3UserClaim Q) (names : List Text)
      → All (Reason (some was) names) (class_field_errors env was suc)
  unfolding class_field_errors
  class-Reported was names =
      let same = eq_iff suc.spec.s3_user_class was.spec.s3_user_class in
      elim (Bool-cases (suc.spec.s3_user_class == was.spec.s3_user_class)) [
        | inl c ↦ rw c tt
        | inr c ↦ rw c (Reason.class_changed was refl (λ e. let d = same.1 e in ground arith), tt)
      ]

  -- The update of a claim is admitted, or refused with at least one error, or ends in a panic. Each
  -- error that is reported has its reason: that the class changes, one of those of the quotas, or
  -- that a secret whose name changes exists, or cannot be looked for.
  pub validate_update-IsExplained :
      (was : S3UserClaim Q)
      → IsExplained
          (some was)
          (changed_secrets env was suc)
          (validate_update env w (claim_object was) suc)
  unfolding validate_update
  validate_update-IsExplained was =
      let names = changed_secrets env was suc in
      to_verdict-IsExplained (some was) names _ (
        bind-Reported (some was) names _ _
          (validate_quota-Reported (some was) names _ (class-Reported was names))
          (λ errs h.
            validate_secrets-Reported (some was) names names errs
              (All-of_In (λ name. In name names) names (λ name i. i)) h))
