-- ===== src/ClaimWebhook/Verdicts.antt =====
-- When `ValidateCreate` and `ValidateUpdate` of api/v1alpha1/s3userclaim_webhook.go admit a claim.
use ceph_s3_operator.Prelude.{
  ◌≡◌, ◌≢◌, ◌↔◌, ◌⊎◌, inl, inr, refl, true, not, List, [], ◌∷◌, ◌++◌, arith, All, if◌then◌else◌,
  Bool-cases, sym, ◌∙◌, ap,
}
use mathlib.Core.List.{append-nil}
use ceph_s3_operator.Prelude.Text.{Text, ◌==◌, eq_iff}
use ceph_s3_operator.Go.{
  ok_injective, Error, Result, ok, err, panic, ◌>>=◌, has_reason, Result-cases,
}
use ceph_s3_operator.Api.{S3UserClaim}
use ceph_s3_operator.Env.{Env}
use ceph_s3_operator.ClaimWebhook.{
  FieldError, allowed, verdict, claim_object, validate_against_namespace_quota,
  validate_against_cluster_quota, namespace_field_errors, cluster_field_errors, validate_quota,
  secret_field_errors, validate_secrets, to_verdict, validate_create, changed_secrets,
  class_field_errors, validate_update,
}

append_is_nil : {A : Type 0} (xs ys : List A) → xs ++ ys ≡ [] → (xs ≡ []) × (ys ≡ [])
append_is_nil [] ys e = (refl, e)
append_is_nil (x ∷ xs) ys e = cc

combine_nil :
    {A : Type 0} (xs : List A) (r s : Result (List A))
    → ((do a ← r; b ← s; ok (xs ++ (a ++ b))) ≡ ok []) ↔ ((xs ≡ []) × (r ≡ ok []) × (s ≡ ok []))
combine_nil xs (ok a) (ok b) = ground (arith, append_is_nil xs (a ++ b), append_is_nil a b)
combine_nil xs (ok a) (err e) = ground arith
combine_nil xs (ok a) panic = ground arith
combine_nil xs (err e) s = ground arith
combine_nil xs panic s = ground arith

-- `if old != new { names = append(names, new) }`, under a predicate on the names.
All-changed :
    (P : Text → Type 0) (old new : Text) (rest : List Text)
    → All P ((if not (old == new) then new ∷ [] else []) ++ rest)
      ↔ (((old ≡ new) ⊎ ((old ≢ new) × P new)) × All P rest)
All-changed P old new rest =
    let same = eq_iff old new in
    elim (Bool-cases (old == new)) [
      | inl e ↦ rw e (λ h. (inl (same.0 e), h), λ h. h.1)
      | inr e ↦
          let differ : old ≢ new = λ p. ground (arith, same.1 p) in
          rw e (
            λ h. (inr (differ, h.0), h.1),
            λ (c, r). (elim c [ inl p ↦ absurd (differ p) | inr q ↦ q.1 ], r),
          )
    ]

module _ {Q W : Type 0} (env : Env Q W) where
  open env use {secrets, not_found}

  -- The Get of the secret answers that there is none.
  abbrev pub IsAbsent : W → Text → Text → Type 0
  IsAbsent w namespace name =
      (e : Error) × (secrets.get w (record { namespace = namespace; name = name }) ≡ err e)
      × (has_reason not_found e ≡ true)

  namespace_field_errors_nil :
      (r : Result (Unit {0})) → (namespace_field_errors env r ≡ ok []) ↔ (r ≡ ok tt)
  unfolding namespace_field_errors
  namespace_field_errors_nil r = ground arith

  cluster_field_errors_nil :
      (r : Result (Unit {0})) → (cluster_field_errors env r ≡ ok []) ↔ (r ≡ ok tt)
  unfolding cluster_field_errors
  cluster_field_errors_nil r = ground arith

  -- No error is left exactly if there was none before and both validators return nil.
  validate_quota_nil :
      (w : W) (suc : S3UserClaim Q) (all_errs : List FieldError)
      → (validate_quota env w suc all_errs ≡ ok []) ↔ (
          (all_errs ≡ [])
          × (validate_against_namespace_quota env w suc ≡ ok tt)
          × (validate_against_cluster_quota env w suc ≡ ok tt))
  unfolding validate_quota
  validate_quota_nil w suc all_errs =
      let r = validate_against_namespace_quota env w suc in
      let s = validate_against_cluster_quota env w suc in
      let both = combine_nil all_errs (namespace_field_errors env r) (cluster_field_errors env s) in
      let left = namespace_field_errors_nil r in
      let right = cluster_field_errors_nil s in
      (
        λ e. let (x, a, b) = both.0 e in (x, left.0 a, right.0 b),
        λ (x, a, b). both.1 (x, left.1 a, right.1 b),
      )

  -- The switch of `validateSecrets` adds no error exactly if the secret is absent.
  secret_field_errors_nil :
      {A : Type 0} (name : Text) (r : Result A)
      → (secret_field_errors env name r ≡ ok [])
        ↔ ((e : Error) × (r ≡ err e) × (has_reason not_found e ≡ true))
  unfolding secret_field_errors
  secret_field_errors_nil name (ok a) = (λ h. ground arith, λ (e, p, h). cc)
  secret_field_errors_nil name (err x) = elim (Bool-cases (has_reason not_found x)) [
    | inl absent ↦ (λ h. (x, refl, absent), λ _. rw absent)
    | inr other ↦ (λ h. ground arith, λ (e, p, h). ground arith)
  ]
  secret_field_errors_nil name panic = (λ h. cc, λ (e, p, h). cc)

  validate_secrets_nil :
      (w : W) (names : List Text) (namespace : Text) (all_errs : List FieldError)
      → (validate_secrets env w names namespace all_errs ≡ ok [])
        ↔ ((all_errs ≡ []) × All (IsAbsent w namespace) names)
  unfolding validate_secrets
  validate_secrets_nil w [] namespace all_errs = (λ h. (ok_injective h, tt), λ h. ap ok h.0)
  validate_secrets_nil w (name ∷ names) namespace all_errs =
      let found = secrets.get w (record { namespace = namespace; name = name }) in
      let one = secret_field_errors_nil name found in
      elim (Result-cases (secret_field_errors env name found)) [
        | inl (errs, e) ↦
            let rest = validate_secrets_nil w names namespace (all_errs ++ errs) in
            (
              λ h.
                  let (none_yet, others) = rest.0 (ground arith) in
                  let (x, y) = append_is_nil all_errs errs none_yet in
                  (x, (one.0 (e ∙ ap ok y), others)),
              λ h.
                  let y : errs ≡ [] = ok_injective (sym e ∙ one.1 h.1.0) in
                  rw (e, y, h.0) ((validate_secrets_nil w names namespace []).1 (refl, h.1.1)),
            )
        | inr bad ↦ (λ h. ground arith, λ h. ground (arith, one.1 h.1.0))
      ]

  to_verdict-allowed :
      (name : Text) (r : Result (List FieldError)) → (to_verdict env name r ≡ allowed) ↔ (r ≡ ok [])
  unfolding verdict
  to_verdict-allowed name r = ground arith

  -- What both the creation and the update do after the class has been checked.
  checks_nil :
      (w : W) (suc : S3UserClaim Q) (errs : List FieldError) (names : List Text)
      → (to_verdict env suc.meta.name (do
        all_errs ← validate_quota env w suc errs
        validate_secrets env w names suc.meta.namespace all_errs)
          ≡ allowed)
        ↔ ((errs ≡ [])
            × (validate_against_namespace_quota env w suc ≡ ok tt)
            × (validate_against_cluster_quota env w suc ≡ ok tt)
            × All (IsAbsent w suc.meta.namespace) names)
  checks_nil w suc errs names = elim (Result-cases (validate_quota env w suc errs)) [
    | inl (found, e) ↦
        let verdict_iff =
          to_verdict-allowed suc.meta.name
            (validate_secrets env w names suc.meta.namespace found) in
        let secrets_iff = validate_secrets_nil w names suc.meta.namespace found in
        let quota_iff = validate_quota_nil w suc errs in
        rw e (
          λ h.
              let (nothing, absent) = secrets_iff.0 (verdict_iff.0 h) in
              let (x, a, b) = quota_iff.0 (e ∙ ap ok nothing) in (x, a, b, absent),
          λ (x, a, b, absent).
              let nothing : found ≡ [] = ok_injective (sym e ∙ quota_iff.1 (x, a, b)) in
              verdict_iff.1 (secrets_iff.1 (nothing, absent)),
        )
    | inr bad ↦
        let quota_iff = validate_quota_nil w suc errs in
        (λ h. ground arith, λ (x, a, b, absent). ground (arith, quota_iff.1 (x, a, b)))
  ]

  -- The creation of a claim is admitted exactly if both quota validators return nil and the Get of
  -- each of its two secrets answers that there is none.
  pub validate_create_iff :
      (w : W) (suc : S3UserClaim Q)
      → (validate_create env w suc ≡ allowed) ↔ (
          (validate_against_namespace_quota env w suc ≡ ok tt)
          × (validate_against_cluster_quota env w suc ≡ ok tt)
          × IsAbsent w suc.meta.namespace suc.spec.admin_secret
          × IsAbsent w suc.meta.namespace suc.spec.readonly_secret)
  unfolding validate_create
  validate_create_iff w suc =
      let iff = checks_nil w suc [] (suc.spec.admin_secret ∷ suc.spec.readonly_secret ∷ []) in
      (
        λ h. let (_, a, b, s) = iff.0 h in (a, b, s.0, s.1.0),
        λ (a, b, s, t). iff.1 (refl, a, b, (s, (t, tt))),
      )

  class_field_errors_nil :
      (old suc : S3UserClaim Q)
      → (class_field_errors env old suc ≡ []) ↔ (suc.spec.s3_user_class ≡ old.spec.s3_user_class)
  unfolding class_field_errors
  class_field_errors_nil old suc =
      ground (arith, eq_iff suc.spec.s3_user_class old.spec.s3_user_class)

  changed_secrets-All :
      (P : Text → Type 0) (old suc : S3UserClaim Q)
      → All P (changed_secrets env old suc) ↔ (
          ((old.spec.admin_secret ≡ suc.spec.admin_secret)
            ⊎ ((old.spec.admin_secret ≢ suc.spec.admin_secret) × P suc.spec.admin_secret))
          × ((old.spec.readonly_secret ≡ suc.spec.readonly_secret)
              ⊎ ((old.spec.readonly_secret ≢ suc.spec.readonly_secret)
                  × P suc.spec.readonly_secret)))
  unfolding changed_secrets
  changed_secrets-All P old suc =
      let readonly : List Text =
        if not (old.spec.readonly_secret == suc.spec.readonly_secret)
        then suc.spec.readonly_secret ∷ []
        else [] in
      let first = All-changed P old.spec.admin_secret suc.spec.admin_secret readonly in
      let second = All-changed P old.spec.readonly_secret suc.spec.readonly_secret [] in
      (
        λ h. let (admin, more) = first.0 h in (admin, (second.0 (rw append-nil more)).0),
        λ (admin, other). first.1 (admin, rw append-nil at (second.1 (other, tt))),
      )

  -- A secret's name in the update is new: another than the old claim's, and not there.
  abbrev pub UnchangedOrAbsent : W → Text → Text → Text → Type 0
  UnchangedOrAbsent w namespace old new = (old ≡ new) ⊎ ((old ≢ new) × IsAbsent w namespace new)

  -- An update of a claim is admitted exactly if the class stays, both quota validators return nil,
  -- and each of the two secrets keeps its name or has a new one under which there is none.
  pub validate_update_iff :
      (w : W) (old suc : S3UserClaim Q)
      → (validate_update env w (claim_object old) suc ≡ allowed) ↔ (
          (suc.spec.s3_user_class ≡ old.spec.s3_user_class)
          × (validate_against_namespace_quota env w suc ≡ ok tt)
          × (validate_against_cluster_quota env w suc ≡ ok tt)
          × UnchangedOrAbsent w suc.meta.namespace old.spec.admin_secret suc.spec.admin_secret
          × UnchangedOrAbsent w suc.meta.namespace old.spec.readonly_secret
              suc.spec.readonly_secret)
  unfolding validate_update
  validate_update_iff w old suc =
      let changes = changed_secrets-All (IsAbsent w suc.meta.namespace) old suc in
      let class = class_field_errors_nil old suc in
      let iff = checks_nil w suc (class_field_errors env old suc) (changed_secrets env old suc) in
      (
        λ h.
            let (c, a, b, s) = iff.0 h in
            let (admin, readonly) = changes.0 s in (class.0 c, a, b, admin, readonly),
        λ (c, a, b, admin, readonly). iff.1 (class.1 c, a, b, changes.1 (admin, readonly)),
      )
