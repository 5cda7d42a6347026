-- ===== src/ClaimController/Secrets/Keys.antt =====
-- `assembleCephUserSecret` and `ensureSecret` of internal/controllers/s3userclaim/provisioner.go
-- together, for one user.
use ceph_s3_operator.Prelude.{
  ◌≡◌, inl, inr, true, some, List, [], ◌∷◌, arith, In, Bool-cases, Option-cases, ap, ◌∙◌, sym,
}
use mathlib.Core.Path.{subst}
use ceph_s3_operator.Prelude.Text.{Text, ◌==◌, eq_iff}
use ceph_s3_operator.Prelude.Assoc.{Assoc, lookup}
use ceph_s3_operator.Go.{ok, Result-cases}
use ceph_s3_operator.Consts.{data_key_access_key, data_key_secret_key}
use ceph_s3_operator.Api.{ObjectMeta, UserKeySpec, Secret, empty_meta}
use ceph_s3_operator.Env.{Env}
use ceph_s3_operator.Subreconciler.{continue_reconciling}
use ceph_s3_operator.ClaimController.State.{State}
use ceph_s3_operator.ClaimController.Secrets.{
  find_key, key_of, assemble_ceph_user_secret, ensure_secret, ensure_user_secret,
}
use ceph_s3_operator.ClaimController.Secrets.Stored.{SecretLaws, ensure_secret-Holds}

-- The secret of this namespace and name has the two parts of the key, and `owner` controls it.
pub record HoldsKey {Q W : Type 0} (env : Env Q W) (w : W) (owner : ObjectMeta) (name : Text)
    (key : UserKeySpec) : Type 0 where
  pub kept : Secret
  pub found : env.secrets.get w (record { namespace = owner.namespace; name = name }) ≡ ok kept
  pub access : lookup data_key_access_key kept.contents ≡ some key.access_key
  pub secret : lookup data_key_secret_key kept.contents ≡ some key.secret_key
  pub controlled : env.is_controlled_by kept.meta owner ≡ true

-- The key found is one of the list, and its user has the name.
pub find_key_found :
    (user : Text) (keys : List UserKeySpec) (key : UserKeySpec)
    → find_key user keys ≡ some key
    → In key keys × (key.user ≡ user)
unfolding find_key
find_key_found user [] key h = cc h
find_key_found user (k ∷ keys) key h = elim (Bool-cases (k.user == user)) [
  | inl e ↦
      let same : k ≡ key = ground arith in
      (inl same, ap (λ (x : UserKeySpec). x.user) (sym same) ∙ (eq_iff k.user user).0 e)
  | inr e ↦ let (m, u) = find_key_found user keys key (ground arith) in (inr m, u)
]

module _ {Q W : Type 0} (env : Env Q W) (laws : SecretLaws env) where
  open laws use {referenced}

  -- An assembled secret has the two parts of a key of the user, its owner, and its place.
  abbrev pub keyed_contents : UserKeySpec → Assoc Text
  keyed_contents key =
      (data_key_access_key, key.access_key) ∷ (data_key_secret_key, key.secret_key) ∷ []

  pub assembled :
      (user name : Text) (r : State Q W) (secret : Secret)
      → assemble_ceph_user_secret env r user name ≡ ok secret
      → (key : UserKeySpec) × (find_key user r.ceph_user.keys ≡ some key)
        × (secret.contents ≡ keyed_contents key)
        × (env.is_controlled_by secret.meta r.s3_user_claim.meta ≡ true)
        × (key_of secret ≡ record { namespace = r.s3_user_claim.meta.namespace; name = name })
  unfolding assemble_ceph_user_secret
  assembled user name r secret h =
      let owner = r.s3_user_claim.meta in
      let wanted = record empty_meta { namespace = owner.namespace; name = name } in
      elim (Option-cases (find_key user r.ceph_user.keys)) [
        | inl missing ↦ ground arith
        | inr (key, e) ↦ elim (Result-cases (env.set_controller_reference owner wanted)) [
          | inr bad ↦ ground arith
          | inl (owned, c) ↦
              let made : record { meta = owned; contents = keyed_contents key } ≡ secret =
                ground arith in
              let (controlled, same_name, same_namespace) = referenced owner wanted owned c in
              (
                key,
                e,
                ap (λ (s : Secret). s.contents) (sym made),
                ap (λ (s : Secret). env.is_controlled_by s.meta owner) (sym made) ∙ controlled,
                ap key_of (sym made)
                    ∙ (λ i. record { namespace = same_namespace i; name = same_name i }),
              )
        ]
      ]

  -- Under the laws of secrets: where the step for one user has gone through, the user has a key,
  -- and the cluster has the secret of that key under the name, controlled by the claim.
  pub ensure_user_secret-HoldsKey :
      (user name : Text) (r r' : State Q W)
      → ensure_user_secret env user name r ≡ (ok continue_reconciling, r')
      → (key : UserKeySpec) × (find_key user r.ceph_user.keys ≡ some key)
        × HoldsKey env r'.world r.s3_user_claim.meta name key
  unfolding ensure_user_secret lookup ◌==◌
  ensure_user_secret-HoldsKey user name r r' h =
      elim (Result-cases (assemble_ceph_user_secret env r user name)) [
        | inr bad ↦ ground arith
        | inl (secret, e) ↦
            let (key, found, contents, controlled, place) = assembled user name r secret e in
            let went : ensure_secret env secret r ≡ (ok continue_reconciling, r') = rw e at h in
            let held = ensure_secret-Holds env laws secret r r' controlled went in
            (
              key,
              found,
              record {
                kept = held.kept;
                found = subst (λ k. env.secrets.get r'.world k ≡ ok held.kept) place held.found;
                access =
                    held.contents data_key_access_key ∙ ap (lookup data_key_access_key) contents;
                secret =
                    held.contents data_key_secret_key ∙ ap (lookup data_key_secret_key) contents;
                controlled = held.controlled;
              },
            )
      ]
