-- ===== src/ClaimController/Progress/Secrets.antt =====
-- The steps that keep the secrets of a claim, where the API server answers: `assembleCephUserSecret`
-- and `ensureSecret` of internal/controllers/s3userclaim/provisioner.go and what calls them.
use ceph_s3_operator.Prelude.{
  ◌≡◌, inl, inr, refl, ap, ◌∙◌, not, ◌||◌, List, [], ◌∷◌, All, arith, Bool-cases,
}
use ceph_s3_operator.Prelude.Text.{Text}
use ceph_s3_operator.Prelude.Assoc.{Assoc}
use ceph_s3_operator.Go.{Result, ok, err, panic}
use ceph_s3_operator.Names.{generate_subuser_full_id, generate_subuser_secret_name}
use ceph_s3_operator.Consts.{data_key_access_key, data_key_secret_key}
use ceph_s3_operator.Api.{Secret, empty_meta}
use ceph_s3_operator.Api.{ObjectMeta, ResourceQuota}
use ceph_s3_operator.Prelude.{refl, ap, ◌∙◌, List, ◌≡◌}
use ceph_s3_operator.Go.{ok}
use mathlib.Core.Path.{subst}
use ceph_s3_operator.Names.{NamespacedName}
use ceph_s3_operator.Env.{Env}
use ceph_s3_operator.Subreconciler.{Signal, continue_reconciling, requeue, do_not_requeue, done}
use ceph_s3_operator.ClaimController.State.{State}
use ceph_s3_operator.ClaimController.Secrets.{
  key_of, assemble_ceph_user_secret, update_secret, ensure_secret, ensure_user_secret,
  ensure_subuser_secrets,
}
use ceph_s3_operator.ClaimController.Progress.{HasKey, SecretThere, Kept, Storing}

module _ {Q W : Type 0} (env : Env Q W) (Known : ObjectMeta → W → Type 0)
    (Listed : List (ResourceQuota Q) → W → Type 0) (objects : Storing env Known Listed) where
  -- The key of a secret of the claim.
  abbrev pub secret_key : State Q W → Text → NamespacedName
  secret_key r name = record { namespace = r.s3_user_claim.meta.namespace; name = name }

  assemble_total :
      (r : State Q W) (user name : Text)
      → HasKey user r.ceph_user
      → (secret : Secret) × (assemble_ceph_user_secret env r user name ≡ ok secret)
        × (key_of secret ≡ secret_key r name)
  unfolding assemble_ceph_user_secret
  assemble_total r user name (key, found) =
      let fresh = record empty_meta { namespace = r.s3_user_claim.meta.namespace; name = name } in
      let (owned, e, ns, n) = objects.owns r.s3_user_claim.meta fresh refl in
      (
        record {
          meta = owned;
          contents =
              (data_key_access_key, key.access_key) ∷ (data_key_secret_key, key.secret_key) ∷ [];
        },
        ground arith,
        λ i. record { namespace = ns i; name = n i },
      )

  update_secret_goes_on :
      (existing secret : Secret) (r : State Q W)
      → env.secrets.get r.world (key_of secret) ≡ ok existing
      → Known r.s3_user_claim.meta r.world
      → (w : W) × (update_secret env existing secret r
          ≡ (ok continue_reconciling, record r { world = w }))
        × Known r.s3_user_claim.meta w
        × SecretThere env (key_of secret) w
  unfolding update_secret
  update_secret_goes_on existing secret r got known =
      elim (Bool-cases (
        not (env.deep_equal (Assoc Text) existing.contents secret.contents)
        || not (env.is_controlled_by existing.meta r.s3_user_claim.meta))) [
          | inl differs ↦
              let (owned, e) =
                objects.owns_found (key_of secret) existing r.s3_user_claim.meta r.world known
                  got in
              let new : Secret = record { meta = owned; contents = secret.contents } in
              let ((stored, e', known'), there) =
                objects.updates_secret (key_of secret) existing new r.s3_user_claim.meta r.world
                  known got e in
              ((env.secrets.update new r.world).1, ground arith, known', there)
          | inr same ↦ (r.world, ground arith, known, (existing, got))
        ]

  ensure_secret_goes_on :
      (secret : Secret) (r : State Q W)
      → Known r.s3_user_claim.meta r.world
      → (w : W) × (ensure_secret env secret r ≡ (ok continue_reconciling, record r { world = w }))
        × Known r.s3_user_claim.meta w
        × SecretThere env (key_of secret) w
  unfolding ensure_secret
  ensure_secret_goes_on secret r known =
      elim (objects.gets_secret (key_of secret) r.s3_user_claim.meta r.world known) [
        | inl (existing, e) ↦
            let (w, ran, known', there) = update_secret_goes_on existing secret r e known in
            (w, rw (ensure_secret, e) ran, known', there)
        | inr (x, e, absent) ↦
            let ((stored, e', known'), there) =
              objects.creates_secret secret x r.s3_user_claim.meta r.world known e absent in
            ((env.secrets.create secret r.world).1, ground arith, known', there)
      ]

  pub ensure_user_secret_goes_on :
      (user name : Text) (r : State Q W)
      → HasKey user r.ceph_user
      → Known r.s3_user_claim.meta r.world
      → (w : W) × (ensure_user_secret env user name r
          ≡ (ok continue_reconciling, record r { world = w }))
        × Known r.s3_user_claim.meta w
        × SecretThere env (secret_key r name) w
  unfolding ensure_user_secret
  ensure_user_secret_goes_on user name r key known =
      let (secret, e, at) = assemble_total r user name key in
      let (w, ran, known', there) = ensure_secret_goes_on secret r known in
      (w, rw (ensure_user_secret, e) ran, known', subst (λ k. SecretThere env k w) at there)

-- The key of the secret of a subuser of the claim, and those of several.
abbrev pub subuser_key : ObjectMeta → Text → NamespacedName
subuser_key claim subuser = record {
  namespace = claim.namespace;
  name = generate_subuser_secret_name claim.name subuser;
}

abbrev pub subuser_keys : ObjectMeta → List Text → List NamespacedName → List NamespacedName
subuser_keys claim [] keys = keys
subuser_keys claim (subuser ∷ subusers) keys =
    subuser_keys claim subusers (subuser_key claim subuser ∷ keys)

pub All-subuser_keys :
    (P : NamespacedName → Type 0) (claim : ObjectMeta) (subusers : List Text)
    (keys : List NamespacedName)
    → All P (subuser_keys claim subusers keys)
    → All (λ s. P (subuser_key claim s)) subusers × All P keys
All-subuser_keys P claim [] keys h = (tt, h)
All-subuser_keys P claim (subuser ∷ subusers) keys h =
    let (rest, here) = All-subuser_keys P claim subusers (subuser_key claim subuser ∷ keys) h in
    ((here.0, rest), here.1)

module _ {Q W : Type 0} (env : Env Q W) (Known : ObjectMeta → W → Type 0)
    (Listed : List (ResourceQuota Q) → W → Type 0)
    (objects : (keys : List NamespacedName) (names : List Text)
      → Storing env (Kept env Known keys names) Listed) where
  -- The secret is kept from now on.
  pub keep_user_secret :
      (keys : List NamespacedName) (user name : Text) (r : State Q W)
      → HasKey user r.ceph_user
      → Kept env Known keys [] r.s3_user_claim.meta r.world
      → (w : W) × (ensure_user_secret env user name r
          ≡ (ok continue_reconciling, record r { world = w }))
        × Kept env Known
            (record { namespace = r.s3_user_claim.meta.namespace; name = name } ∷ keys)
            []
            r.s3_user_claim.meta
            w
  keep_user_secret keys user name r key known =
      let (w, ran, (known', kept, none_kept), there) =
        ensure_user_secret_goes_on env (Kept env Known keys []) Listed (objects keys []) user name r
          key known in
      (w, ran, (known', (there, kept), none_kept))

  pub ensure_subuser_secrets_goes_on :
      (subusers : List Text) (keys : List NamespacedName) (r : State Q W)
      → All (λ s. HasKey (generate_subuser_full_id r.ceph_user_full_id s) r.ceph_user) subusers
      → Kept env Known keys [] r.s3_user_claim.meta r.world
      → (w : W) × (ensure_subuser_secrets env subusers r
          ≡ (ok continue_reconciling, record r { world = w }))
        × Kept env Known (subuser_keys r.s3_user_claim.meta subusers keys) [] r.s3_user_claim.meta w
  unfolding ensure_subuser_secrets
  ensure_subuser_secrets_goes_on [] keys r has known = (r.world, refl, known)
  ensure_subuser_secrets_goes_on (subuser ∷ subusers) keys r has known =
      let name = generate_subuser_secret_name r.s3_user_claim.meta.name subuser in
      let (w, step, known') =
        keep_user_secret keys (generate_subuser_full_id r.ceph_user_full_id subuser) name r has.0
          known in
      let (w', rest, known2) =
        ensure_subuser_secrets_goes_on subusers
          (record { namespace = r.s3_user_claim.meta.namespace; name = name } ∷ keys)
          (record r { world = w }) has.1 known' in
      (
        w',
        ap
              (λ (p : Result Signal × State Q W). elim p.0 [
                | ok signal ↦ elim signal [
                  | continue_reconciling ↦ ensure_subuser_secrets env subusers p.1
                  | requeue ↦ done requeue p.1
                  | do_not_requeue ↦ done do_not_requeue p.1
                ]
                | err e ↦ (err e, p.1)
                | panic ↦ (panic, p.1)
              ])
              step
            ∙ rest,
        known2,
      )
