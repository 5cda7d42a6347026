-- ===== src/ClaimController/Secrets/Stored.antt =====
-- What `ensureSecret` of internal/controllers/s3userclaim/provisioner.go leaves in the cluster.
use ceph_s3_operator.Prelude.{◌≡◌, inl, inr, refl, true, not, ◌||◌, arith, Bool-cases, ap, ◌∙◌}
use mathlib.Core.Path.{subst}
use ceph_s3_operator.Prelude.Text.{Text}
use ceph_s3_operator.Prelude.Assoc.{Assoc, lookup}
use ceph_s3_operator.Go.{ok, Result-cases}
use ceph_s3_operator.Names.{NamespacedName}
use ceph_s3_operator.Api.{ObjectMeta, Secret}
use ceph_s3_operator.Env.{Env}
use ceph_s3_operator.Subreconciler.{continue_reconciling, done, handle}
use ceph_s3_operator.ClaimController.State.{State}
use ceph_s3_operator.ClaimController.CephUser.{in_world, give_up}
use ceph_s3_operator.ClaimController.Secrets.{key_of, update_secret, ensure_secret}

-- A stored secret has the contents and the owners of the one that was sent.
pub record IsStored {Q W : Type 0} (env : Env Q W) (w : W) (sent : Secret) : Type 0 where
  pub stored : Secret
  pub found : env.secrets.get w (key_of sent) ≡ ok stored
  pub contents : stored.contents ≡ sent.contents
  pub owners : stored.meta.owner_references ≡ sent.meta.owner_references

-- What the Kubernetes libraries document of secrets and owners.
pub record SecretLaws {Q W : Type 0} (env : Env Q W) : Type 0 where
  -- a secret is found under its own key
  pub got_key :
      (w : W) (key : NamespacedName) (s : Secret) → env.secrets.get w key ≡ ok s → key_of s ≡ key
  pub created :
      (s t : Secret) (w : W)
      → (env.secrets.create s w).0 ≡ ok t
      → IsStored env (env.secrets.create s w).1 s
  pub updated :
      (s t : Secret) (w : W)
      → (env.secrets.update s w).0 ≡ ok t
      → IsStored env (env.secrets.update s w).1 s
  pub equal_contents :
      (a b : Assoc Text)
      → env.deep_equal (Assoc Text) a b ≡ true
      → (k : Text) → lookup k a ≡ lookup k b
  -- an owner is set on the references alone, and then controls
  pub referenced :
      (owner m m' : ObjectMeta)
      → env.set_controller_reference owner m ≡ ok m'
      → (env.is_controlled_by m' owner ≡ true) × (m'.name ≡ m.name) × (m'.namespace ≡ m.namespace)
  pub by_owners :
      (owner m m' : ObjectMeta)
      → m.owner_references ≡ m'.owner_references
      → env.is_controlled_by m owner ≡ env.is_controlled_by m' owner

-- The cluster has a secret under the key with these contents, which `owner` controls.
pub record Holds {Q W : Type 0} (env : Env Q W) (w : W) (secret : Secret) (owner : ObjectMeta)
    : Type 0 where
  pub kept : Secret
  pub found : env.secrets.get w (key_of secret) ≡ ok kept
  pub contents : (k : Text) → lookup k kept.contents ≡ lookup k secret.contents
  pub controlled : env.is_controlled_by kept.meta owner ≡ true

module _ {Q W : Type 0} (env : Env Q W) (laws : SecretLaws env) where
  open laws use {got_key, created, updated, equal_contents, referenced, by_owners}

  stored-Holds :
      (w : W) (sent secret : Secret) (owner : ObjectMeta)
      → key_of sent ≡ key_of secret
      → sent.contents ≡ secret.contents
      → env.is_controlled_by sent.meta owner ≡ true
      → IsStored env w sent
      → Holds env w secret owner
  stored-Holds w sent secret owner key contents controlled h = record {
    kept = h.stored;
    found = rw (← key) h.found;
    contents = λ k. ap (lookup k) (h.contents ∙ contents);
    controlled = by_owners owner h.stored.meta sent.meta h.owners ∙ controlled;
  }

  -- The branch of the update, where the references have been set.
  written-Holds :
      (owned : ObjectMeta) (existing secret : Secret) (r r' : State Q W)
      → env.secrets.get r.world (key_of secret) ≡ ok existing
      → env.set_controller_reference r.s3_user_claim.meta existing.meta ≡ ok owned
      → handle
          (in_world r
            (env.secrets.update (record { meta = owned; contents = secret.contents }) r.world))
          (give_up env)
          (λ _. done continue_reconciling)
        ≡ (ok continue_reconciling, r')
      → Holds env r'.world secret r.s3_user_claim.meta
  written-Holds owned existing secret r r' found set h =
      let sent : Secret = record { meta = owned; contents = secret.contents } in
      let (controlled, name, namespace) = referenced r.s3_user_claim.meta existing.meta owned set in
      let key = got_key r.world (key_of secret) existing found in
      elim (Result-cases (env.secrets.update sent r.world).0) [
        | inr bad ↦ ground arith
        | inl (t, e) ↦
            let same : (env.secrets.update sent r.world).1 ≡ r'.world = ground arith in
            subst (λ w. Holds env w secret r.s3_user_claim.meta) same
              (stored-Holds (env.secrets.update sent r.world).1 sent secret r.s3_user_claim.meta
                ((λ i. record { namespace = namespace i; name = name i }) ∙ key) refl controlled
                (updated sent t r.world e))
      ]

  update_secret-Holds :
      (existing secret : Secret) (r r' : State Q W)
      → env.secrets.get r.world (key_of secret) ≡ ok existing
      → update_secret env existing secret r ≡ (ok continue_reconciling, r')
      → Holds env r'.world secret r.s3_user_claim.meta
  unfolding update_secret
  update_secret-Holds existing secret r r' found h =
      let changed =
        not (env.deep_equal (Assoc Text) existing.contents secret.contents)
        || not (env.is_controlled_by existing.meta r.s3_user_claim.meta) in
      elim (Bool-cases changed) [
        | inl c ↦
            elim (Result-cases (env.set_controller_reference r.s3_user_claim.meta existing.meta)) [
              | inr bad ↦ ground arith
              | inl (owned, e) ↦ written-Holds owned existing secret r r' found e (ground arith)
            ]
        | inr same ↦
            let there : r.world ≡ r'.world = ground arith in
            subst (λ w. Holds env w secret r.s3_user_claim.meta) there
              (record {
                kept = existing;
                found = found;
                contents = equal_contents existing.contents secret.contents (ground arith);
                controlled = ground arith;
              })
      ]

  -- Under the laws of secrets: where the step for a secret that the claim controls has gone
  -- through, the cluster has a secret under its key with the same contents, controlled by the
  -- claim.
  pub ensure_secret-Holds :
      (secret : Secret) (r r' : State Q W)
      → env.is_controlled_by secret.meta r.s3_user_claim.meta ≡ true
      → ensure_secret env secret r ≡ (ok continue_reconciling, r')
      → Holds env r'.world secret r.s3_user_claim.meta
  unfolding ensure_secret
  ensure_secret-Holds secret r r' controlled h =
      elim (Result-cases (env.secrets.get r.world (key_of secret))) [
        | inl (existing, e) ↦ update_secret-Holds existing secret r r' e (ground arith)
        | inr (inr e) ↦ ground arith
        | inr (inl (x, e)) ↦ elim (Result-cases (env.secrets.create secret r.world).0) [
          | inr bad ↦ ground arith
          | inl (t, c) ↦
              let same : (env.secrets.create secret r.world).1 ≡ r'.world = ground arith in
              subst (λ w. Holds env w secret r.s3_user_claim.meta) same
                (stored-Holds (env.secrets.create secret r.world).1 secret secret
                  r.s3_user_claim.meta refl refl controlled (created secret t r.world c))
        ]
      ]
