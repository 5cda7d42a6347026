-- ===== src/ClaimController/Secrets/Complete.antt =====
-- `ensureOtherSubusersSecret` of internal/controllers/s3userclaim/provisioner.go: all the secrets
-- of one round of the loop together.
use ceph_s3_operator.Prelude.{
  ◌≡◌, ◌≢◌, inl, inr, refl, false, not, ◌||◌, some, List, [], ◌∷◌, arith, All, Bool-cases, ap, ◌∙◌,
}
use mathlib.Core.Path.{subst}
use ceph_s3_operator.Prelude.Text.{Text, eq_iff, append_left_injective}
use ceph_s3_operator.Prelude.Assoc.{Assoc}
use ceph_s3_operator.Go.{ok, Result-cases}
use ceph_s3_operator.Names.{NamespacedName, generate_subuser_full_id, generate_subuser_secret_name}
use ceph_s3_operator.Api.{UserKeySpec, Secret}
use ceph_s3_operator.Env.{Env}
use ceph_s3_operator.Subreconciler.{continue_reconciling}
use ceph_s3_operator.ClaimController.State.{State}
use ceph_s3_operator.ClaimController.Subusers.Tags.{mem, Distinct}
use ceph_s3_operator.ClaimController.Secrets.{
  find_key, key_of, assemble_ceph_user_secret, update_secret, ensure_secret, ensure_user_secret,
  ensure_subuser_secrets, ensure_other_subusers_secret,
}
use ceph_s3_operator.ClaimController.Secrets.Stored.{SecretLaws}
use ceph_s3_operator.ClaimController.Secrets.Keys.{HoldsKey, assembled, ensure_user_secret-HoldsKey}

-- A write of a secret leaves those under other keys as they were.
pub record SecretFrame {Q W : Type 0} (env : Env Q W) : Type 0 where
  pub created :
      (s t : Secret) (w : W) (key : NamespacedName)
      → (env.secrets.create s w).0 ≡ ok t
      → key ≢ key_of s
      → env.secrets.get (env.secrets.create s w).1 key ≡ env.secrets.get w key
  pub updated :
      (s t : Secret) (w : W) (key : NamespacedName)
      → (env.secrets.update s w).0 ≡ ok t
      → key ≢ key_of s
      → env.secrets.get (env.secrets.update s w).1 key ≡ env.secrets.get w key

-- Where the secret of a subuser of the claim is.
abbrev secret_of : {Q W : Type 0} → State Q W → Text → NamespacedName
secret_of r subuser = record {
  namespace = r.s3_user_claim.meta.namespace;
  name = generate_subuser_secret_name r.s3_user_claim.meta.name subuser;
}

generate_subuser_secret_name_injective :
    (claim s t : Text)
    → generate_subuser_secret_name claim s ≡ generate_subuser_secret_name claim t
    → s ≡ t
unfolding generate_subuser_secret_name
generate_subuser_secret_name_injective claim s t e =
    let rest : b'-' ∷ s ≡ b'-' ∷ t = append_left_injective claim (b'-' ∷ s) (b'-' ∷ t) e in
    ground arith

module _ {Q W : Type 0} (env : Env Q W) where
  ensure_user_secret_keeps :
      (user name : Text) (r : State Q W)
      → (ensure_user_secret env user name r).1
        ≡ record r { world = (ensure_user_secret env user name r).1.world }
  unfolding ensure_user_secret ensure_secret update_secret
  ensure_user_secret_keeps user name r = ground arith

  -- One turn of the loop that goes through: its step has, and left all fields but the world.
  loop_step :
      (s : Text) (subusers : List Text) (r r' : State Q W)
      → ensure_subuser_secrets env (s ∷ subusers) r ≡ (ok continue_reconciling, r')
      → (m : State Q W) × (ensure_user_secret env
            (generate_subuser_full_id r.ceph_user_full_id s)
            (generate_subuser_secret_name r.s3_user_claim.meta.name s)
            r
          ≡ (ok continue_reconciling, m))
        × (ensure_subuser_secrets env subusers m ≡ (ok continue_reconciling, r'))
        × (m ≡ record r { world = m.world })
  unfolding ensure_subuser_secrets
  loop_step s subusers r r' h =
      let user = generate_subuser_full_id r.ceph_user_full_id s in
      let name = generate_subuser_secret_name r.s3_user_claim.meta.name s in
      let p = ensure_user_secret env user name r in
      elim (Result-cases p.0) [
        | inr bad ↦ ground arith
        | inl (signal, e) ↦ (p.1, ground arith, ground arith, ensure_user_secret_keeps user name r)
      ]

module _ {Q W : Type 0} (env : Env Q W) (laws : SecretLaws env) (frame : SecretFrame env) where
  open laws use {got_key, referenced}
  open frame use {created, updated}

  update_secret_frame :
      (existing secret : Secret) (r r' : State Q W) (key : NamespacedName)
      → env.secrets.get r.world (key_of secret) ≡ ok existing
      → update_secret env existing secret r ≡ (ok continue_reconciling, r')
      → key ≢ key_of secret
      → env.secrets.get r'.world key ≡ env.secrets.get r.world key
  unfolding update_secret
  update_secret_frame existing secret r r' key found h apart =
      let owner = r.s3_user_claim.meta in
      let changed =
        not (env.deep_equal (Assoc Text) existing.contents secret.contents)
        || not (env.is_controlled_by existing.meta owner) in
      elim (Bool-cases changed) [
        | inr same ↦ let there : r.world ≡ r'.world = ground arith in rw there refl
        | inl c ↦ elim (Result-cases (env.set_controller_reference owner existing.meta)) [
          | inr bad ↦ ground arith
          | inl (owned, e) ↦
              let sent : Secret = record { meta = owned; contents = secret.contents } in
              let (_, name, namespace) = referenced owner existing.meta owned e in
              let place =
                (λ i. record { namespace = namespace i; name = name i })
                ∙ got_key r.world (key_of secret) existing found in
              elim (Result-cases (env.secrets.update sent r.world).0) [
                | inr bad ↦ ground arith
                | inl (t, u) ↦
                    let written : (env.secrets.update sent r.world).1 ≡ r'.world = ground arith in
                    rw (← written) (updated sent t r.world key u (λ p. apart (p ∙ place)))
              ]
        ]
      ]

  ensure_secret_frame :
      (secret : Secret) (r r' : State Q W) (key : NamespacedName)
      → ensure_secret env secret r ≡ (ok continue_reconciling, r')
      → key ≢ key_of secret
      → env.secrets.get r'.world key ≡ env.secrets.get r.world key
  unfolding ensure_secret
  ensure_secret_frame secret r r' key h apart =
      elim (Result-cases (env.secrets.get r.world (key_of secret))) [
        | inl (existing, e) ↦ update_secret_frame existing secret r r' key e (ground arith) apart
        | inr (inr e) ↦ ground arith
        | inr (inl (x, e)) ↦ elim (Result-cases (env.secrets.create secret r.world).0) [
          | inr bad ↦ ground arith
          | inl (t, c) ↦
              let same : (env.secrets.create secret r.world).1 ≡ r'.world = ground arith in
              rw (← same) (created secret t r.world key c apart)
        ]
      ]

  -- The step for one user leaves the secrets of other names in the claim's namespace.
  ensure_user_secret_frame :
      (user name other : Text) (r r' : State Q W)
      → ensure_user_secret env user name r ≡ (ok continue_reconciling, r')
      → other ≢ name
      → env.secrets.get r'.world
          (record { namespace = r.s3_user_claim.meta.namespace; name = other })
        ≡ env.secrets.get r.world
            (record { namespace = r.s3_user_claim.meta.namespace; name = other })
  unfolding ensure_user_secret
  ensure_user_secret_frame user name other r r' h apart =
      elim (Result-cases (assemble_ceph_user_secret env r user name)) [
        | inr bad ↦ ground arith
        | inl (secret, e) ↦
            let (_, _, _, _, place) = assembled env laws user name r secret e in
            ensure_secret_frame secret r r'
              (record { namespace = r.s3_user_claim.meta.namespace; name = other }) (rw e at h)
              (λ p. apart (ap (λ (k : NamespacedName). k.name) (p ∙ place)))
      ]

  -- So does the loop, for a subuser that it does not visit.
  ensure_subuser_secrets_frame :
      (r : State Q W) (subusers : List Text) (subuser : Text) (w : W) (r' : State Q W)
      → mem subuser subusers ≡ false
      → ensure_subuser_secrets env subusers (record r { world = w }) ≡ (ok continue_reconciling, r')
      → env.secrets.get r'.world (secret_of r subuser) ≡ env.secrets.get w (secret_of r subuser)
  unfolding ensure_subuser_secrets mem
  ensure_subuser_secrets_frame r [] subuser w r' absent h =
      let there : w ≡ r'.world = ground arith in rw there refl
  ensure_subuser_secrets_frame r (s ∷ subusers) subuser w r' absent h =
      let r0 : State Q W = record r { world = w } in
      let claim = r.s3_user_claim.meta.name in
      let (m, step, rest, keeps) = loop_step env s subusers r0 r' h in
      let apart : subuser ≢ s = λ p. ground (arith, eq_iff s subuser) in
      let later = ensure_subuser_secrets_frame r subusers subuser m.world r' (ground arith) (
        subst (λ x. ensure_subuser_secrets env subusers x ≡ (ok continue_reconciling, r')) keeps
          rest) in
      later
      ∙ ensure_user_secret_frame (generate_subuser_full_id r.ceph_user_full_id s)
          (generate_subuser_secret_name claim s) (generate_subuser_secret_name claim subuser) r0 m
          step (λ p. apart (generate_subuser_secret_name_injective claim subuser s p))

  -- The subuser has a key, and its secret is there.
  abbrev pub HasSecret : State Q W → W → Text → Type 0
  HasSecret r w subuser =
      (key : UserKeySpec) × (find_key (generate_subuser_full_id r.ceph_user_full_id subuser)
          r.ceph_user.keys
        ≡ some key)
      × HoldsKey env w r.s3_user_claim.meta
          (generate_subuser_secret_name r.s3_user_claim.meta.name subuser) key

  ensure_subuser_secrets-HasSecret :
      (r : State Q W) (subusers : List Text) (w : W) (r' : State Q W)
      → Distinct subusers
      → ensure_subuser_secrets env subusers (record r { world = w }) ≡ (ok continue_reconciling, r')
      → All (HasSecret r r'.world) subusers
  ensure_subuser_secrets-HasSecret r [] w r' distinct h = tt
  ensure_subuser_secrets-HasSecret r (s ∷ subusers) w r' distinct h =
      let r0 : State Q W = record r { world = w } in
      let (m, step, rest, keeps) = loop_step env s subusers r0 r' h in
      let rest' =
        subst (λ x. ensure_subuser_secrets env subusers x ≡ (ok continue_reconciling, r')) keeps
          rest in
      let (key, found, held) =
        ensure_user_secret-HoldsKey env laws (generate_subuser_full_id r.ceph_user_full_id s)
          (generate_subuser_secret_name r.s3_user_claim.meta.name s) r0 m step in
      let stays = ensure_subuser_secrets_frame r subusers s m.world r' distinct.0 rest' in
      (
        (
          key,
          found,
          record {
            kept = held.kept;
            found = stays ∙ held.found;
            access = held.access;
            secret = held.secret;
            controlled = held.controlled;
          },
        ),
        ensure_subuser_secrets-HasSecret r subusers m.world r' distinct.1 rest',
      )

  -- Under the laws of secrets: where the step for the subusers of the spec has gone through, and no
  -- name stands twice among them, then each of them has a key, and at the end the cluster has, for
  -- each, the secret of that key, controlled by the claim.
  pub ensure_other_subusers_secret-HasSecret :
      (r r' : State Q W)
      → Distinct r.desired_subusers_string_list
      → ensure_other_subusers_secret env r ≡ (ok continue_reconciling, r')
      → All (HasSecret r r'.world) r.desired_subusers_string_list
  unfolding ensure_other_subusers_secret
  ensure_other_subusers_secret-HasSecret r r' distinct h =
      ensure_subuser_secrets-HasSecret r r.desired_subusers_string_list r.world r' distinct h
