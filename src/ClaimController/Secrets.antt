-- ===== src/ClaimController/Secrets.antt =====
-- The secrets with the users' keys: `assembleCephUserSecret`, `ensureSecret` and the three steps
-- that call them in internal/controllers/s3userclaim/provisioner.go.
pub mod Stored
pub mod Keys
pub mod Complete
use ceph_s3_operator.Prelude.{
  ℕ, Bool, true, false, not, ◌||◌, Option, none, some, List, [], ◌∷◌, ◌++◌, if◌then◌else◌,
}
use ceph_s3_operator.Prelude.Text.{Text, text, ◌==◌}
use ceph_s3_operator.Prelude.Assoc.{Assoc}
use ceph_s3_operator.Go.{Error, Result, ok, err, panic, message, has_reason, ◌>>=◌}
use ceph_s3_operator.Names.{NamespacedName, generate_subuser_full_id, generate_subuser_secret_name}
use ceph_s3_operator.Consts.{data_key_access_key, data_key_secret_key}
use ceph_s3_operator.Api.{ObjectMeta, UserKeySpec, Secret, empty_meta}
use ceph_s3_operator.Env.{Env}
use ceph_s3_operator.Subreconciler.{
  Signal, Step, continue_reconciling, requeue, do_not_requeue, done, handle,
}
use ceph_s3_operator.ClaimController.State.{State}
use ceph_s3_operator.ClaimController.CephUser.{in_world, give_up}

-- The loop that stops at the first key of the user.
unfoldable pub find_key : Text → List UserKeySpec → Option UserKeySpec
find_key user_name [] = none
find_key user_name (key ∷ keys) =
    let rest = find_key user_name keys in if key.user == user_name then some key else rest

abbrev pub key_of : Secret → NamespacedName
key_of secret = record { namespace = secret.meta.namespace; name = secret.meta.name }

module _ {Q W : Type 0} (env : Env Q W) where
  open env use {secrets, not_found, set_controller_reference, is_controlled_by, deep_equal}

  unfoldable pub assemble_ceph_user_secret : State Q W → Text → Text → Result Secret
  assemble_ceph_user_secret r user_name secret_name = elim (find_key user_name r.ceph_user.keys) [
    | none ↦ err (message (text "no key found for user " ++ user_name))
    | some key ↦ do
      owned ←
          set_controller_reference r.s3_user_claim.meta
            (record empty_meta { namespace = r.s3_user_claim.meta.namespace; name = secret_name })
      ok (record {
        meta = owned;
        contents =
            (data_key_access_key, key.access_key) ∷ (data_key_secret_key, key.secret_key) ∷ [];
      })
  ]

  -- ensureSecret where the secret is there.
  unfoldable pub update_secret : Secret → Secret → Step (State Q W)
  update_secret existing secret r =
      if not (deep_equal (Assoc Text) existing.contents secret.contents)
        || not (is_controlled_by existing.meta r.s3_user_claim.meta)
      then handle (set_controller_reference r.s3_user_claim.meta existing.meta, r) (give_up env)
          (λ owned r.
            handle
              (in_world r
                (secrets.update (record { meta = owned; contents = secret.contents }) r.world))
              (give_up env) (λ _. done continue_reconciling))
      else done continue_reconciling r

  unfoldable pub ensure_secret : Secret → Step (State Q W)
  ensure_secret secret r =
      handle (secrets.get r.world (key_of secret), r)
        (λ e r.
          if has_reason not_found e
          then handle (in_world r (secrets.create secret r.world)) (give_up env)
              (λ _. done continue_reconciling)
          else done requeue r)
        (λ existing. update_secret existing secret)

  -- Assemble, and ensure what is assembled.
  unfoldable pub ensure_user_secret : Text → Text → Step (State Q W)
  ensure_user_secret user_name secret_name r =
      handle (assemble_ceph_user_secret r user_name secret_name, r) (give_up env) ensure_secret

  unfoldable pub ensure_admin_secret : Step (State Q W)
  ensure_admin_secret r = ensure_user_secret r.ceph_user_full_id r.s3_user_claim.spec.admin_secret r

  unfoldable pub ensure_readonly_secret : Step (State Q W)
  ensure_readonly_secret r =
      ensure_user_secret r.readonly_ceph_user_full_id r.s3_user_claim.spec.readonly_secret r

  unfoldable pub ensure_subuser_secrets : List Text → Step (State Q W)
  ensure_subuser_secrets [] r = done continue_reconciling r
  ensure_subuser_secrets (subuser ∷ subusers) r =
      let (result, r') =
        ensure_user_secret (generate_subuser_full_id r.ceph_user_full_id subuser)
          (generate_subuser_secret_name r.s3_user_claim.meta.name subuser) r in
      elim result [
        | ok signal ↦ elim signal [
          | continue_reconciling ↦ ensure_subuser_secrets subusers r'
          | requeue ↦ done requeue r'
          | do_not_requeue ↦ done do_not_requeue r'
        ]
        | err e ↦ (err e, r')
        | panic ↦ (panic, r')
      ]

  unfoldable pub ensure_other_subusers_secret : Step (State Q W)
  ensure_other_subusers_secret r = ensure_subuser_secrets r.desired_subusers_string_list r
