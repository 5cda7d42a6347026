-- ===== src/ClaimController/Progress/Steps.antt =====
-- The steps of a round after the work on the subusers, where the API server answers.
use ceph_s3_operator.Prelude.{◌≡◌, refl, ◌∙◌, true, some, List, [], ◌∷◌}
use ceph_s3_operator.Go.{ok}
use ceph_s3_operator.Api.{UserQuota}
use ceph_s3_operator.Api.{ObjectMeta, ResourceQuota}
use ceph_s3_operator.Prelude.{All}
use ceph_s3_operator.Prelude.Text.{Text}
use ceph_s3_operator.Names.{NamespacedName, generate_subuser_full_id}
use ceph_s3_operator.Env.{Env}
use ceph_s3_operator.Subreconciler.{Step, continue_reconciling}
use ceph_s3_operator.ClaimController.State.{State}
use ceph_s3_operator.ClaimController.Secrets.{
  ensure_admin_secret, ensure_readonly_secret, ensure_other_subusers_secret,
}
use ceph_s3_operator.ClaimController.Status.{
  update_s3_user_claim_status, update_namespace_quota_status_inclusive, add_cleanup_finalizer,
}
use ceph_s3_operator.ClaimController.S3User.{ensure_s3_user}
use ceph_s3_operator.Subreconciler.Chain.{Ran}
use ceph_s3_operator.ClaimController.Progress.{HasKey, Kept, Storing}
use ceph_s3_operator.ClaimController.Progress.Secrets.{
  keep_user_secret, subuser_keys, ensure_subuser_secrets_goes_on,
}
use ceph_s3_operator.ClaimController.Progress.Objects.{
  ensure_s3_user_goes_on, update_s3_user_claim_status_goes_on,
  update_namespace_quota_status_goes_on, add_cleanup_finalizer_goes_on,
}

-- The steps run to their end, in a state with `P`.
abbrev pub Finishes : {S : Type 0} → (S → Type 0) → List (Step S) → S → Type 0
Finishes {S} P steps r = (r' : S) × Ran steps r r' × P r'

pub first :
    {S : Type 0} (P : S → Type 0) (step : Step S) (steps : List (Step S)) (r m : S)
    → step r ≡ (ok continue_reconciling, m)
    → Finishes P steps m
    → Finishes P (step ∷ steps) r
first P step steps r m e (r', ran, p) = (r', (m, e, ran), p)

-- The keys of the secrets that the round keeps.
abbrev pub all_keys : {Q W : Type 0} → State Q W → List NamespacedName
all_keys r = subuser_keys r.s3_user_claim.meta r.desired_subusers_string_list (
    record {
      namespace = r.s3_user_claim.meta.namespace;
      name = r.s3_user_claim.spec.readonly_secret;
    }
    ∷ record {
      namespace = r.s3_user_claim.meta.namespace;
      name = r.s3_user_claim.spec.admin_secret;
    }
    ∷ [])

module _ {Q W : Type 0} (env : Env Q W) where
  abbrev last_steps : List (Step (State Q W))
  last_steps = update_namespace_quota_status_inclusive env ∷ add_cleanup_finalizer env ∷ []

  abbrev status_steps : List (Step (State Q W))
  status_steps = ensure_s3_user env ∷ update_s3_user_claim_status env ∷ last_steps

  abbrev other_steps : List (Step (State Q W))
  other_steps = ensure_other_subusers_secret env ∷ status_steps

  abbrev pub secret_steps : List (Step (State Q W))
  secret_steps = ensure_admin_secret env ∷ ensure_readonly_secret env ∷ other_steps

module _ {Q W : Type 0} (env : Env Q W) (Known : ObjectMeta → W → Type 0)
    (Listed : List (ResourceQuota Q) → W → Type 0)
    (objects : (keys : List NamespacedName) (names : List Text)
      → Storing env (Kept env Known keys names) Listed) where
  abbrev Here : List NamespacedName → List Text → State Q W → Type 0
  Here keys names r = Kept env Known keys names r.s3_user_claim.meta r.world

  last_steps-Finishes :
      (keys : List NamespacedName) (names : List Text) (r : State Q W) (q : UserQuota Q)
      → r.s3_user_claim.spec.quota ≡ some q
      → Here keys names r
      → Finishes (Here keys names) (last_steps env) r
  unfolding update_namespace_quota_status_inclusive
  last_steps-Finishes keys names r q has_quota known =
      let P = Kept env Known keys names in
      let counting = (objects keys names).counting in
      let (w, used, step, known') =
        update_namespace_quota_status_goes_on env P Listed counting true r q has_quota known in
      let m = record r { world = w; namespace_used_quota = some used } in
      let (w', c, step', known2) = add_cleanup_finalizer_goes_on env P Listed counting m known' in
      let m' = record m { world = w'; s3_user_claim = c } in
      first (Here keys names) (update_namespace_quota_status_inclusive env)
        (add_cleanup_finalizer env ∷ []) r m step
        (first (Here keys names) (add_cleanup_finalizer env) [] m m' step' (m', refl, known2))

  status_steps-Finishes :
      (keys : List NamespacedName) (r : State Q W) (q : UserQuota Q)
      → r.s3_user_claim.spec.quota ≡ some q
      → Here keys [] r
      → Finishes (Here keys (r.s3_user_name ∷ [])) (status_steps env) r
  status_steps-Finishes keys r q has_quota known =
      let names = r.s3_user_name ∷ [] in
      let (w, step, (known1, kept1, none_kept), there) =
        ensure_s3_user_goes_on env (Kept env Known keys []) Listed (objects keys []) r q has_quota
          known in
      let m = record r { world = w } in
      let (w', c, step', known2, kept) =
        update_s3_user_claim_status_goes_on env (Kept env Known keys names) Listed
          (objects keys names) m (known1, kept1, (there, tt)) in
      let m' = record m { world = w'; s3_user_claim = c } in
      first (Here keys names) (ensure_s3_user env)
        (update_s3_user_claim_status env ∷ (last_steps env)) r m step
        (first (Here keys names) (update_s3_user_claim_status env) (last_steps env) m m' step'
          (last_steps-Finishes keys names m' q (kept ∙ has_quota) known2))

  pub secret_steps-Finishes :
      (r : State Q W) (q : UserQuota Q)
      → r.s3_user_claim.spec.quota ≡ some q
      → HasKey r.ceph_user_full_id r.ceph_user
      → HasKey r.readonly_ceph_user_full_id r.ceph_user
      → All
          (λ s. HasKey (generate_subuser_full_id r.ceph_user_full_id s) r.ceph_user)
          r.desired_subusers_string_list
      → Known r.s3_user_claim.meta r.world
      → Finishes (Here (all_keys r) (r.s3_user_name ∷ [])) (secret_steps env) r
  unfolding ensure_admin_secret ensure_readonly_secret ensure_other_subusers_secret
  secret_steps-Finishes r q has_quota key readonly_key keys known =
      let P = Here (all_keys r) (r.s3_user_name ∷ []) in
      let admin : NamespacedName = record {
        namespace = r.s3_user_claim.meta.namespace;
        name = r.s3_user_claim.spec.admin_secret;
      } in
      let readonly : NamespacedName = record {
        namespace = r.s3_user_claim.meta.namespace;
        name = r.s3_user_claim.spec.readonly_secret;
      } in
      let (w1, step1, known1) =
        keep_user_secret env Known Listed objects [] r.ceph_user_full_id
          r.s3_user_claim.spec.admin_secret r key (known, tt, tt) in
      let r1 = record r { world = w1 } in
      let (w2, step2, known2) =
        keep_user_secret env Known Listed objects (admin ∷ []) r.readonly_ceph_user_full_id
          r.s3_user_claim.spec.readonly_secret r1 readonly_key known1 in
      let r2 = record r1 { world = w2 } in
      let (w3, step3, known3) =
        ensure_subuser_secrets_goes_on env Known Listed objects r.desired_subusers_string_list
          (readonly ∷ admin ∷ []) r2 keys known2 in
      let r3 = record r2 { world = w3 } in
      first P (ensure_admin_secret env) (ensure_readonly_secret env ∷ (other_steps env)) r r1 step1
        (first P (ensure_readonly_secret env) (other_steps env) r1 r2 step2 (
          first P (ensure_other_subusers_secret env) (status_steps env) r2 r3 step3
            (status_steps-Finishes (all_keys r) r3 q has_quota known3)))
