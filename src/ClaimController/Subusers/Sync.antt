-- ===== src/ClaimController/Subusers/Sync.antt =====
-- The loop of `syncSubusersList` in internal/controllers/s3userclaim/provisioner.go: what each turn
-- changes in Ceph.
use ceph_s3_operator.Prelude.{
  ◌≡◌, ◌↔◌, inl, inr, refl, Bool, true, false, none, some, [], ◌∷◌, arith, if◌then◌else◌, In, ap,
  ◌∙◌, sym, Bool-cases, Option-cases,
}
use ceph_s3_operator.Prelude.Text.{Text, ◌==◌, eq_iff}
use ceph_s3_operator.Prelude.Assoc.{Assoc, lookup}
use ceph_s3_operator.Go.{Result, ok, Result-cases}
use ceph_s3_operator.Names.{NamespacedName, extract_subuser_name}
use ceph_s3_operator.Consts.{subuser_tag_create}
use ceph_s3_operator.Api.{SubuserSpec, User, user_with_id}
use ceph_s3_operator.Env.{Env}
use ceph_s3_operator.Subreconciler.{Signal, continue_reconciling}
use ceph_s3_operator.ClaimController.State.{State}
use ceph_s3_operator.ClaimController.Subusers.{
  desired_subuser, generate_subuser, remove_subuser_and_secret, sync_subuser, sync_entries,
}

-- `range` visits exactly the entries of the map.
abbrev pub Visits : Assoc Text → Assoc Text → Type 0
Visits m entries = (k v : Text) → In (k, v) entries ↔ (lookup k m ≡ some v)

-- What the admin API documents of subusers: whether a user has one of a name, and what a
-- successful create or remove changes. Deleting a secret does not touch Ceph.
pub record SubuserLaws {Q W : Type 0} (env : Env Q W) : Type 0 where
  pub has_subuser : W → Text → Text → Bool
  pub created :
      (u : User) (s : SubuserSpec) (w : W)
      → (env.create_subuser u s w).0 ≡ ok tt
      → (n : Text)
      → has_subuser (env.create_subuser u s w).1 u.id n
        ≡ (if s.name == n then true else has_subuser w u.id n)
  pub removed :
      (u : User) (s : SubuserSpec) (w : W)
      → (env.remove_subuser u s w).0 ≡ ok tt
      → (n : Text)
      → has_subuser (env.remove_subuser u s w).1 u.id n
        ≡ (if s.name == n then false else has_subuser w u.id n)
  pub secret_deleted :
      (key : NamespacedName) (w : W) (id n : Text)
      → has_subuser (env.secrets.delete key w).1 id n ≡ has_subuser w id n

-- Whether a name is there after the entries have been carried out in order.
pub after : Text → Assoc Text → Bool → Bool
after n [] b = b
after n ((k, t) ∷ entries) b = after n entries (if k == n then t == subuser_tag_create else b)

module _ {Q W : Type 0} (env : Env Q W) (laws : SubuserLaws env) where
  open laws use {has_subuser, created, removed, secret_deleted}

  sync_subuser_keeps :
      (entry : Text × Text) (r : State Q W)
      → (sync_subuser env entry r).1.ceph_user_full_id ≡ r.ceph_user_full_id
  unfolding sync_subuser generate_subuser remove_subuser_and_secret
  sync_subuser_keeps (k, t) r = ground arith

  remove_subuser_and_secret-has :
      (subuser : SubuserSpec) (r : State Q W) (n : Text)
      → (remove_subuser_and_secret env r.ceph_user_full_id subuser r).0 ≡ ok tt
      → has_subuser
          (remove_subuser_and_secret env r.ceph_user_full_id subuser r).1.world
          r.ceph_user_full_id
          n
        ≡ (if subuser.name == n then false else has_subuser r.world r.ceph_user_full_id n)
  unfolding remove_subuser_and_secret
  remove_subuser_and_secret-has subuser r n h =
      grind (arith, removed (user_with_id r.ceph_user_full_id) subuser r.world, secret_deleted)

  pub sync_subuser-has :
      (k t : Text) (r : State Q W) (n : Text)
      → (sync_subuser env (k, t) r).0 ≡ ok tt
      → has_subuser (sync_subuser env (k, t) r).1.world r.ceph_user_full_id n
        ≡ (if k == n then t == subuser_tag_create else has_subuser r.world r.ceph_user_full_id n)
  unfolding sync_subuser generate_subuser desired_subuser
  sync_subuser-has k t r n h = elim (Bool-cases (t == subuser_tag_create)) [
    | inl create ↦ rw create (
        created (user_with_id r.ceph_user_full_id) (desired_subuser env k) r.world (rw create at h)
          n)
    | inr remove ↦
        rw remove (remove_subuser_and_secret-has (desired_subuser env k) r n (rw remove at h))
  ]

  -- The loop, where it goes through, leaves each name as its entries say.
  pub sync_entries-has :
      (entries : Assoc Text) (r r' : State Q W) (id n : Text)
      → r.ceph_user_full_id ≡ id
      → sync_entries env entries r ≡ (ok continue_reconciling, r')
      → has_subuser r'.world id n ≡ after n entries (has_subuser r.world id n)
  unfolding sync_entries after
  sync_entries-has [] r r' id n same h =
      ap (λ (s : State Q W). has_subuser s.world id n)
        (sym (ap (λ (p : Result Signal × State Q W). p.1) h))
  sync_entries-has ((k, t) ∷ entries) r r' id n same h =
      let m = (sync_subuser env (k, t) r).1 in
      elim (Result-cases (sync_subuser env (k, t) r).0) [
        | inl (u, e) ↦
            let step = sync_subuser-has k t r n e in
            let keeps = sync_subuser_keeps (k, t) r in
            let rest = sync_entries-has entries m r' id n (keeps ∙ same) (ground arith) in
            rest ∙ ap (after n entries) (rw (← same) step)
        | inr bad ↦ ground arith
      ]

-- Entries that say the same of a name leave it so.
after_same :
    (n : Text) (c : Bool) (entries : Assoc Text)
    → ((t : Text) → In (n, t) entries → (t == subuser_tag_create) ≡ c)
    → after n entries c ≡ c
unfolding after
after_same n c [] h = refl
after_same n c ((k, t) ∷ entries) h = elim (Bool-cases (k == n)) [
  | inl e ↦ rw e (
      ap (after n entries) (h t (inl (λ i. ((eq_iff k n).0 e i, t))))
      ∙ after_same n c entries (λ s m. h s (inr m)))
  | inr e ↦ rw e (after_same n c entries (λ s m. h s (inr m)))
]

after_named :
    (n t0 : Text) (b c : Bool) (entries : Assoc Text)
    → ((t : Text) → In (n, t) entries → (t == subuser_tag_create) ≡ c)
    → In (n, t0) entries
    → after n entries b ≡ c
unfolding after
after_named n t0 b c [] h m = absurd m
after_named n t0 b c ((k, t) ∷ entries) h m = elim (Bool-cases (k == n)) [
  | inl e ↦ rw e (
      ap (after n entries) (h t (inl (λ i. ((eq_iff k n).0 e i, t))))
      ∙ after_same n c entries (λ s m. h s (inr m)))
  | inr e ↦ rw e (elim m [
    | inl p ↦ ground (arith, eq_iff k n, ap (λ (q : Text × Text). q.0) p)
    | inr q ↦ after_named n t0 b c entries (λ s m. h s (inr m)) q
  ])
]

after_absent :
    (n : Text) (b : Bool) (entries : Assoc Text)
    → ((t : Text) → ¬ In (n, t) entries)
    → after n entries b ≡ b
unfolding after
after_absent n b [] h = refl
after_absent n b ((k, t) ∷ entries) h = elim (Bool-cases (k == n)) [
  | inl e ↦ absurd (h t (inl (λ i. ((eq_iff k n).0 e i, t))))
  | inr e ↦ rw e (after_absent n b entries (λ s m. h s (inr m)))
]

-- The effect of the visited entries is that of the map.
pub after-Visits :
    (n : Text) (b : Bool) (m entries : Assoc Text)
    → Visits m entries
    → after n entries b ≡ (elim (lookup n m) [ none ↦ b | some t ↦ t == subuser_tag_create ])
after-Visits n b m entries v = elim (Option-cases (lookup n m)) [
  | inl e ↦ rw e (after_absent n b entries (λ t i. ground (arith, (v n t).0 i)))
  | inr (t, e) ↦ rw e (
      after_named n t b (t == subuser_tag_create) entries (λ s i. ground (arith, (v n s).0 i))
        ((v n t).1 e))
]

-- The subuser's name can be read from the full id.
abbrev pub Parses : Text → Type 0
Parses full_id = (name : Text) × (extract_subuser_name full_id ≡ ok name)
