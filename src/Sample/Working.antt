-- ===== src/Sample/Working.antt =====
-- The small cluster with its Ceph answers as the progress of the claim controller assumes.
use ceph_s3_operator.Prelude.{
  All-map, if◌then◌else◌, ◌≡◌, List, ◌&&◌, Bool-cases, ◌⊎◌, inl, inr, refl, sym, ap, ◌∙◌, Bool,
  true, false, Option, none, some, [], ◌∷◌, arith, Option-cases,
}
use mathlib.Core.Path.{subst}
use ceph_s3_operator.Prelude.Text.{Text, ◌==◌, eq_refl}
use ceph_s3_operator.Go.{Error, ok, err, wraps_rgw, has_reason}
use ceph_s3_operator.Names.{NamespacedName}
use ceph_s3_operator.Api.{S3User, ObjectMeta, Secret, User, user_with_id, empty_meta}
use ceph_s3_operator.ClaimController.Subusers.Tags.{mem, names}
use ceph_s3_operator.ClaimController.Progress.{
  SecretThere, S3UserThere, Kept, HasKey, HasSubusers, IsAnswer, Looked, Counting, Storing,
  Succeeds, Working,
}
use ceph_s3_operator.ClaimController.Progress.Cleanup.{NoUser, NoS3User, Removing}
use ceph_s3_operator.Prelude.Int.{ℤ}
use ceph_s3_operator.ClaimController.Secrets.{key_of}
use ceph_s3_operator.Sample.{found, World, no_user, absent, keyed, claims_in, put_secret}
use ceph_s3_operator.Sample.Ceph.{
  put_s3_user, answered, asked, made, changed, put_user, add_subuser, drop, ceph_env, ceph_laws,
  has_subuser, entries-Visits, entries-Once,
}
use ceph_s3_operator.Sample.Objects.{ceph_quota}
use ceph_s3_operator.Sample.Plain.{
  claims_in-All, add_subuser-IsPlain, drop-IsPlain, retrieve, IsPlain, ClaimsOf, put_user_same,
  put_user-AllPlain, Known, Up, Listed,
}

is_answer :
    (w : World) (id : Text) (v : User)
    → w.ceph_users id ≡ some v
    → IsPlain v
    → IsAnswer ceph_env ceph_laws w id (answered id v)
is_answer w id v e plain = record {
  distinct = plain.0;
  subusers = λ n. ap (λ o. elim o [ none ↦ false | some x ↦ mem n (names x.subusers) ]) e;
  parses = plain.1;
}

new_user : (u : User) → IsPlain (record u { subusers = [] })
unfolding mem
new_user u = (tt, λ n h. ground arith)

missing : wraps_rgw (ceph_env.no_such_user) no_user ≡ true
unfolding wraps_rgw ◌==◌
missing = refl

gone : has_reason (ceph_env.not_found) absent ≡ true
unfolding has_reason ◌==◌
gone = refl

looks :
    (u : User) (m : ObjectMeta) (w : World)
    → Up m w
    → ((v : User) × (ceph_env.get_user w u ≡ ok v)
        × Known u.id m w
        × IsAnswer ceph_env ceph_laws w u.id v)
      ⊎ ((e : Error) × (ceph_env.get_user w u ≡ err e)
          × (wraps_rgw (ceph_env.no_such_user) e ≡ true))
looks u m w (plain, all) = elim (Option-cases (w.ceph_users u.id)) [
  | inl e ↦ inr (no_user, ap (asked u.id) e, missing)
  | inr (v, e) ↦ inl (
    answered u.id v,
    ap (asked u.id) e,
    ((v, e), plain, all),
    is_answer w u.id v e (plain u.id v e),
  )
]

modifies :
    (u : User) (m : ObjectMeta) (w : World)
    → Known u.id m w
    → (v : User) × ((ceph_env.modify_user u w).0 ≡ ok v)
      × Known u.id m w
      × IsAnswer ceph_env ceph_laws w u.id v
modifies u m w ((v, e), plain, all) = (
  answered u.id v,
  ap (asked u.id) e,
  ((v, e), plain, all),
  is_answer w u.id v e (plain u.id v e),
)

creates_user :
    (u : User) (x : Error) (m : ObjectMeta) (w : World)
    → Up m w
    → ceph_env.get_user w u ≡ err x
    → wraps_rgw (ceph_env.no_such_user) x ≡ true
    → (v : User) × ((ceph_env.create_user u w).0 ≡ ok v)
      × Known u.id m (ceph_env.create_user u w).1
      × IsAnswer ceph_env ceph_laws (ceph_env.create_user u w).1 u.id v
creates_user u x m w (plain, all) nobody h = elim (Option-cases (w.ceph_users u.id)) [
  | inr (v, e) ↦ ground arith
  | inl e ↦
      let v = record u { subusers = [] } in
      let there = put_user_same u.id (some v) w in
      subst
        (λ o.
          (a : User) × ((made u w o).0 ≡ ok a)
          × Known u.id m (made u w o).1
          × IsAnswer ceph_env ceph_laws (made u w o).1 u.id a)
        (sym e)
        (
          answered u.id v,
          refl,
          ((v, there), put_user-AllPlain u.id v w (new_user u) plain, all),
          is_answer (put_user u.id (some v) w) u.id v there (new_user u),
        )
]

retrieves :
    (id : Text) (m : ObjectMeta) (w : World)
    → Known id m w
    → (v : User) × (ceph_env.get_user w (user_with_id id) ≡ ok v)
      × HasKey id v
      × ((n : Text) → has_subuser w id n ≡ true → HasKey n v)
retrieves id m w ((v, e), plain, all) = (
  answered id v,
  ap (asked id) e,
  (retrieve id v).0,
  λ n h.
      (retrieve id v).1 n
        (ap (λ o. elim o [ none ↦ false | some x ↦ mem n (names x.subusers) ]) (sym e) ∙ h),
)

-- A change of the user that keeps it plain is answered without an error.
changes :
    (id : Text) (f : User → User) (m : ObjectMeta) (w : World)
    → ((v : User) → IsPlain v → IsPlain (f v))
    → Known id m w
    → Succeeds ceph_env (Known id) Listed m (changed id f w (w.ceph_users id))
changes id f m w keeps ((v, e), plain, all) =
    subst (λ o. Succeeds ceph_env (Known id) Listed m (changed id f w o)) (sym e)
      (
        tt,
        refl,
        (
          (f v, put_user_same id (some (f v)) w),
          put_user-AllPlain id (f v) w (keeps v (plain id v e)) plain,
          all,
        ),
      )

looked :
    (at : NamespacedName) (o : Option Secret)
    → Looked ceph_env (elim o [ none ↦ err absent | some s ↦ ok (keyed at s) ])
looked at none = inr (absent, refl, gone)
looked at (some s) = inl (keyed at s, refl)

pub counting :
    (P : World → Type 0) → ((w : World) → P w → ClaimsOf w) → Counting ceph_env (λ m. P) Listed
counting P quotas = record {
  not_again = λ A f w a h. refl;
  lists_claims =
      λ ns m w k. (claims_in ns w.claim_list, refl, claims_in-All ns w.claim_list (quotas w k));
  lists_quotas = λ ns m w k. (w.quota_list, refl, tt);
  stores_used = λ q items status m w k l. ((record q { status = status }, refl, k), tt);
  skips = λ q items w l. tt;
  stores = λ c w k. (c, refl, k);
  adds_finalizer = λ f m w k. k;
  removes_finalizer = λ f m w k. k;
}

abbrev There : NamespacedName → Option Secret → Type 0
There key o = (x : Secret) × (elim o [ none ↦ err absent | some s ↦ ok (keyed key s) ] ≡ ok x)

put_secret-SecretThere :
    (s : Secret) (w : World) (key : NamespacedName)
    → SecretThere ceph_env key w
    → SecretThere ceph_env key (put_secret s w)
put_secret-SecretThere s w key there =
    let old = w.secret_at key.namespace key.name in
    elim (Bool-cases (key.namespace == s.meta.namespace && key.name == s.meta.name)) [
      | inl same ↦ subst (λ b. There key (if b then some s else old)) (sym same) (keyed key s, refl)
      | inr other ↦ subst (λ b. There key (if b then some s else old)) (sym other) there
    ]

put_secret-SecretThere_own :
    (s : Secret) (w : World) → SecretThere ceph_env (key_of s) (put_secret s w)
put_secret-SecretThere_own s w =
    let key = key_of s in
    let old = w.secret_at key.namespace key.name in
    subst (λ b. There key (if b && key.name == key.name then some s else old))
      (sym (eq_refl key.namespace))
      (subst (λ b. There key (if b then some s else old)) (sym (eq_refl key.name))
        (keyed key s, refl))

put_s3_user-S3UserThere :
    (u : S3User ℤ) (w : World) (name : Text)
    → S3UserThere ceph_env name w
    → S3UserThere ceph_env name (put_s3_user u.meta.name (some u) w)
put_s3_user-S3UserThere u w name (x, e) = elim (Bool-cases (name == u.meta.name)) [
  | inl same ↦ (u, rw same refl)
  | inr other ↦ (x, rw other e)
]

put_s3_user-S3UserThere_own :
    (u : S3User ℤ) (w : World)
    → S3UserThere ceph_env u.meta.name (put_s3_user u.meta.name (some u) w)
put_s3_user-S3UserThere_own u w = (u, rw (eq_refl u.meta.name) refl)

found_or_absent : (o : Option (S3User ℤ)) → Looked ceph_env (found o)
found_or_absent none = inr (absent, refl, gone)
found_or_absent (some u) = inl (u, refl)

storing :
    (P : World → Type 0)
    → ((w : World) → P w → ClaimsOf w)
    → ((s : Secret) (w : World) → P w → P (put_secret s w))
    → ((u : S3User ℤ) (w : World) → P w → P (put_s3_user u.meta.name (some u) w))
    → Storing ceph_env (λ m. P) Listed
storing P quotas kept kept_user = record {
  counting = counting P quotas;
  refers = λ m. (record { namespace = m.namespace; name = m.name }, refl);
  owns = λ owner m fresh. (
    record m { owner_references = record { uid = owner.uid; controller = true } ∷ [] },
    refl,
    refl,
    refl,
  );
  owns_found = λ at s m w k h.
      (record (s.meta) { owner_references = record { uid = m.uid; controller = true } ∷ [] }, refl);
  gets_secret = λ at m w k. looked at (w.secret_at at.namespace at.name);
  creates_secret = λ s e m w k h n. ((s, refl, kept s w k), put_secret-SecretThere_own s w);
  updates_secret =
      λ at old s m w k h o. ((s, refl, kept s w k), put_secret-SecretThere s w at (old, h));
  gets_user = λ name m w k. found_or_absent (w.s3_users name);
  creates = λ u e m w k h n. ((u, refl, kept_user u w k), put_s3_user-S3UserThere_own u w);
  updates = λ name old u m w k h o.
      ((u, refl, kept_user u w k), put_s3_user-S3UserThere u w name (old, h));
  stores_status = λ c w k. (c, refl, refl, k);
}

abbrev Here : Text → (Text → Bool) → List NamespacedName → List Text → World → Type 0
Here id has keys names w =
    Kept ceph_env (λ m w. Known id m w × HasSubusers ceph_env ceph_laws id has w) keys names
      empty_meta w

pub working : Working ceph_env ceph_laws Up Known Listed
working = record {
  still_up = λ id m w k. (k.1, k.2);
  visits = λ m. (entries-Visits m, entries-Once m);
  looks_up = looks;
  modifies = modifies;
  creates_user = creates_user;
  reads_quota = λ q m w k. (ceph_quota, true, 30, 100, refl, refl, refl, refl);
  sets_quota = λ q m w k. (tt, refl, k);
  quota_keeps = λ q w id n. refl;
  creates_subuser = λ u s m w parses k new.
      changes u.id (add_subuser s) m w (λ v. add_subuser-IsPlain s v parses) k;
  removes_subuser = λ u s m w k there.
      changes u.id (λ v. record v { subusers = drop s.name v.subusers }) m w (drop-IsPlain s.name)
        k;
  deletes_secret = λ at id m w k. (inl (tt, refl), k);
  retrieves = retrieves;
  objects = λ id has keys names.
      storing (Here id has keys names) (λ w k. k.0.0.2)
        (λ s w (known, secrets, s3_users).
          (known, All-map _ _ keys (put_secret-SecretThere s w) secrets, s3_users))
        (λ u w (known, secrets, s3_users).
          (known, secrets, All-map _ _ names (put_s3_user-S3UserThere u w) s3_users));
}

abbrev pub Claims : ObjectMeta → World → Type 0
Claims m w = ClaimsOf w

pub removing : Removing ceph_env Claims Listed
removing = record {
  removes = λ id m w k. (inl refl, k, (no_user, ap (asked id) (put_user_same id none w), missing));
  deletes =
      λ id name m w k nobody. (inl (tt, refl), k, nobody, (absent, rw (eq_refl name) refl, gone));
  counting = λ id name.
      counting
        (λ w.
          ClaimsOf w × NoUser ceph_env Claims Listed id w × NoS3User ceph_env Claims Listed name w)
        (λ w k. k.0);
}
