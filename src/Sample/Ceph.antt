-- ===== src/Sample/Ceph.antt =====
-- A small Ceph: its users by their ids, with the subusers that have been made, each with a key. The
-- S3Users of the cluster are kept by their names.
use ceph_s3_operator.Prelude.{
  Option, ◌≡◌, inl, inr, refl, sym, ap, ◌∙◌, Bool, true, false, none, some, List, [], ◌∷◌, arith,
  Bool-cases, Option-cases, if◌then◌else◌,
}
use ceph_s3_operator.Prelude.Text.{Text, text, ◌==◌, eq_iff, eq_refl}
use ceph_s3_operator.Prelude.Assoc.{Assoc, lookup, erase, lookup-erase}
use ceph_s3_operator.ClaimController.Progress.{Once}
use ceph_s3_operator.Go.{rgw, Result, ok, err}
use ceph_s3_operator.Api.{S3User, User, UserKeySpec, SubuserSpec}
use ceph_s3_operator.Env.{Env, Rgw, KindClient}
use ceph_s3_operator.ClaimController.Subusers.Tags.{mem, names}
use ceph_s3_operator.ClaimController.Subusers.Sync.{SubuserLaws, Visits}
use ceph_s3_operator.Prelude.Int.{ℤ}
use ceph_s3_operator.Sample.{World, env, no_user, found, kube}
use ceph_s3_operator.Sample.Objects.{key, ceph_quota}
use ceph_s3_operator.Sample.Ranges.{DistinctKeys, entries_iff}

abbrev pub keys_of : List SubuserSpec → List UserKeySpec
keys_of [] = []
keys_of (s ∷ ss) = key s.name ∷ keys_of ss

-- The user as answered for an id.
abbrev pub answered : Text → User → User
answered id v = record v { id = id; keys = key id ∷ keys_of v.subusers }

abbrev pub add_subuser : SubuserSpec → User → User
add_subuser s v =
    if mem s.name (names v.subusers) then v else record v { subusers = s ∷ v.subusers }

abbrev pub drop : Text → List SubuserSpec → List SubuserSpec
drop n [] = []
drop n (s ∷ ss) = let rest = drop n ss in if s.name == n then rest else s ∷ rest

abbrev pub asked : Text → Option User → Result User
asked id o = elim o [ none ↦ err no_user | some v ↦ ok (answered id v) ]

abbrev pub put_user : Text → Option User → World → World
put_user id o w = record w { ceph_users = λ i. if i == id then o else w.ceph_users i }

abbrev pub changed : Text → (User → User) → World → Option User → Result (Unit {0}) × World
changed id f w o = elim o [ none ↦ (err no_user, w) | some v ↦ (ok tt, put_user id (some (f v)) w) ]

-- A user that is made has no subusers; one that is there is not made again.
abbrev pub made : User → World → Option User → Result User × World
made u w o = elim o [
  | some v ↦ (err (rgw (text "UserAlreadyExists")), w)
  | none ↦ (
    ok (answered u.id (record u { subusers = [] })),
    put_user u.id (some (record u { subusers = [] })) w,
  )
]

abbrev pub ceph : Rgw World
ceph = record {
  get_user = λ w u. asked u.id (w.ceph_users u.id);
  create_user = λ u w. made u w (w.ceph_users u.id);
  modify_user = λ u w. (asked u.id (w.ceph_users u.id), w);
  remove_user = λ u w. (ok tt, put_user u.id none w);
  get_user_quota = λ w q. ok ceph_quota;
  set_user_quota = λ q w. (ok tt, w);
  create_subuser = λ u s w. changed u.id (add_subuser s) w (w.ceph_users u.id);
  remove_subuser = λ u s w.
      changed u.id (λ v. record v { subusers = drop s.name v.subusers }) w (w.ceph_users u.id);
}

-- Each key of a map once, as a map has it.
abbrev pub entries : Assoc Text → Assoc Text
entries [] = []
entries ((k, v) ∷ m) = (k, v) ∷ erase k (entries m)

abbrev pub put_s3_user : Text → Option (S3User ℤ) → World → World
put_s3_user name o w = record w { s3_users = λ n. if n == name then o else w.s3_users n }

-- The S3Users by their names.
abbrev s3_user_client : KindClient World Text (S3User ℤ)
s3_user_client = record {
  get = λ w name. found (w.s3_users name);
  list = λ w ns. ok [];
  create = λ u w. (ok u, put_s3_user u.meta.name (some u) w);
  update = λ u w. (ok u, put_s3_user u.meta.name (some u) w);
  update_status = λ u w. (ok u, w);
  delete = λ name w. (ok tt, put_s3_user name none w);
}

abbrev pub ceph_env : Env ℤ World
ceph_env = record env { rgw = ceph; range = entries; kube = record kube { users = s3_user_client } }

pub mem-add_subuser :
    (s : SubuserSpec) (v : User) (n : Text)
    → mem n (names (add_subuser s v).subusers)
      ≡ (if s.name == n then true else mem n (names v.subusers))
unfolding mem
mem-add_subuser s v n = elim (Bool-cases (mem s.name (names v.subusers))) [
  | inl there ↦ elim (Bool-cases (s.name == n)) [
    | inl e ↦ let same = ap (λ x. mem x (names v.subusers)) ((eq_iff s.name n).0 e) in ground arith
    | inr e ↦ ground arith
  ]
  | inr absent ↦ ground arith
]

pub mem-drop :
    (k n : Text) (ss : List SubuserSpec)
    → mem n (names (drop k ss)) ≡ (if k == n then false else mem n (names ss))
unfolding mem
mem-drop k n [] = ground arith
mem-drop k n (s ∷ ss) =
    ground (arith, eq_iff s.name k, eq_iff s.name n, eq_iff k n, mem-drop k n ss)

abbrev pub has_subuser : World → Text → Text → Bool
has_subuser w id n = elim (w.ceph_users id) [ none ↦ false | some v ↦ mem n (names v.subusers) ]

pub subuser_created :
    (u : User) (s : SubuserSpec) (w : World)
    → (ceph.create_subuser u s w).0 ≡ ok tt
    → (n : Text)
    → has_subuser (ceph.create_subuser u s w).1 u.id n
      ≡ (if s.name == n then true else has_subuser w u.id n)
subuser_created u s w h n = elim (Option-cases (w.ceph_users u.id)) [
  | inl e ↦ ground arith
  | inr (v, e) ↦ ground (arith, mem-add_subuser s v n, eq_refl u.id)
]

pub subuser_removed :
    (u : User) (s : SubuserSpec) (w : World)
    → (ceph.remove_subuser u s w).0 ≡ ok tt
    → (n : Text)
    → has_subuser (ceph.remove_subuser u s w).1 u.id n
      ≡ (if s.name == n then false else has_subuser w u.id n)
subuser_removed u s w h n = elim (Option-cases (w.ceph_users u.id)) [
  | inl e ↦ ground arith
  | inr (v, e) ↦ ground (arith, mem-drop s.name n v.subusers, eq_refl u.id)
]

abbrev pub ceph_laws : SubuserLaws ceph_env
ceph_laws = record {
  has_subuser = has_subuser;
  created = subuser_created;
  removed = subuser_removed;
  secret_deleted = λ k w id n. refl;
}

erase-DistinctKeys : (k : Text) (m : Assoc Text) → DistinctKeys m → DistinctKeys (erase k m)
unfolding erase lookup
erase-DistinctKeys k [] d = tt
erase-DistinctKeys k ((j, v) ∷ m) d =
    let rest = erase-DistinctKeys k m d.1 in
    elim (Bool-cases (j == k)) [
      | inl e ↦ rw e rest
      | inr e ↦ rw e (ground (arith, lookup-erase k j m, d.0), rest)
    ]

entries-DistinctKeys : (m : Assoc Text) → DistinctKeys (entries m)
entries-DistinctKeys [] = tt
entries-DistinctKeys ((k, v) ∷ m) = (
  ground (arith, lookup-erase k k (entries m), eq_refl k),
  erase-DistinctKeys k (entries m) (entries-DistinctKeys m),
)

lookup-entries : (k : Text) (m : Assoc Text) → lookup k (entries m) ≡ lookup k m
unfolding lookup
lookup-entries k [] = refl
lookup-entries k ((j, v) ∷ m) =
    ground (arith, lookup-erase j k (entries m), lookup-entries k m, eq_iff j k)

DistinctKeys-Once : (entries : Assoc Text) → DistinctKeys entries → Once entries
DistinctKeys-Once [] d = tt
DistinctKeys-Once ((k, v) ∷ entries) d = (
  λ t i. let there = (entries_iff entries d.1 k t).0 i in ground (arith, d.0),
  DistinctKeys-Once entries d.1,
)

pub entries-Once : (m : Assoc Text) → Once (entries m)
entries-Once m = DistinctKeys-Once (entries m) (entries-DistinctKeys m)

pub entries-Visits : (m : Assoc Text) → Visits m (entries m)
entries-Visits m k v =
    let iff = entries_iff (entries m) (entries-DistinctKeys m) k v in
    (λ i. sym (lookup-entries k m) ∙ iff.0 i, λ h. iff.1 (lookup-entries k m ∙ h))
