-- ===== src/Sample/Plain.antt =====
-- The users of the small Ceph keep different names for their subusers, and have their keys; the
-- claims of the small cluster keep their quotas.
use ceph_s3_operator.Prelude.{
  ◌≡◌, inl, inr, refl, sym, true, some, List, [], ◌∷◌, All, arith, Bool-cases,
}
use mathlib.Core.Path.{subst}
use ceph_s3_operator.Prelude.Text.{Text, ◌==◌, eq_iff, eq_refl}
use ceph_s3_operator.Prelude.Int.{ℤ}
use ceph_s3_operator.Sample.Ceph.{put_user}
use ceph_s3_operator.Prelude.{some_injective, Option}
use ceph_s3_operator.Api.{
  ObjectMeta, ResourceQuota, User, UserQuota, UserKeySpec, SubuserSpec, S3UserClaim,
}
use ceph_s3_operator.ClaimController.Subusers.Tags.{mem, Distinct, names}
use ceph_s3_operator.ClaimController.Subusers.Sync.{Parses}
use ceph_s3_operator.ClaimController.Secrets.{find_key}
use ceph_s3_operator.ClaimController.Progress.{HasKey}
use ceph_s3_operator.Sample.{World, claims_in}
use ceph_s3_operator.Sample.Ceph.{answered, add_subuser, drop, mem-add_subuser, mem-drop, keys_of}
use ceph_s3_operator.Sample.Objects.{key}

-- The subusers have different names, which can be parsed.
abbrev pub IsPlain : User → Type 0
IsPlain v = Distinct (names v.subusers) × ((n : Text) → mem n (names v.subusers) ≡ true → Parses n)

abbrev pub HasQuota : S3UserClaim ℤ → Type 0
HasQuota c = (q : UserQuota ℤ) × (c.spec.quota ≡ some q)

abbrev pub ClaimsOf : World → Type 0
ClaimsOf w = All HasQuota w.claim_list

abbrev pub AllPlain : World → Type 0
AllPlain w = (id : Text) (v : User) → w.ceph_users id ≡ some v → IsPlain v

abbrev pub Up : ObjectMeta → World → Type 0
Up m w = AllPlain w × ClaimsOf w

abbrev pub HasUser : Text → World → Type 0
HasUser id w = (v : User) × (w.ceph_users id ≡ some v)

abbrev pub Known : Text → ObjectMeta → World → Type 0
Known id m w = HasUser id w × AllPlain w × ClaimsOf w

abbrev pub Listed : List (ResourceQuota ℤ) → World → Type 0
Listed items w = Unit

pub put_user-AllPlain :
    (id : Text) (v : User) (w : World) → IsPlain v → AllPlain w → AllPlain (put_user id (some v) w)
put_user-AllPlain id v w plain all i x h = elim (Bool-cases (i == id)) [
  | inl same ↦ subst IsPlain (some_injective (rw same at h)) plain
  | inr other ↦ all i x (rw other at h)
]

pub put_user_same : (id : Text) (o : Option User) (w : World) → (put_user id o w).ceph_users id ≡ o
put_user_same id o w = rw (eq_refl id) refl

pub claims_in-All :
    (ns : Text) (cs : List (S3UserClaim ℤ)) → All HasQuota cs → All HasQuota (claims_in ns cs)
claims_in-All ns [] h = tt
claims_in-All ns (c ∷ cs) h = elim (Bool-cases (c.meta.namespace == ns)) [
  | inl e ↦ rw e (h.0, claims_in-All ns cs h.1)
  | inr e ↦ rw e (claims_in-All ns cs h.1)
]

pub add_subuser-IsPlain :
    (s : SubuserSpec) (v : User) → Parses s.name → IsPlain v → IsPlain (add_subuser s v)
add_subuser-IsPlain s v parses (distinct, all) = (
  elim (Bool-cases (mem s.name (names v.subusers))) [
    | inl e ↦ rw e distinct
    | inr e ↦ rw e (e, distinct)
  ],
  λ n h. elim (Bool-cases (s.name == n)) [
    | inl e ↦ subst Parses ((eq_iff s.name n).0 e) parses
    | inr e ↦ let now = mem-add_subuser s v n in all n (ground arith)
  ],
)

pub drop-Distinct :
    (k : Text) (ss : List SubuserSpec) → Distinct (names ss) → Distinct (names (drop k ss))
drop-Distinct k [] d = tt
drop-Distinct k (s ∷ ss) d = elim (Bool-cases (s.name == k)) [
  | inl e ↦ rw e (drop-Distinct k ss d.1)
  | inr e ↦ rw e ((let gone = mem-drop k s.name ss in ground (arith, d.0)), drop-Distinct k ss d.1)
]

pub drop-IsPlain :
    (k : Text) (v : User) → IsPlain v → IsPlain (record v { subusers = drop k v.subusers })
drop-IsPlain k v (distinct, all) = (
  drop-Distinct k v.subusers distinct,
  λ n h. all n (let now = mem-drop k n v.subusers in ground arith),
)

pub own_key :
    (n : Text) (keys : List UserKeySpec) → (k : UserKeySpec) × (find_key n (key n ∷ keys) ≡ some k)
unfolding find_key
own_key n keys = (key n, ground (arith, eq_refl n))

pub later_key :
    (n : Text) (first : UserKeySpec) (keys : List UserKeySpec)
    → (k : UserKeySpec) × (find_key n keys ≡ some k)
    → (k : UserKeySpec) × (find_key n (first ∷ keys) ≡ some k)
unfolding find_key
later_key n first keys (k, e) = elim (Bool-cases (first.user == n)) [
  | inl own ↦ (first, rw own refl)
  | inr other ↦ (k, rw other e)
]

pub subuser_key :
    (n : Text) (ss : List SubuserSpec)
    → mem n (names ss) ≡ true
    → (k : UserKeySpec) × (find_key n (keys_of ss) ≡ some k)
unfolding mem
subuser_key n [] h = ground arith
subuser_key n (s ∷ ss) h = elim (Bool-cases (s.name == n)) [
  | inl e ↦
      subst (λ x. (k : UserKeySpec) × (find_key n (key x ∷ keys_of ss) ≡ some k))
        (sym ((eq_iff s.name n).0 e)) (own_key n (keys_of ss))
  | inr e ↦ later_key n (key s.name) (keys_of ss) (subuser_key n ss (ground arith))
]

pub retrieve :
    (id : Text) (v : User)
    → HasKey id (answered id v)
      × ((n : Text) → mem n (names v.subusers) ≡ true → HasKey n (answered id v))
retrieve id v = (
  own_key id (keys_of v.subusers),
  λ n h. later_key n (key id) (keys_of v.subusers) (subuser_key n v.subusers h),
)
