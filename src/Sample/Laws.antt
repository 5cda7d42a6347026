-- ===== src/Sample/Laws.antt =====
-- The laws of the libraries for the sample environment.
use Prim.Native.Nat.{Ordering}
use ceph_s3_operator.Prelude.{
  ◌≡◌, ◌↔◌, ◌≢◌, inl, inr, refl, ap, sym, Bool, true, false, ◌&&◌, arith, if◌then◌else◌, Bool-cases,
  Option-cases, ◌<◌, ◌^◌,
}
use ceph_s3_operator.Prelude.Int.{ℤ, pos, negsuc, ◌≤ℤ◌}
use ceph_s3_operator.Prelude.Text.{Text, ◌==◌, eq_iff, eq_refl}
use ceph_s3_operator.Prelude.Assoc.{Assoc, lookup}
use ceph_s3_operator.Go.{ok, ok_injective}
use ceph_s3_operator.Quota.Sums.{QuantityLaws}
use ceph_s3_operator.ClaimController.Subusers.Sync.{SubuserLaws}
use ceph_s3_operator.ClaimController.Secrets.Complete.{SecretFrame}
use ceph_s3_operator.ClaimController.Secrets.Stored.{SecretLaws, IsStored}
use ceph_s3_operator.ClaimController.Secrets.{key_of}
use ceph_s3_operator.Names.{NamespacedName}
use ceph_s3_operator.ClaimController.CephUser.Writes.{DecodesFresh}
use ceph_s3_operator.ClaimController.S3User.Requests.{RefersByName}
use ceph_s3_operator.Api.{Secret}
use ceph_s3_operator.Sample.{bits, quantities, World, get_secret, put_secret, keyed, controls, env}

pub bits_bound : (a : ℤ) → bits a < 2 ^ 64
bits_bound (pos n) = omega arith
bits_bound (negsuc n) = omega arith

pub cmp_gt : (a b : ℤ) → (quantities.cmp a b ≡ Ordering.gt) ↔ (¬ (a ≤ℤ b))
cmp_gt a b = ground arith

abbrev pub quantity_laws : QuantityLaws quantities
quantity_laws = record {
  amount = λ a. a;
  amount_zero = refl;
  amount-add = λ a b. refl;
  cmp_gt = cmp_gt;
  int64_value_bound = bits_bound;
}

pub subuser_updated :
    (a b c d : Bool) → a ≡ true → ◌≡◌ {A = Bool} (if a && b then c else d) (if b then c else d)
subuser_updated a b c d h = ground arith

abbrev pub subuser_laws : SubuserLaws env
subuser_laws = record {
  has_subuser = λ w. w.subuser_of;
  created = λ u s w h n. subuser_updated _ _ _ _ (eq_refl u.id);
  removed = λ u s w h n. subuser_updated _ _ _ _ (eq_refl u.id);
  secret_deleted = λ key w id n. refl;
}

pub put_secret-IsStored : (s : Secret) (w : World) → IsStored env (put_secret s w) s
put_secret-IsStored s w = record {
  stored = s;
  found = rw (get_secret, eq_refl s.meta.namespace, eq_refl s.meta.name) refl;
  contents = refl;
  owners = refl;
}

pub get_secret_key :
    (w : World) (key : NamespacedName) (s : Secret) → get_secret w key ≡ ok s → key_of s ≡ key
get_secret_key w key s h = elim (Option-cases (w.secret_at key.namespace key.name)) [
  | inl e ↦ ground arith
  | inr (t, e) ↦
      let same : ok (keyed key t) ≡ ok s = rw (get_secret, e) at h in
      ap key_of (sym (ok_injective same))
]

pub never_equal :
    (a b : Assoc Text) → ◌≡◌ {A = Bool} false true → (k : Text) → lookup k a ≡ lookup k b
never_equal a b h k = cc

abbrev pub secret_laws : SecretLaws env
secret_laws = record {
  got_key = get_secret_key;
  created = λ s t w h. put_secret-IsStored s w;
  updated = λ s t w h. put_secret-IsStored s w;
  equal_contents = never_equal;
  referenced = λ owner m m' h.
      let e = ok_injective h in (rw (← e) (eq_refl owner.uid), rw (← e) refl, rw (← e) refl);
  by_owners = λ owner m m' h. ap (λ refs. controls refs owner.uid) h;
}

pub decodes_fresh : DecodesFresh env
decodes_fresh w u v cell h e = elim (Option-cases w.ceph_user) [
  | inl nobody ↦ ground arith
  | inr (there, p) ↦ elim (Option-cases there.max_buckets) [
    | inl nil ↦ ground arith
    | inr (c, q) ↦ ground arith
  ]
]

pub refers_by_name : RefersByName env
refers_by_name m ref h = let same = ok_injective h in (rw (← same) refl, rw (← same) refl)

pub put_secret_frame :
    (s : Secret) (w : World) (key : NamespacedName)
    → key ≢ key_of s
    → get_secret (put_secret s w) key ≡ get_secret w key
put_secret_frame s w key apart =
    elim (Bool-cases (key.namespace == s.meta.namespace && key.name == s.meta.name)) [
      | inl both ↦
          let namespace = (eq_iff key.namespace s.meta.namespace).0 (ground arith) in
          let name = (eq_iff key.name s.meta.name).0 (ground arith) in
          absurd (apart (λ i. record { namespace = namespace i; name = name i }))
      | inr other ↦ rw (get_secret, other) refl
    ]

abbrev pub secret_frame : SecretFrame env
secret_frame = record {
  created = λ s t w key h apart. put_secret_frame s w key apart;
  updated = λ s t w key h apart. put_secret_frame s w key apart;
}
