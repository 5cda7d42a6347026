-- ===== src/Sample.antt =====
-- A small cluster with one Ceph, as a concrete environment: it shows that what the theorems
-- assume of the libraries can hold, and the tests run the code in it.
pub mod Laws
pub mod Ranges
pub mod Objects
pub mod Ceph
pub mod Plain
pub mod Store
pub mod Working
use Prim.Native.Nat.{compare}
use ceph_s3_operator.Prelude.{
  ℕ, suc, ◌+◌, ◌-◌, ◌%◌, ◌^◌, Bool, true, false, ◌&&◌, Option, none, some, List, [], ◌∷◌,
  if◌then◌else◌,
}
use ceph_s3_operator.Prelude.Int.{ℤ, pos, negsuc, ◌+ℤ◌, pos_part, neg_part}
use ceph_s3_operator.Prelude.Text.{Text, text, ◌==◌}
use ceph_s3_operator.Go.{Error, Result, ok, err, status, rgw}
use ceph_s3_operator.Names.{NamespacedName}
use ceph_s3_operator.Api.{
  ObjectMeta, OwnerReference, ObjectReference, UserQuota, S3UserClaim, S3User, S3Bucket, Secret,
  ResourceQuota, Namespace, ClusterResourceQuota, QuotaSpec, User, SubuserSpec, empty_meta,
  empty_claim, empty_quota_spec, Cell,
}
use ceph_s3_operator.Env.{Quantities, KindClient, Kube, Rgw, S3, Codes, Env}

-- An int64 of a whole number.
abbrev pub bits : ℤ → ℕ
bits (pos n) = n % 2 ^ 64
bits (negsuc n) = 2 ^ 64 - 1 - n % 2 ^ 64

abbrev pub quantities : Quantities ℤ
quantities = record {
  zero_quantity = pos 0;
  add = λ a b. a +ℤ b;
  cmp = λ a b. compare (pos_part a + neg_part b) (pos_part b + neg_part a);
  int64_value = bits;
  new_quantity = pos;
}

pub record World : Type 0 where
  pub claim_list : List (S3UserClaim ℤ)
  pub namespace_list : List Namespace
  pub quota_list : List (ResourceQuota ℤ)
  pub cluster_quota : Option (ClusterResourceQuota ℤ)
  pub bucket_list : List S3Bucket
  pub ceph_user : Option User
  pub ceph_users : Text → Option User
  pub s3_users : Text → Option (S3User ℤ)
  pub s3_has : Text → Bool
  pub s3_policy : Text → Option Text
  pub ceph_quota : QuotaSpec
  pub subuser_of : Text → Text → Bool
  pub secret_at : Text → Text → Option Secret

abbrev pub absent : Error
absent = status (text "NotFound") (text "not found")

abbrev pub found : {A : Type 0} → Option A → Result A
found none = err absent
found (some a) = ok a

abbrev pub claims_in : Text → List (S3UserClaim ℤ) → List (S3UserClaim ℤ)
claims_in ns [] = []
claims_in ns (c ∷ cs) =
    let rest = claims_in ns cs in if c.meta.namespace == ns then c ∷ rest else rest

abbrev claim_at : NamespacedName → List (S3UserClaim ℤ) → Option (S3UserClaim ℤ)
claim_at key [] = none
claim_at key (c ∷ cs) =
    let rest = claim_at key cs in
    if c.meta.namespace == key.namespace && c.meta.name == key.name then some c else rest

abbrev namespace_at : Text → List Namespace → Option Namespace
namespace_at name [] = none
namespace_at name (ns ∷ rest) =
    let more = namespace_at name rest in if ns.meta.name == name then some ns else more

abbrev pub bucket_at : NamespacedName → List S3Bucket → Option S3Bucket
bucket_at key [] = none
bucket_at key (b ∷ bs) =
    let rest = bucket_at key bs in
    if b.meta.namespace == key.namespace && b.meta.name == key.name then some b else rest

-- A secret as it is under a key.
abbrev pub keyed : NamespacedName → Secret → Secret
keyed key s = record s { meta = record (s.meta) { namespace = key.namespace; name = key.name } }

abbrev pub get_secret : World → NamespacedName → Result Secret
get_secret w key = elim (w.secret_at key.namespace key.name) [
  | none ↦ err absent
  | some s ↦ ok (keyed key s)
]

abbrev pub put_secret : Secret → World → World
put_secret s w = record w {
  secret_at =
      λ ns n. if ns == s.meta.namespace && n == s.meta.name then some s else w.secret_at ns n;
}

-- A client that reads as given, and whose writes succeed and are not read back.
abbrev reading :
    {K O : Type 0}
    → (World → K → Result O)
    → (World → Text → Result (List O))
    → KindClient World K O
reading get list = record {
  get = get;
  list = list;
  create = λ o w. (ok o, w);
  update = λ o w. (ok o, w);
  update_status = λ o w. (ok o, w);
  delete = λ k w. (ok tt, w);
}

abbrev secret_client : KindClient World NamespacedName Secret
secret_client = record {
  get = get_secret;
  list = λ w ns. ok [];
  create = λ s w. (ok s, put_secret s w);
  update = λ s w. (ok s, put_secret s w);
  update_status = λ s w. (ok s, w);
  delete = λ key w. (
    ok tt,
    record w {
      secret_at = λ ns n. if ns == key.namespace && n == key.name then none else w.secret_at ns n;
    },
  );
}

abbrev pub controls : List OwnerReference → Text → Bool
controls [] uid = false
controls (ref ∷ refs) uid = ref.uid == uid

abbrev pub kube : Kube ℤ World
kube = record {
  claims =
      reading (λ w key. found (claim_at key w.claim_list)) (λ w ns. ok (claims_in ns w.claim_list));
  users = reading (λ w name. err absent) (λ w ns. ok []);
  buckets = reading (λ w key. found (bucket_at key w.bucket_list)) (λ w ns. ok w.bucket_list);
  secrets = secret_client;
  resource_quotas = reading (λ w key. err absent) (λ w ns. ok w.quota_list);
  namespaces =
      reading (λ w name. found (namespace_at name w.namespace_list)) (λ w ns. ok w.namespace_list);
  cluster_quotas = reading (λ w name. found w.cluster_quota) (λ w ns. ok []);
  uncached_claims = λ w ns. ok (claims_in ns w.claim_list);
  all_namespaces = λ w. ok w.namespace_list;
  set_controller_reference = λ owner m.
      ok (record m { owner_references = record { uid = owner.uid; controller = true } ∷ [] });
  is_controlled_by = λ m owner. controls m.owner_references owner.uid;
  add_finalizer = λ f m. (record m { finalizers = f ∷ [] }, true);
  remove_finalizer = λ f m. (record m { finalizers = [] }, true);
  get_reference = λ m. ok (record { namespace = m.namespace; name = m.name });
}

abbrev with_subuser : Text → Text → Bool → World → World
with_subuser id name b w = record w {
  subuser_of = λ i n. if i == id && name == n then b else w.subuser_of i n;
}

abbrev pub no_user : Error
no_user = rgw (text "NoSuchUser")

-- A user as decoded: its pointer is new.
abbrev decoded : Option Cell → Option Cell
decoded none = none
decoded (some cell) = some (record cell { address = 7 })

abbrev pub answered_user : World → Result User
answered_user w = elim w.ceph_user [
  | none ↦ err no_user
  | some v ↦ ok (record v { max_buckets = decoded v.max_buckets })
]

abbrev pub rgw_calls : Rgw World
rgw_calls = record {
  get_user = λ w u. answered_user w;
  create_user = λ u w. (ok u, record w { ceph_user = some u });
  modify_user = λ u w. (answered_user w, w);
  remove_user = λ u w. (ok tt, record w { ceph_user = none });
  get_user_quota = λ w q. ok w.ceph_quota;
  set_user_quota = λ q w. (ok tt, record w { ceph_quota = q });
  create_subuser = λ u s w. (ok tt, with_subuser u.id s.name true w);
  remove_subuser = λ u s w. (ok tt, with_subuser u.id s.name false w);
}

abbrev pub s3_calls : S3 World
s3_calls = record {
  new_session = λ c. ok tt;
  create_bucket = λ c n w. (ok tt, w);
  delete_bucket = λ c n w. (ok tt, w);
  put_bucket_policy = λ c n p w. (ok tt, w);
  marshal = λ p. ok p.id;
  range_slices = λ m. m;
}

abbrev pub env : Env ℤ World
env = record {
  quantities = quantities;
  kube = kube;
  rgw = rgw_calls;
  s3 = s3_calls;
  codes = record {
    not_found = text "NotFound";
    no_such_user = text "NoSuchUser";
    no_such_bucket = text "NoSuchBucket";
    bucket_already_exists = text "BucketAlreadyExists";
    bucket_already_owned_by_you = text "BucketAlreadyOwnedByYou";
    subuser_access_none = [];
  };
  deep_equal = λ A a b. false;
  retry_on_conflict = λ A f. f;
  range = λ m. m;
}
