-- ===== src/Sample/Store.antt =====
-- A small S3 next to the sample cluster: it has buckets by their names, each maybe with a policy.
use ceph_s3_operator.Prelude.{
  ◌≡◌, inl, inr, refl, ap, Bool, true, false, ◌&&◌, Option, none, some, some_injective, List, [],
  ◌∷◌, arith, Bool-cases, if◌then◌else◌, ◌∙◌, sym,
}
use ceph_s3_operator.Prelude.Int.{ℤ}
use ceph_s3_operator.Prelude.Text.{Text, text, ◌==◌, eq_iff, eq_refl}
use ceph_s3_operator.Go.{Result, ok, err, aws, ok_injective}
use ceph_s3_operator.Names.{NamespacedName}
use ceph_s3_operator.Api.{ObjectMeta, S3Bucket, S3BucketStatus}
use ceph_s3_operator.Env.{Env}
use ceph_s3_operator.BucketController.Progress.{Answering}
use ceph_s3_operator.Sample.{World, env, s3_calls, bucket_at, found}

abbrev with_bucket : Text → World → World
with_bucket name w = record w { s3_has = λ n. if n == name then true else w.s3_has n }

abbrev with_policy : Text → Text → World → World
with_policy name policy w = record w {
  s3_policy = λ n. if n == name then some policy else w.s3_policy n;
}

abbrev put : Text → Text → World → Bool → Result (Unit {0}) × World
put name policy w has =
    if has then (ok tt, with_policy name policy w) else (err (aws (text "NoSuchBucket") []), w)

abbrev pub s3_env : Env ℤ World
s3_env = record env {
  s3 = record s3_calls {
    create_bucket = λ c n w. (ok tt, with_bucket n w);
    put_bucket_policy = λ c n p w. put n p w (w.s3_has n);
  };
}

bucket_at-name :
    (key : NamespacedName) (bs : List S3Bucket) (b : S3Bucket)
    → bucket_at key bs ≡ some b
    → b.meta.name ≡ key.name
bucket_at-name key [] b h = ground arith
bucket_at-name key (x ∷ bs) b h =
    elim (Bool-cases (x.meta.namespace == key.namespace && x.meta.name == key.name)) [
      | inl same ↦
          ap (λ (y : S3Bucket). y.meta.name) (sym (some_injective (rw same at h)))
          ∙ (eq_iff x.meta.name key.name).0 (ground arith)
      | inr other ↦ bucket_at-name key bs b (rw other at h)
    ]

found_some : {A : Type 0} (o : Option A) (a : A) → found o ≡ ok a → o ≡ some a
found_some none a h = ground arith
found_some (some b) a h = ap some (ok_injective h)

abbrev pub Always : ObjectMeta → World → Type 0
Always m w = Unit

nowhere_equal : (a b : S3BucketStatus) → ◌≡◌ {A = Bool} false true → a ≡ b
nowhere_equal a b h = cc

puts :
    (name policy : Text) (w : World)
    → w.s3_has name ≡ true
    → ((put name policy w (w.s3_has name)).0 ≡ ok tt)
      × Unit {0}
      × ((put name policy w (w.s3_has name)).1.s3_has name ≡ true)
      × ((put name policy w (w.s3_has name)).1.s3_policy name ≡ some policy)
puts name policy w has = rw has (refl, tt, has, rw (eq_refl name) refl)

pub answering : Answering s3_env Always
answering = record {
  bucket_at = λ c name w. w.s3_has name;
  policy_at = λ c name w. w.s3_policy name;
  session = λ c. refl;
  named = λ key b w h. bucket_at-name key w.bucket_list b (found_some _ b h);
  creates = λ c m w up. (inl refl, tt, rw (eq_refl m.name) refl);
  puts = λ c m policy w up has. puts m.name policy w has;
  marshals = λ p. (p.id, refl);
  stores_status = λ b w up. (b, refl, refl, tt);
  status_keeps = λ b c name w. (refl, refl);
  stores = λ b w up. (b, refl, refl, tt);
  update_keeps = λ b c name w. (refl, refl);
  adds_finalizer = λ f m w up. tt;
  not_again = λ f w b h. refl;
  equal = nowhere_equal;
}
