-- ===== src/BucketController/Progress.antt =====
-- `Reconcile` of internal/controllers/s3bucket/handler.go for a bucket that is there, from a world
-- on in which the calls are answered.
use ceph_s3_operator.Prelude.{Bool, Option, ◌≡◌, ◌⊎◌, true, some, []}
use ceph_s3_operator.Prelude.Text.{Text}
use ceph_s3_operator.Go.{Error, Result, ok, err, aws_code}
use ceph_s3_operator.Names.{NamespacedName}
use ceph_s3_operator.Api.{ObjectMeta, S3Bucket, S3BucketStatus}
use ceph_s3_operator.Env.{Env, AwsConfig, Policy}
use ceph_s3_operator.S3Agent.{S3Agent, bucket_policy}
use ceph_s3_operator.BucketController.{State}

module _ {Q W : Type 0} (env : Env Q W) where
  -- In a world with `Up m w` S3 and the API server answer, `m` is the metadata of the bucket at hand
  -- as the API server has it, so that a write of it is no conflict, and its name is free in S3 or
  -- stands for a bucket of the same user. What S3 has is what `bucket_at` and `policy_at` say: a
  -- bucket is there once it is made or was there already, a policy is taken for a bucket that is
  -- there, and writes to the API server do not change either. A call that succeeds is not tried
  -- again.
  pub record Answering (Up : ObjectMeta → W → Type 0) : Type 0 where
    pub bucket_at : AwsConfig → Text → W → Bool
    pub policy_at : AwsConfig → Text → W → Option Text
    pub session : (c : AwsConfig) → env.new_session c ≡ ok tt
    pub named :
        (key : NamespacedName) (b : S3Bucket) (w : W)
        → env.buckets.get w key ≡ ok b
        → b.meta.name ≡ key.name
    pub creates :
        (c : AwsConfig) (m : ObjectMeta) (w : W)
        → Up m w
        → (((env.create_bucket c m.name w).0 ≡ ok tt)
            ⊎ ((e : Error) × ((env.create_bucket c m.name w).0 ≡ err e)
                × (aws_code e ≡ some env.bucket_already_owned_by_you)))
          × Up m (env.create_bucket c m.name w).1
          × (bucket_at c m.name (env.create_bucket c m.name w).1 ≡ true)
    pub puts :
        (c : AwsConfig) (m : ObjectMeta) (policy : Text) (w : W)
        → Up m w
        → bucket_at c m.name w ≡ true
        → ((env.put_bucket_policy c m.name policy w).0 ≡ ok tt)
          × Up m (env.put_bucket_policy c m.name policy w).1
          × (bucket_at c m.name (env.put_bucket_policy c m.name policy w).1 ≡ true)
          × (policy_at c m.name (env.put_bucket_policy c m.name policy w).1 ≡ some policy)
    pub marshals : (p : Policy) → (t : Text) × (env.marshal p ≡ ok t)
    pub stores_status :
        (b : S3Bucket) (w : W)
        → Up b.meta w
        → (stored : S3Bucket) × ((env.buckets.update_status b w).0 ≡ ok stored)
          × (stored.status ≡ b.status)
          × Up stored.meta (env.buckets.update_status b w).1
    pub status_keeps :
        (b : S3Bucket) (c : AwsConfig) (name : Text) (w : W)
        → (bucket_at c name (env.buckets.update_status b w).1 ≡ bucket_at c name w)
          × (policy_at c name (env.buckets.update_status b w).1 ≡ policy_at c name w)
    pub stores :
        (b : S3Bucket) (w : W)
        → Up b.meta w
        → (stored : S3Bucket) × ((env.buckets.update b w).0 ≡ ok stored)
          × (stored.status ≡ b.status)
          × Up stored.meta (env.buckets.update b w).1
    pub update_keeps :
        (b : S3Bucket) (c : AwsConfig) (name : Text) (w : W)
        → (bucket_at c name (env.buckets.update b w).1 ≡ bucket_at c name w)
          × (policy_at c name (env.buckets.update b w).1 ≡ policy_at c name w)
    pub adds_finalizer :
        (f : Text) (m : ObjectMeta) (w : W) → Up m w → Up (env.add_finalizer f m).0 w
    pub not_again :
        (f : W → Result S3Bucket × W) (w : W) (b : S3Bucket)
        → (f w).0 ≡ ok b
        → env.retry_on_conflict S3Bucket f w ≡ f w
    pub equal : (a b : S3BucketStatus) → env.deep_equal S3BucketStatus a b ≡ true → a ≡ b

  module _ (Up : ObjectMeta → W → Type 0) (answering : Answering Up) where
    -- S3 has the bucket with this policy.
    abbrev pub HasPolicy : AwsConfig → Text → Text → W → Type 0
    HasPolicy c name policy w =
        (answering.bucket_at c name w ≡ true) × (answering.policy_at c name w ≡ some policy)

    -- The bucket is there with its policy, and its status says so.
    pub record IsProvided (client : AwsConfig) (name : Text) (policy : Policy) (r : State W)
        : Type 0 where
      pub marshalled : env.marshal policy ≡ ok r.bucket_policy
      pub status :
          r.s3_bucket.status ≡ record { created = true; reason = []; policy = r.bucket_policy }
      pub has_policy : HasPolicy client name r.bucket_policy r.world
      pub up : Up r.s3_bucket.meta r.world

    -- The reconciler after `Reconcile` has read the bucket.
    abbrev pub with_object : NamespacedName → S3Bucket → State W → State W
    with_object req bucket r = record r {
      s3_bucket = bucket;
      s3_user_ref = bucket.spec.s3_user_ref;
      s3_bucket_name = req.name;
    }
