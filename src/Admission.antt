-- ===== src/Admission.antt =====
-- The objects that both webhooks of api/v1alpha1 guard, as the API server keeps them: what it
-- stores after a request that `ValidateCreate`, `ValidateUpdate` or `ValidateDelete` has admitted.
--
-- The deletion of a claim only marks it, since it has a finalizer; later the controller takes the
-- finalizer away, and the claim is gone.
pub mod References
pub mod Sums
pub mod Limits
use ceph_s3_operator.Prelude.{
  ◌≡◌, Bool, true, false, ◌&&◌, Option, none, some, List, if◌then◌else◌, In,
}
use ceph_s3_operator.Prelude.Text.{◌==◌}
use ceph_s3_operator.Go.{ok}
use ceph_s3_operator.Names.{NamespacedName}
use ceph_s3_operator.Api.{ObjectMeta, S3UserClaim, S3Bucket}
use ceph_s3_operator.Env.{Env}
use ceph_s3_operator.ClaimWebhook as Claim
use ceph_s3_operator.ClaimWebhook.{allowed, claim_object, bucket_object}
use ceph_s3_operator.BucketWebhook as Bucket

abbrev pub key_of : ObjectMeta → NamespacedName
key_of meta = record { namespace = meta.namespace; name = meta.name }

abbrev pub Objects : Type 0 → Type 0
Objects O = NamespacedName → Option O

abbrev pub put : {O : Type 0} → NamespacedName → Option O → Objects O → Objects O
put key o objects = λ k. if k.namespace == key.namespace && k.name == key.name then o else objects k

pub record Store (Q : Type 0) : Type 0 where
  pub claims : Objects (S3UserClaim Q)
  pub buckets : Objects S3Bucket

abbrev pub empty_store : {Q : Type 0} → Store Q
empty_store = record { claims = λ key. none; buckets = λ key. none }

abbrev pub marked : {Q : Type 0} → S3UserClaim Q → S3UserClaim Q
marked c = record c { meta = record (c.meta) { deleting = true } }

module _ {Q W : Type 0} (env : Env Q W) where
  -- What a client reads in a world is what is stored.
  pub record Shows (w : W) (s : Store Q) : Type 0 where
    pub gets :
        (key : NamespacedName) (c : S3UserClaim Q)
        → env.claims.get w key ≡ ok c
        → s.claims key ≡ some c
    pub lists :
        (key : NamespacedName) (b : S3Bucket) (items : List S3Bucket)
        → env.buckets.list w key.namespace ≡ ok items
        → s.buckets key ≡ some b
        → In b items

  -- One admitted request, or the end of a deletion. `bucket_created` leaves out the creation of a
  -- bucket for a claim that is being deleted, which the webhook admits.
  pub data Accepted : Store Q → Store Q → Type 0 where
    claim_created :
        (s : Store Q) (w : W) (c : S3UserClaim Q)
        → Shows w s
        → s.claims (key_of c.meta) ≡ none
        → Claim.validate_create env w c ≡ allowed
        → Accepted s (record s { claims = put (key_of c.meta) (some c) s.claims })
    claim_updated :
        (s : Store Q) (w : W) (old c : S3UserClaim Q)
        → Shows w s
        → s.claims (key_of c.meta) ≡ some old
        → c.meta.deleting ≡ old.meta.deleting
        → Claim.validate_update env w (claim_object old) c ≡ allowed
        → Accepted s (record s { claims = put (key_of c.meta) (some c) s.claims })
    claim_deleted :
        (s : Store Q) (w : W) (c : S3UserClaim Q)
        → Shows w s
        → s.claims (key_of c.meta) ≡ some c
        → Claim.validate_delete env w c ≡ allowed
        → Accepted s (record s { claims = put (key_of c.meta) (some (marked c)) s.claims })
    claim_removed :
        (s : Store Q) (key : NamespacedName) (c : S3UserClaim Q)
        → s.claims key ≡ some c
        → c.meta.deleting ≡ true
        → Accepted s (record s { claims = put key none s.claims })
    bucket_created :
        (s : Store Q) (w : W) (b : S3Bucket)
        → Shows w s
        → ((c : S3UserClaim Q)
            → s.claims (record { namespace = b.meta.namespace; name = b.spec.s3_user_ref }) ≡ some c
            → c.meta.deleting ≡ false)
        → Bucket.validate_create env w b ≡ allowed
        → Accepted s (record s { buckets = put (key_of b.meta) (some b) s.buckets })
    bucket_updated :
        (s : Store Q) (old b : S3Bucket)
        → s.buckets (key_of b.meta) ≡ some old
        → Bucket.validate_update env (bucket_object old) b ≡ allowed
        → Accepted s (record s { buckets = put (key_of b.meta) (some b) s.buckets })
    bucket_removed :
        (s : Store Q) (key : NamespacedName) (b : S3Bucket)
        → s.buckets key ≡ some b
        → Bucket.validate_delete env b ≡ allowed
        → Accepted s (record s { buckets = put key none s.buckets })

  -- Any number of them.
  pub data Reach : Store Q → Store Q → Type 0 where
    here : (s : Store Q) → Reach s s
    after : (s t u : Store Q) → Reach s t → Accepted t u → Reach s u
