-- ===== src/Admission/References.antt =====
-- The references of the stored buckets to claims, over the requests that the validators of
-- api/v1alpha1/s3userclaim_webhook.go and s3bucket_webhook.go admit.
use ceph_s3_operator.Prelude.{
  ◌≡◌, inl, inr, refl, sym, ◌∙◌, ap, ◌⊎◌, ◌≢◌, Option, false, ◌&&◌, some, none, arith, Bool-cases,
  In-All, some_injective,
}
use mathlib.Core.Path.{subst}
use ceph_s3_operator.Prelude.Text.{◌==◌, eq_iff}
use ceph_s3_operator.Names.{NamespacedName}
use ceph_s3_operator.Api.{S3UserClaim, S3Bucket}
use ceph_s3_operator.Env.{Env}
use ceph_s3_operator.ClaimWebhook.Deletion.{validate_delete_iff}
use ceph_s3_operator.BucketWebhook.References.{bucket_create_iff, bucket_update_iff}
use ceph_s3_operator.Admission.{key_of, Objects, put, Store, empty_store, marked, Accepted, Reach}

module _ {Q W : Type 0} (env : Env Q W) where
  abbrev claim_key : NamespacedName → S3Bucket → NamespacedName
  claim_key key b = record { namespace = key.namespace; name = b.spec.s3_user_ref }

  -- Every stored bucket refers to a stored claim of its namespace that is not being deleted.
  abbrev pub HasClaims : Store Q → Type 0
  HasClaims s =
      (key : NamespacedName) (b : S3Bucket)
      → s.buckets key ≡ some b
      → (c : S3UserClaim Q) × (s.claims (claim_key key b) ≡ some c) × (c.meta.deleting ≡ false)

  put-cases :
      {O : Type 0} (key k : NamespacedName) (o : Option O) (objects : Objects O)
      → ((k ≡ key) × (put key o objects k ≡ o)) ⊎ ((k ≢ key) × (put key o objects k ≡ objects k))
  put-cases key k o objects =
      let ns = eq_iff k.namespace key.namespace in
      let name = eq_iff k.name key.name in
      elim (Bool-cases (k.namespace == key.namespace && k.name == key.name)) [
        | inl both ↦
            let p = ns.0 (ground arith) in
            let q = name.0 (ground arith) in
            inl ((λ i. record { namespace = p i; name = q i }), ground arith)
        | inr other ↦ inr (
          (λ e.
              let p = ap (λ (x : NamespacedName). x.namespace) e in
              let q = ap (λ (x : NamespacedName). x.name) e in ground (arith, ns.1 p, name.1 q)),
          ground arith,
        )
      ]

  -- A claim is put under a key, or taken from it: what refers to that key has to find it there.
  put_claim-HasClaims :
      (s : Store Q) (key : NamespacedName) (o : Option (S3UserClaim Q))
      → HasClaims s
      → ((k : NamespacedName) (b : S3Bucket)
          → s.buckets k ≡ some b
          → claim_key k b ≡ key
          → (c : S3UserClaim Q) × (o ≡ some c) × (c.meta.deleting ≡ false))
      → HasClaims (record s { claims = put key o s.claims })
  put_claim-HasClaims s key o h there k b e = elim (put-cases key (claim_key k b) o s.claims) [
    | inl (same, is) ↦ let (c, p, q) = there k b e same in (c, is ∙ p, q)
    | inr (apart, is) ↦ let (c, p, q) = h k b e in (c, is ∙ p, q)
  ]

  put_bucket-HasClaims :
      (s : Store Q) (key : NamespacedName) (o : Option S3Bucket)
      → HasClaims s
      → ((b : S3Bucket)
          → o ≡ some b
          → (c : S3UserClaim Q) × (s.claims (claim_key key b) ≡ some c) × (c.meta.deleting ≡ false))
      → HasClaims (record s { buckets = put key o s.buckets })
  put_bucket-HasClaims s key o h there k b e = elim (put-cases key k o s.buckets) [
    | inl (same, is) ↦
        let found = there b (sym is ∙ e) in
        subst
          (λ x.
            (c : S3UserClaim Q) × (s.claims (claim_key x b) ≡ some c) × (c.meta.deleting ≡ false))
          (sym same) found
    | inr (apart, is) ↦ h k b (sym is ∙ e)
  ]

  stored_claim :
      (s : Store Q) (k key : NamespacedName) (c c' : S3UserClaim Q)
      → s.claims k ≡ some c
      → k ≡ key
      → s.claims key ≡ some c'
      → c ≡ c'
  stored_claim s k key c c' h same h' = some_injective (sym h ∙ (ap s.claims same ∙ h'))

  Accepted-HasClaims : (s t : Store Q) → Accepted env s t → HasClaims s → HasClaims t
  Accepted-HasClaims _ _ (Accepted.claim_created s w c shows free admitted) h =
      put_claim-HasClaims s (key_of c.meta) (some c) h (λ k b e same.
        let (c', p, q) = h k b e in
        let at : s.claims (key_of c.meta) ≡ some c' = sym (ap s.claims same) ∙ p in ground arith)
  Accepted-HasClaims _ _ (Accepted.claim_updated s w old c shows found kept admitted) h =
      put_claim-HasClaims s (key_of c.meta) (some c) h (λ k b e same.
        let (c', p, q) = h k b e in
        (
          c,
          refl,
          kept
              ∙ (ap (λ (x : S3UserClaim Q). x.meta.deleting)
                    (sym (stored_claim s _ _ c' old p same found))
                  ∙ q),
        ))
  Accepted-HasClaims _ _ (Accepted.claim_deleted s w c shows found admitted) h =
      let (items, listed, all) = (validate_delete_iff env w c).0 admitted in
      put_claim-HasClaims s (key_of c.meta) (some (marked c)) h (λ k b e same.
        let ns : k.namespace ≡ c.meta.namespace = ap (λ (x : NamespacedName). x.namespace) same in
        let user : b.spec.s3_user_ref ≡ c.meta.name = ap (λ (x : NamespacedName). x.name) same in
        let stands = shows.lists k b items (ap (env.buckets.list w) ns ∙ listed) e in
        absurd (In-All (λ x. x.spec.s3_user_ref ≢ c.meta.name) b items stands all user))
  Accepted-HasClaims _ _ (Accepted.claim_removed s key c found deleting) h =
      put_claim-HasClaims s key none h (λ k b e same.
        let (c', p, q) = h k b e in
        let was = stored_claim s _ _ c' c p same found in
        let live = ap (λ (x : S3UserClaim Q). x.meta.deleting) was in ground arith)
  Accepted-HasClaims _ _ (Accepted.bucket_created s w b shows kept admitted) h =
      let (c, got) = (bucket_create_iff env w b).0 admitted in
      put_bucket-HasClaims s (key_of b.meta) (some b) h (λ b' e.
        let there = shows.gets _ c got in
        subst
          (λ x.
            (c : S3UserClaim Q) × (s.claims (claim_key (key_of b.meta) x) ≡ some c)
            × (c.meta.deleting ≡ false))
          (some_injective e) (c, there, kept c there))
  Accepted-HasClaims _ _ (Accepted.bucket_updated s old b found admitted) h =
      let same = (bucket_update_iff env old b).0 admitted in
      put_bucket-HasClaims s (key_of b.meta) (some b) h (λ b' e.
        let (c, p, q) = h (key_of b.meta) old found in
        let ref = ap (λ (x : S3Bucket). x.spec.s3_user_ref) (sym (some_injective e)) ∙ same in
        let key = ap (λ r. record { namespace = b.meta.namespace; name = r }) ref in
        (c, ap s.claims key ∙ p, q))
  Accepted-HasClaims _ _ (Accepted.bucket_removed s key b found admitted) h =
      put_bucket-HasClaims s key none h (λ b' e. ground arith)

  -- However requests are admitted one after the other, each on reads of what is stored, and marked
  -- claims disappear, where no bucket is created for a claim that is being deleted: from the empty
  -- store on, every stored bucket refers to a stored claim of its namespace that is not being
  -- deleted.
  pub reach-HasClaims : (s : Store Q) → Reach env empty_store s → HasClaims s
  reach-HasClaims s reach = from empty_store s reach (λ key b e. ground arith)
    where
      from : (s t : Store Q) → Reach env s t → HasClaims s → HasClaims t
      from _ _ (Reach.here s) h = h
      from _ _ (Reach.after s t u run step) h = Accepted-HasClaims t u step (from s t run h)
