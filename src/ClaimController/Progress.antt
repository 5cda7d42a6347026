-- ===== src/ClaimController/Progress.antt =====
-- What the steps of `Provision` in internal/controllers/s3userclaim/provisioner.go need of Ceph and
-- of the API server to go on.
pub mod Ceph
pub mod Secrets
pub mod Objects
pub mod Steps
pub mod Round
pub mod Cleanup
use ceph_s3_operator.Prelude.{ℕ, ◌≡◌, ◌⊎◌, Bool, true, false, some, [], ◌∷◌, In, List, All}
use ceph_s3_operator.Prelude.Text.{Text}
use ceph_s3_operator.Prelude.Assoc.{Assoc}
use ceph_s3_operator.Go.{Error, Result, ok, err, wraps_rgw, has_reason}
use ceph_s3_operator.Names.{NamespacedName}
use ceph_s3_operator.Api.{
  ObjectMeta, ObjectReference, UserQuota, S3UserClaim, S3User, Secret, ResourceQuota,
  ResourceQuotaStatus, SubuserSpec, QuotaSpec, User, UserKeySpec, user_with_id,
}
use ceph_s3_operator.Env.{Env}
use ceph_s3_operator.ClaimController.Subusers.Tags.{mem, Distinct, names}
use ceph_s3_operator.ClaimController.Subusers.Sync.{SubuserLaws, Parses, Visits}
use ceph_s3_operator.ClaimController.Secrets.{find_key, key_of}

-- The user has a key of this name.
abbrev pub HasKey : Text → User → Type 0
HasKey name v = (key : UserKeySpec) × (find_key name v.keys ≡ some key)

-- An object is found, or the answer is that it is not there.
abbrev pub Looked : {Q W A : Type 0} → Env Q W → Result A → Type 0
Looked {A = A} env answer =
    ((a : A) × (answer ≡ ok a))
    ⊎ ((e : Error) × (answer ≡ err e) × (has_reason env.not_found e ≡ true))

-- A secret is found under the key, an S3User under the name.
abbrev pub SecretThere : {Q W : Type 0} → Env Q W → NamespacedName → W → Type 0
SecretThere env key w = (s : Secret) × (env.secrets.get w key ≡ ok s)

abbrev pub S3UserThere : {Q W : Type 0} → Env Q W → Text → W → Type 0
S3UserThere {Q} env name w = (u : S3User Q) × (env.users.get w name ≡ ok u)

-- Each entry is visited once.
abbrev pub Once : Assoc Text → Type 0
Once [] = Unit
Once ((k, v) ∷ entries) = ((t : Text) → ¬ In (k, t) entries) × Once entries

-- Besides what is known of a world, secrets of these keys and S3Users of these names are found.
abbrev pub Kept :
    {Q W : Type 0}
    → Env Q W
    → (ObjectMeta → W → Type 0)
    → List NamespacedName
    → List Text
    → ObjectMeta
    → W
    → Type 0
Kept env Known keys names m w =
    Known m w × All (λ k. SecretThere env k w) keys × All (λ n. S3UserThere env n w) names

-- In the records below `Known m w` says that in the world `w` the servers answer, and that `m` is
-- the metadata of the claim at hand as the API server has it, so that a write of the claim is no
-- conflict. `Listed items w` says the same of resource quotas, which are different objects.
module _ {Q W : Type 0} (env : Env Q W) (Known : ObjectMeta → W → Type 0)
    (Listed : List (ResourceQuota Q) → W → Type 0) where
  -- A call is answered without an error, and the world that it leaves is known.
  abbrev pub Succeeds : {A : Type 0} → ObjectMeta → Result A × W → Type 0
  Succeeds {A} m answer = (a : A) × (answer.0 ≡ ok a) × Known m answer.1

  -- Reads and writes of the claim, and of the resource quotas of its namespace. An update is
  -- answered without an error for an object as it was read; claims have the quota that the CRD
  -- gives them by default; an update that is stored is not tried again.
  pub record Counting : Type 1 where
    pub not_again :
        (A : Type 0) (f : W → Result A × W) (w : W) (a : A)
        → (f w).0 ≡ ok a
        → env.retry_on_conflict A f w ≡ f w
    pub lists_claims :
        (namespace : Text) (m : ObjectMeta) (w : W)
        → Known m w
        → (items : List (S3UserClaim Q)) × (env.uncached_claims w namespace ≡ ok items)
          × All (λ c. (q : UserQuota Q) × (c.spec.quota ≡ some q)) items
    pub lists_quotas :
        (namespace : Text) (m : ObjectMeta) (w : W)
        → Known m w
        → (items : List (ResourceQuota Q)) × (env.resource_quotas.list w namespace ≡ ok items)
          × Listed items w
    pub stores_used :
        (q : ResourceQuota Q) (items : List (ResourceQuota Q)) (status : ResourceQuotaStatus Q)
        (m : ObjectMeta) (w : W)
        → Known m w
        → Listed (q ∷ items) w
        → Succeeds m (env.resource_quotas.update_status (record q { status = status }) w)
          × Listed items (env.resource_quotas.update_status (record q { status = status }) w).1
    pub skips :
        (q : ResourceQuota Q) (items : List (ResourceQuota Q)) (w : W)
        → Listed (q ∷ items) w
        → Listed items w
    pub stores :
        (c : S3UserClaim Q) (w : W)
        → Known c.meta w
        → (stored : S3UserClaim Q) × ((env.claims.update c w).0 ≡ ok stored)
          × Known stored.meta (env.claims.update c w).1
    pub adds_finalizer :
        (f : Text) (m : ObjectMeta) (w : W) → Known m w → Known (env.add_finalizer f m).0 w
    pub removes_finalizer :
        (f : Text) (m : ObjectMeta) (w : W) → Known m w → Known (env.remove_finalizer f m).0 w

  -- Reads and writes of secrets, of S3Users and of the claim's status. An object is created where
  -- none of its name is found, and updated as it was read; a new object can be owned, and the
  -- secrets of the claim's names are not controlled by another.
  pub record Storing : Type 1 where
    pub counting : Counting
    pub refers : (m : ObjectMeta) → (ref : ObjectReference) × (env.get_reference m ≡ ok ref)
    pub owns :
        (owner m : ObjectMeta)
        → m.owner_references ≡ []
        → (owned : ObjectMeta) × (env.set_controller_reference owner m ≡ ok owned)
          × (owned.namespace ≡ m.namespace)
          × (owned.name ≡ m.name)
    pub owns_found :
        (key : NamespacedName) (existing : Secret) (m : ObjectMeta) (w : W)
        → Known m w
        → env.secrets.get w key ≡ ok existing
        → (owned : ObjectMeta) × (env.set_controller_reference m existing.meta ≡ ok owned)
    pub gets_secret :
        (key : NamespacedName) (m : ObjectMeta) (w : W)
        → Known m w
        → Looked env (env.secrets.get w key)
    pub creates_secret :
        (s : Secret) (e : Error) (m : ObjectMeta) (w : W)
        → Known m w
        → env.secrets.get w (key_of s) ≡ err e
        → has_reason env.not_found e ≡ true
        → Succeeds m (env.secrets.create s w)
          × SecretThere env (key_of s) (env.secrets.create s w).1
    pub updates_secret :
        (key : NamespacedName) (existing s : Secret) (m : ObjectMeta) (w : W)
        → Known m w
        → env.secrets.get w key ≡ ok existing
        → env.set_controller_reference m existing.meta ≡ ok s.meta
        → Succeeds m (env.secrets.update s w) × SecretThere env key (env.secrets.update s w).1
    pub gets_user :
        (name : Text) (m : ObjectMeta) (w : W) → Known m w → Looked env (env.users.get w name)
    pub creates :
        (u : S3User Q) (e : Error) (m : ObjectMeta) (w : W)
        → Known m w
        → env.users.get w u.meta.name ≡ err e
        → has_reason env.not_found e ≡ true
        → Succeeds m (env.users.create u w) × S3UserThere env u.meta.name (env.users.create u w).1
    pub updates :
        (name : Text) (existing u : S3User Q) (m : ObjectMeta) (w : W)
        → Known m w
        → env.users.get w name ≡ ok existing
        → u.meta ≡ existing.meta
        → Succeeds m (env.users.update u w) × S3UserThere env name (env.users.update u w).1
    pub stores_status :
        (c : S3UserClaim Q) (w : W)
        → Known c.meta w
        → (stored : S3UserClaim Q) × ((env.claims.update_status c w).0 ≡ ok stored)
          × (stored.spec.quota ≡ c.spec.quota)
          × Known stored.meta (env.claims.update_status c w).1

module _ {Q W : Type 0} (env : Env Q W) (laws : SubuserLaws env) where
  -- A user as answered in a world: its subusers are those that Ceph has, each once, with full ids
  -- as names.
  pub record IsAnswer (w : W) (id : Text) (v : User) : Type 0 where
    pub distinct : Distinct (names v.subusers)
    pub subusers : (n : Text) → laws.has_subuser w id n ≡ mem n (names v.subusers)
    pub parses : (n : Text) → mem n (names v.subusers) ≡ true → Parses n

  -- The subusers of a user are those of which `has` is true.
  abbrev pub HasSubusers : Text → (Text → Bool) → W → Type 0
  HasSubusers id has w = (n : Text) → laws.has_subuser w id n ≡ has n

  -- `Up m w`: Ceph and the API server answer, and `m` is the claim's metadata. `Known id m w`: so
  -- they do, and Ceph has a user of this id. A user is created where there is none of its id, and
  -- modified, read and given a quota where there is one; a subuser is created where there is none
  -- of its name, and removed where there is one; a secret that is deleted may be missing. Ceph has
  -- keys for a user and for its subusers; writes of objects leave
  -- Ceph's subusers as they are, and other objects in their places.
  module _ (Up : ObjectMeta → W → Type 0) (Known : Text → ObjectMeta → W → Type 0)
      (Listed : List (ResourceQuota Q) → W → Type 0) where
    pub record Working : Type 1 where
      pub still_up : (id : Text) (m : ObjectMeta) (w : W) → Known id m w → Up m w
      pub visits : (m : Assoc Text) → Visits m (env.range m) × Once (env.range m)
      pub looks_up :
          (u : User) (m : ObjectMeta) (w : W)
          → Up m w
          → ((v : User) × (env.get_user w u ≡ ok v) × Known u.id m w × IsAnswer w u.id v)
            ⊎ ((e : Error) × (env.get_user w u ≡ err e) × (wraps_rgw env.no_such_user e ≡ true))
      pub creates_user :
          (u : User) (e : Error) (m : ObjectMeta) (w : W)
          → Up m w
          → env.get_user w u ≡ err e
          → wraps_rgw env.no_such_user e ≡ true
          → (v : User) × ((env.create_user u w).0 ≡ ok v)
            × Known u.id m (env.create_user u w).1
            × IsAnswer (env.create_user u w).1 u.id v
      pub modifies :
          (u : User) (m : ObjectMeta) (w : W)
          → Known u.id m w
          → (v : User) × ((env.modify_user u w).0 ≡ ok v)
            × Known u.id m (env.modify_user u w).1
            × IsAnswer (env.modify_user u w).1 u.id v
      pub reads_quota :
          (q : QuotaSpec) (m : ObjectMeta) (w : W)
          → Known q.uid m w
          → (a : QuotaSpec) × (enabled : Bool) × (size objects : ℕ) × (env.get_user_quota w q
              ≡ ok a)
            × (a.enabled ≡ some enabled)
            × (a.max_size ≡ some size)
            × (a.max_objects ≡ some objects)
      pub sets_quota :
          (q : QuotaSpec) (m : ObjectMeta) (w : W)
          → Known q.uid m w
          → Succeeds env (Known q.uid) Listed m (env.set_user_quota q w)
      pub quota_keeps :
          (q : QuotaSpec) (w : W) (id n : Text)
          → laws.has_subuser (env.set_user_quota q w).1 id n ≡ laws.has_subuser w id n
      pub creates_subuser :
          (u : User) (s : SubuserSpec) (m : ObjectMeta) (w : W)
          → Parses s.name
          → Known u.id m w
          → laws.has_subuser w u.id s.name ≡ false
          → Succeeds env (Known u.id) Listed m (env.create_subuser u s w)
      pub removes_subuser :
          (u : User) (s : SubuserSpec) (m : ObjectMeta) (w : W)
          → Known u.id m w
          → laws.has_subuser w u.id s.name ≡ true
          → Succeeds env (Known u.id) Listed m (env.remove_subuser u s w)
      pub deletes_secret :
          (key : NamespacedName) (id : Text) (m : ObjectMeta) (w : W)
          → Known id m w
          → Looked env (env.secrets.delete key w).0 × Known id m (env.secrets.delete key w).1
      pub retrieves :
          (id : Text) (m : ObjectMeta) (w : W)
          → Known id m w
          → (v : User) × (env.get_user w (user_with_id id) ≡ ok v)
            × HasKey id v
            × ((n : Text) → laws.has_subuser w id n ≡ true → HasKey n v)
      pub objects :
          (id : Text) (has : Text → Bool) (keys : List NamespacedName) (names : List Text)
          → Storing env (Kept env (λ m w. Known id m w × HasSubusers id has w) keys names) Listed
