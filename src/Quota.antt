-- ===== src/Quota.antt =====
-- api/v1alpha1/quota_handler.go: the quota that the claims of a namespace, or of a team's
-- namespaces, use together.
pub mod Sums
pub mod PerNamespace
pub mod PerTeam
use ceph_s3_operator.Prelude.{
  ℕ, ◌+◌, ◌%◌, ◌^◌, Bool, true, false, not, ◌||◌, Option, none, some, List, [], ◌∷◌, ◌++◌,
  if◌then◌else◌,
}
use ceph_s3_operator.Prelude.Text.{Text, text, ◌==◌}
use ceph_s3_operator.Prelude.Assoc.{Assoc, lookup}
use ceph_s3_operator.Go.{Result, ok, err, panic, message, ◌>>=◌, wrapping, deref}
use ceph_s3_operator.Consts.{label_team}
use ceph_s3_operator.Api.{UserQuota, S3UserClaim, Namespace}
use ceph_s3_operator.Env.{Quantities, Env}

-- a += b on int64.
unfoldable pub add_int64 : ℕ → ℕ → ℕ
add_int64 a b = (a + b) % 2 ^ 64

module _ {Q : Type 0} (quantities : Quantities Q) where
  open quantities use {zero_quantity, add}

  -- UserQuota{}
  unfoldable pub empty_quota : UserQuota Q
  empty_quota = record { max_size = zero_quantity; max_objects = zero_quantity; max_buckets = 0 }

  -- The three additions that stand together in each of the loops.
  unfoldable pub add_quota : UserQuota Q → UserQuota Q → UserQuota Q
  add_quota total q = record {
    max_size = add total.max_size q.max_size;
    max_objects = add total.max_objects q.max_objects;
    max_buckets = add_int64 total.max_buckets q.max_buckets;
  }

  -- The loops over the listed claims; `counted` is the condition of the `if`.
  unfoldable pub sum_claims :
      (S3UserClaim Q → Bool) → UserQuota Q → List (S3UserClaim Q) → Result (UserQuota Q)
  sum_claims counted total [] = ok total
  sum_claims counted total (claim ∷ items) = elim (counted claim) [
    | true ↦ deref claim.spec.quota >>= λ q. sum_claims counted (add_quota total q) items
    | false ↦ sum_claims counted total items
  ]

  -- if addCurrentQuota { ... }
  unfoldable pub add_current : Bool → S3UserClaim Q → UserQuota Q → Result (UserQuota Q)
  add_current true suc total = deref suc.spec.quota >>= λ q. ok (add_quota total q)
  add_current false suc total = ok total

module _ {Q W : Type 0} (env : Env Q W) where
  open env use {namespaces, uncached_claims, all_namespaces}

  -- `claim.Name != suc.Name`
  abbrev pub is_other_name : S3UserClaim Q → S3UserClaim Q → Bool
  is_other_name suc claim = not (claim.meta.name == suc.meta.name)

  -- A nil `suc` is `none`.
  unfoldable pub calculate_namespace_used_quota :
      W → Option (S3UserClaim Q) → Text → Bool → Result (UserQuota Q)
  calculate_namespace_used_quota w none namespace add_current_quota =
      err (message (text "s3userclaim pointer is nil"))
  calculate_namespace_used_quota w (some suc) namespace add_current_quota = do
    items ← wrapping (text "failed to list s3 user claims, ") (uncached_claims w namespace)
    total ← sum_claims env.quantities (is_other_name suc) (empty_quota env.quantities) items
    add_current env.quantities add_current_quota suc total

  -- The team of the claim's namespace, by its label.
  unfoldable pub find_team : W → S3UserClaim Q → Result Text
  find_team w suc = do
    ns ← wrapping (text "failed to get namespace, ") (namespaces.get w suc.meta.namespace)
    elim (lookup label_team ns.meta.labels) [
      | none ↦ err (
          message (
            text "namespace "
            ++ (ns.meta.name ++ (text " doesn't have the team label: " ++ label_team))))
      | some team ↦ ok team
    ]

  -- labels[consts.LabelTeam]: the empty text where the label is missing.
  abbrev pub label_or_empty : Option Text → Text
  label_or_empty none = []
  label_or_empty (some t) = t

  unfoldable pub select_team : Text → List Namespace → List Text
  select_team team [] = []
  select_team team (ns ∷ items) =
      let rest = select_team team items in
      if label_or_empty (lookup label_team ns.meta.labels) == team
      then ns.meta.name ∷ rest
      else rest

  unfoldable pub find_team_namespaces : W → Text → Result (List Text)
  find_team_namespaces w team = do
    items ← wrapping (text "failed to list namespaces, ") (all_namespaces w)
    ok (select_team team items)

  -- `claim.Name != suc.Name || claim.Namespace != suc.Namespace`
  abbrev pub is_other_claim : S3UserClaim Q → S3UserClaim Q → Bool
  is_other_claim suc claim =
      not (claim.meta.name == suc.meta.name) || not (claim.meta.namespace == suc.meta.namespace)

  unfoldable pub sum_namespaces : W → S3UserClaim Q → UserQuota Q → List Text → Result (UserQuota Q)
  sum_namespaces w suc total [] = ok total
  sum_namespaces w suc total (ns ∷ rest) = do
    items ← wrapping (text "failed to list s3UserClaims, ") (uncached_claims w ns)
    total' ← sum_claims env.quantities (is_other_claim suc) total items
    sum_namespaces w suc total' rest

  unfoldable pub calculate_cluster_used_quota :
      W → S3UserClaim Q → Bool → Result (UserQuota Q × Text)
  calculate_cluster_used_quota w suc add_current_quota = do
    team ← wrapping (text "failed to find team, ") (find_team w suc)
    names ← wrapping (text "failed to find team namespaces, ") (find_team_namespaces w team)
    total ← sum_namespaces w suc (empty_quota env.quantities) names
    total' ← add_current env.quantities add_current_quota suc total
    ok (total', team)
