-- ===== src/Quota/PerTeam.antt =====
-- `CalculateClusterUsedQuota` of api/v1alpha1/quota_handler.go as a sum, and the namespaces of a
-- team.
use ceph_s3_operator.Prelude.{
  ◌≡◌, ◌<◌, ◌^◌, ◌↔◌, refl, Bool, some, List, [], ◌∷◌, ◌++◌, arith, In, inl, inr, Bool-cases, ap,
  ◌∙◌,
}
use mathlib.Core.List.{append_assoc}
use ceph_s3_operator.Prelude.Text.{Text, ◌==◌, eq_iff}
use ceph_s3_operator.Prelude.Assoc.{lookup}
use ceph_s3_operator.Consts.{label_team}
use ceph_s3_operator.Go.{ok}
use ceph_s3_operator.Api.{UserQuota, S3UserClaim, Namespace}
use ceph_s3_operator.Env.{Env}
use ceph_s3_operator.Quota.{
  empty_quota, is_other_claim, find_team, find_team_namespaces, label_or_empty, select_team,
  sum_namespaces, calculate_cluster_used_quota,
}
use ceph_s3_operator.Quota.Sums.{
  QuantityLaws, counted_quotas, IsSumOf, AllQuotas, current_quota, Adds, Adds-refl, sum_claims-Adds,
  sum_claims_total, add_current-Adds, Adds-append, Adds-empty, Adds-bound, empty_quota_bound,
}

module _ {Q W : Type 0} (env : Env Q W) where
  -- The labels of a namespace give the team's name.
  abbrev pub OfTeam : Text → Namespace → Type 0
  OfTeam team ns = label_or_empty env (lookup label_team ns.meta.labels) ≡ team

  -- A name is selected for a team exactly if one of the listed namespaces has that name and the
  -- team's label, where a missing label counts as the empty team.
  pub mem-select_team :
      (team name : Text) (items : List Namespace)
      → In name (select_team env team items)
        ↔ ((ns : Namespace) × In ns items × OfTeam team ns × (ns.meta.name ≡ name))
  unfolding select_team
  mem-select_team team name [] = (λ h. absurd h, λ h. absurd h.1)
  mem-select_team team name (ns ∷ items) =
      let label = label_or_empty env (lookup label_team ns.meta.labels) in
      let ih = mem-select_team team name items in
      elim (Bool-cases (label == team)) [
        | inl same ↦ rw same (
          elim [
            | inl e ↦ (ns, inl refl, (eq_iff label team).0 same, e)
            | inr m ↦ let (x, i, t, n) = ih.0 m in (x, inr i, t, n)
          ],
          λ (x, i, t, n). elim i [
            | inl e ↦ inl (ap (λ (y : Namespace). y.meta.name) e ∙ n)
            | inr j ↦ inr (ih.1 (x, j, t, n))
          ],
        )
        | inr other ↦ rw other (
          λ m. let (x, i, t, n) = ih.0 m in (x, inr i, t, n),
          λ (x, i, t, n). elim i [
            | inl e ↦ ground (
              arith,
              eq_iff label team,
              ap (λ (y : Namespace). label_or_empty env (lookup label_team y.meta.labels)) e,
            )
            | inr j ↦ ih.1 (x, j, t, n)
          ],
        )
      ]

module _ {Q W : Type 0} (env : Env Q W) (laws : QuantityLaws env.quantities) where
  open env use {uncached_claims, all_namespaces}

  -- The claims that each of the namespaces lists, in order; all of them have a quota, except maybe
  -- the claim at hand.
  pub data Listed (w : W) (suc : S3UserClaim Q) : List Text → List (S3UserClaim Q) → Type 0 where
    done : Listed w suc [] []
    one :
        {ns : Text} {rest : List Text} {items more : List (S3UserClaim Q)}
        → uncached_claims w ns ≡ ok items
        → AllQuotas laws (is_other_claim env suc) items
        → Listed w suc rest more
        → Listed w suc (ns ∷ rest) (items ++ more)

  pub counted_quotas-append :
      (counted : S3UserClaim Q → Bool) (xs ys : List (S3UserClaim Q))
      → counted_quotas counted (xs ++ ys) ≡ counted_quotas counted xs ++ counted_quotas counted ys
  unfolding counted_quotas
  counted_quotas-append counted [] ys = refl
  counted_quotas-append counted (claim ∷ xs) ys =
      rw (counted_quotas-append counted xs ys, append_assoc)

  sum_namespaces-Adds :
      (w : W) (suc : S3UserClaim Q) (base : UserQuota Q) {names : List Text}
      {items : List (S3UserClaim Q)}
      → base.max_buckets < 2 ^ 64
      → Listed w suc names items
      → (total : UserQuota Q) × (sum_namespaces env w suc base names ≡ ok total)
        × Adds laws base (counted_quotas (is_other_claim env suc) items) total
  unfolding sum_namespaces
  sum_namespaces-Adds w suc base r done =
      (base, refl, unfold counted_quotas in Adds-refl laws base r)
  sum_namespaces-Adds w suc base r (one {items = xs} {more = ys} listed all rest) =
      let counted : S3UserClaim Q → Bool = is_other_claim env suc in
      let (middle, summed) = sum_claims_total laws counted base xs all in
      let adds = sum_claims-Adds laws counted base middle xs r summed in
      let (total, eq, more) =
        sum_namespaces-Adds w suc middle
          (Adds-bound laws base (counted_quotas counted xs) middle adds) rest in
      (
        total,
        rw (listed, summed) eq,
        rw (counted_quotas-append counted xs ys) (
            Adds-append laws base middle total (counted_quotas counted xs)
              (counted_quotas counted ys) adds more),
      )

  -- Under the laws of quantities, where the claim's team is found, the claims of its namespaces are
  -- listed, all but maybe the one at hand with quotas, and the claim has a quota: the used quota is
  -- the sum (modulo 2 ^ 64 in buckets) of the quotas of the listed claims but the one at hand, and,
  -- if the flag says so, of the claim as passed; the team comes with it.
  pub calculate_cluster_used_quota_sums :
      (w : W) (suc : S3UserClaim Q) (flag : Bool) (q : UserQuota Q) {team : Text}
      {namespaces : List Namespace} {items : List (S3UserClaim Q)}
      → find_team env w suc ≡ ok team
      → all_namespaces w ≡ ok namespaces
      → Listed w suc (select_team env team namespaces) items
      → suc.spec.quota ≡ some q
      → (total : UserQuota Q) × (calculate_cluster_used_quota env w suc flag ≡ ok (total, team))
        × IsSumOf laws
            (counted_quotas (is_other_claim env suc) items ++ current_quota laws flag q)
            total
  unfolding calculate_cluster_used_quota find_team_namespaces
  calculate_cluster_used_quota_sums w suc flag q {items = items} found all listed has_quota =
      let zero_total = empty_quota env.quantities in
      let qs = counted_quotas (is_other_claim env suc) items in
      let (base, summed, adds) =
        sum_namespaces-Adds w suc zero_total (empty_quota_bound env.quantities) listed in
      let (total, added, one_more) =
        add_current-Adds laws flag suc q base (Adds-bound laws zero_total qs base adds) has_quota in
      (
        total,
        rw (found, all, summed, added),
        Adds-empty laws (qs ++ current_quota laws flag q) total
            (Adds-append laws zero_total base total qs (current_quota laws flag q) adds one_more),
      )
