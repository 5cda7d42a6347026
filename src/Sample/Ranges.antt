-- ===== src/Sample/Ranges.antt =====
-- The list of a map as the order in which `range` visits it.
use ceph_s3_operator.Prelude.{
  ◌≡◌, ◌↔◌, inl, inr, ap, none, some, some_injective, [], ◌∷◌, arith, In, Bool-cases,
}
use ceph_s3_operator.Prelude.Text.{Text, ◌==◌, eq_iff}
use ceph_s3_operator.Prelude.Assoc.{Assoc, lookup}

-- No key stands twice.
abbrev pub DistinctKeys : {V : Type 0} → Assoc V → Type 0
DistinctKeys [] = Unit
DistinctKeys ((k, v) ∷ m) = (lookup k m ≡ none) × DistinctKeys m

pub entries_iff :
    {V : Type 0} (m : Assoc V)
    → DistinctKeys m
    → (k : Text) (v : V) → In (k, v) m ↔ (lookup k m ≡ some v)
unfolding lookup
entries_iff [] d k v = (λ i. absurd i, λ h. cc)
entries_iff {V} ((j, u) ∷ m) d k v =
    let rest = entries_iff m d.1 in
    let same = eq_iff j k in
    elim (Bool-cases (j == k)) [
      | inl e ↦ (
        λ i. elim i [
          | inl p ↦ rw e (ap (λ (q : Text × V). some q.1) p)
          | inr n ↦ ground (arith, (rest k v).0 n, same, d.0)
        ],
        λ h. inl (λ i. (same.0 e i, some_injective (rw e at h) i)),
      )
      | inr e ↦ (
        λ i. elim i [
          | inl p ↦ ground (arith, same, ap (λ (q : Text × V). q.0) p)
          | inr n ↦ rw e ((rest k v).0 n)
        ],
        λ h. inr ((rest k v).1 (rw e at h)),
      )
    ]
