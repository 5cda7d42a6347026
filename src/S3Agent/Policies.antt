-- ===== src/S3Agent/Policies.antt =====
-- The policy that `SetBucketPolicy` of internal/s3_agent/s3_agent.go puts, as what it allows.
use ceph_s3_operator.Prelude.{
  All, some_injective, ◌≡◌, ◌↔◌, ◌⊎◌, inl, inr, refl, some, List, [], ◌∷◌, ◌++◌, arith, In, ap, ◌∙◌,
  sym, Bool-cases, Option-cases,
}
use mathlib.Core.Path.{subst}
use ceph_s3_operator.Prelude.Text.{Text, text, ◌==◌, eq_iff}
use ceph_s3_operator.Prelude.Assoc.{Assoc, lookup, insert, lookup-insert}
use ceph_s3_operator.Go.{ok, ok_injective, Result-cases}
use ceph_s3_operator.Env.{Env, Statement, Policy}
use ceph_s3_operator.S3Agent.{
  generate_bucket_access_action, aws_iam, slice_or_nil, group_by_access, statement_for, statements,
  bucket_arn, bucket_policy,
}

In-append : {A : Type 0} (a : A) (xs ys : List A) → In a (xs ++ ys) ↔ (In a xs ⊎ In a ys)
In-append a [] ys = (inr, λ h. elim h [ inl x ↦ absurd x | inr y ↦ y ])
In-append a (x ∷ xs) ys =
    let ih = In-append a xs ys in
    (
      λ h. elim h [
        | inl e ↦ inl (inl e)
        | inr m ↦ elim (ih.0 m) [ inl p ↦ inl (inr p) | inr q ↦ inr q ]
      ],
      λ h. elim h [
        | inl p ↦ elim p [ inl e ↦ inl e | inr m ↦ inr (ih.1 (inl m)) ]
        | inr q ↦ inr (ih.1 (inr q))
      ],
    )

-- `name` stands in the slice of an access.
abbrev pub InGroup : Text → Text → Assoc (List Text) → Type 0
InGroup name access groups = In name (slice_or_nil (lookup access groups))

-- An entry of the map of bindings has this access, and its subuser's name in IAM.
abbrev pub Binds : Text → Text → Text → Text → Assoc Text → Type 0
Binds tenant owner name access entries =
    (subuser : Text) × In (subuser, access) entries × (aws_iam tenant owner subuser ≡ name)

-- One entry adds its subuser's name to the slice of its access.
insert_iff :
    (name access a iam : Text) (groups : Assoc (List Text))
    → InGroup name access (insert a (slice_or_nil (lookup a groups) ++ iam ∷ []) groups)
      ↔ (InGroup name access groups ⊎ ((a ≡ access) × (iam ≡ name)))
insert_iff name access a iam groups =
    let old = slice_or_nil (lookup a groups) in
    let added = In-append name old (iam ∷ []) in
    let seen = lookup-insert a access (old ++ iam ∷ []) groups in
    elim (Bool-cases (a == access)) [
      | inl same ↦
          let e : a ≡ access = (eq_iff a access).0 same in
          rw (seen, same)
            (
              λ h. elim (added.0 h) [
                | inl m ↦ inl (subst (λ x. In name (slice_or_nil (lookup x groups))) e m)
                | inr n ↦ elim n [ inl q ↦ inr (e, q) | inr bad ↦ absurd bad ]
              ],
              λ h. elim h [
                | inl m ↦
                    added.1 (inl (subst (λ x. In name (slice_or_nil (lookup x groups))) (sym e) m))
                | inr (_, q) ↦ added.1 (inr (inl q))
              ],
            )
      | inr other ↦
          rw (seen, other)
            (inl, λ h. elim h [ inl m ↦ m | inr (e, _) ↦ ground (arith, eq_iff a access) ])
    ]

-- The first loop adds to the slices exactly the names of the entries, each under its access.
group_by_access_iff :
    (tenant owner name access : Text) (entries : Assoc Text) (groups : Assoc (List Text))
    → InGroup name access (group_by_access tenant owner entries groups)
      ↔ (InGroup name access groups ⊎ Binds tenant owner name access entries)
unfolding group_by_access
group_by_access_iff tenant owner name access [] groups =
    (inl, λ h. elim h [ inl m ↦ m | inr (s, m, e) ↦ absurd m ])
group_by_access_iff tenant owner name access ((subuser, a) ∷ entries) groups =
    let iam = aws_iam tenant owner subuser in
    let next = insert a (slice_or_nil (lookup a groups) ++ iam ∷ []) groups in
    let ih = group_by_access_iff tenant owner name access entries next in
    let one = insert_iff name access a iam groups in
    (
      λ h. elim (ih.0 h) [
        | inl m ↦ elim (one.0 m) [
          | inl g ↦ inl g
          | inr (e, q) ↦ inr (subuser, inl (λ i. (subuser, e i)), q)
        ]
        | inr (s, m, q) ↦ inr (s, inr m, q)
      ],
      λ h. elim h [
        | inl g ↦ ih.1 (inl (one.1 (inl g)))
        | inr (s, m, q) ↦ elim m [
          | inl e ↦ ih.1 (
              inl (
                one.1 (
                  inr (
                    ap (λ (p : Text × Text). p.1) e,
                    ap (λ (p : Text × Text). aws_iam tenant owner p.0) e ∙ q,
                  ))))
          | inr i ↦ ih.1 (inr (s, i, q))
        ]
      ],
    )

-- A statement of the list allows, with the name among its principals, the action among its actions
-- and the resource among its resources.
abbrev pub Grants : Text → Text → Text → List Statement → Type 0
Grants name action resource sts =
    (st : Statement) × In st sts
    × (st.effect ≡ text "Allow")
    × In name st.principal_aws
    × In action st.action
    × In resource st.resource

-- The bucket, or all that is in it, as IAM names them.
abbrev pub OnBucket : Text → Text → Text → Type 0
OnBucket tenant bucket resource =
    let arn = text "arn:aws:s3::" ++ (tenant ++ b':' ∷ bucket) in
    (arn ≡ resource) ⊎ (arn ++ text "/*" ≡ resource)

-- The access is one of the two that have actions, and the action is one of its.
abbrev pub Permits : Text → Text → Type 0
Permits access action =
    (actions : List Text) × (lookup access generate_bucket_access_action ≡ some actions)
    × In action actions

-- A slice has the name, under an access that permits the action.
abbrev GrantedBy : Text → Text → Assoc (List Text) → Type 0
GrantedBy name action groups =
    (access : Text) × (members : List Text) × In (access, members) groups
    × In name members
    × Permits access action

statement_for-OnBucket :
    (tenant bucket resource : Text) (principals actions : List Text)
    → In resource (statement_for tenant bucket principals actions).resource
    → OnBucket tenant bucket resource
unfolding bucket_arn
statement_for-OnBucket tenant bucket resource principals actions (inl e) = inl e
statement_for-OnBucket tenant bucket resource principals actions (inr (inl e)) = inr e
statement_for-OnBucket tenant bucket resource principals actions (inr (inr i)) = absurd i

In-statement_for :
    (tenant bucket resource : Text) (principals actions : List Text)
    → OnBucket tenant bucket resource
    → In resource (statement_for tenant bucket principals actions).resource
unfolding bucket_arn
In-statement_for tenant bucket resource principals actions (inl e) = inl e
In-statement_for tenant bucket resource principals actions (inr e) = inr (inl e)

statements_allow :
    (tenant bucket : Text) (groups : Assoc (List Text)) (sts : List Statement)
    → statements tenant bucket groups ≡ ok sts
    → All (λ st. st.effect ≡ text "Allow") sts
unfolding statements
statements_allow tenant bucket [] sts h =
    subst (All (λ st. st.effect ≡ text "Allow")) (ok_injective h) tt
statements_allow tenant bucket ((access, members) ∷ groups) sts h =
    elim (Option-cases (lookup access generate_bucket_access_action)) [
      | inl missing ↦ ground arith
      | inr (actions, known) ↦ elim (Result-cases (statements tenant bucket groups)) [
        | inr bad ↦ ground arith
        | inl (rest, e) ↦
            let same : statement_for tenant bucket members actions ∷ rest ≡ sts =
              ok_injective (ground arith) in
            subst (All (λ st. st.effect ≡ text "Allow")) same
              (refl, statements_allow tenant bucket groups rest e)
      ]
    ]

-- The second loop makes statements that grant exactly what the slices and their accesses permit.
statements_iff :
    (tenant bucket name action resource : Text) (groups : Assoc (List Text)) (sts : List Statement)
    → statements tenant bucket groups ≡ ok sts
    → Grants name action resource sts
      ↔ (GrantedBy name action groups × OnBucket tenant bucket resource)
unfolding statements
statements_iff tenant bucket name action resource [] sts h = (
  λ (st, m, _, _, _, _). absurd (subst (In st) (sym (ok_injective h)) m),
  λ ((a, ms, m, _, _), _). absurd m,
)
statements_iff tenant bucket name action resource ((access, members) ∷ groups) sts h =
    elim (Option-cases (lookup access generate_bucket_access_action)) [
      | inl missing ↦ ground arith
      | inr (actions, known) ↦ elim (Result-cases (statements tenant bucket groups)) [
        | inr bad ↦ ground arith
        | inl (rest, e) ↦
            let st = statement_for tenant bucket members actions in
            let same : st ∷ rest ≡ sts = ok_injective (ground arith) in
            let ih = statements_iff tenant bucket name action resource groups rest e in
            subst
              (λ (l : List Statement). Grants name action resource l ↔ (
                GrantedBy name action ((access, members) ∷ groups)
                × OnBucket tenant bucket resource))
              same
              (
                λ (x, m, f, n, a, o). elim m [
                  | inl q ↦ (
                    (
                      access,
                      members,
                      inl refl,
                      subst (λ (y : Statement). In name y.principal_aws) (sym q) n,
                      (actions, known, subst (λ (y : Statement). In action y.action) (sym q) a),
                    ),
                    statement_for-OnBucket tenant bucket resource members actions
                        (subst (λ (y : Statement). In resource y.resource) (sym q) o),
                  )
                  | inr i ↦
                      let ((acc, ms, j, b, p), on) = ih.0 (x, i, f, n, a, o) in
                      ((acc, ms, inr j, b, p), on)
                ],
                λ ((acc, ms, j, n, (acts, found, m)), on). elim j [
                  | inl q ↦
                      let one : access ≡ acc = ap (λ (p : Text × List Text). p.0) q in
                      let two : actions ≡ acts = some_injective (
                        sym known
                        ∙ (ap (λ x. lookup x generate_bucket_access_action) one ∙ found)) in
                      (
                        st,
                        inl refl,
                        refl,
                        subst (In name) (sym (ap (λ (p : Text × List Text). p.1) q)) n,
                        subst (In action) (sym two) m,
                        In-statement_for tenant bucket resource members actions on,
                      )
                  | inr i ↦
                      let (x, k, f, b, a, o) = ih.1 ((acc, ms, i, n, (acts, found, m)), on) in
                      (x, inr k, f, b, a, o)
                ],
              )
      ]
    ]

-- `range` visits exactly the entries of the map of slices, and of the map of bindings.
abbrev pub VisitsSlices : Assoc (List Text) → Assoc (List Text) → Type 0
VisitsSlices m groups = (k : Text) (v : List Text) → In (k, v) groups ↔ (lookup k m ≡ some v)

-- A binding gives the name an access that has the action.
abbrev pub Granted : Text → Text → Text → Text → Assoc Text → Type 0
Granted tenant owner name action bindings =
    (access : Text) × Binds tenant owner name access bindings × Permits access action

module _ {Q W : Type 0} (env : Env Q W) where
  open env use {range, range_slices}

  -- Where the loop over the slices visits the entries of its map, all statements of a policy that is
  -- made allow, and one of them allows a name an action on a resource exactly if one of the visited
  -- bindings is of a subuser with that name in IAM and gives it an access that has the action, and
  -- the resource is the bucket or all that is in it.
  pub bucket_policy-Grants :
      (bindings : Assoc Text) (tenant owner bucket name action resource : Text) (policy : Policy)
      → VisitsSlices
          (group_by_access tenant owner (range bindings) [])
          (range_slices (group_by_access tenant owner (range bindings) []))
      → bucket_policy env bindings tenant owner bucket ≡ ok policy
      → All (λ st. st.effect ≡ text "Allow") policy.statement
        × (Grants name action resource policy.statement
            ↔ (Granted tenant owner name action (range bindings) × OnBucket tenant bucket resource))
  unfolding bucket_policy lookup
  bucket_policy-Grants bindings tenant owner bucket name action resource policy visits h =
      let groups = group_by_access tenant owner (range bindings) [] in
      elim (Result-cases (statements tenant bucket (range_slices groups))) [
        | inr bad ↦ ground arith
        | inl (sts, e) ↦
            let iff =
              statements_iff tenant bucket name action resource (range_slices groups) sts e in
            let allow = statements_allow tenant bucket (range_slices groups) sts e in
            let same : sts ≡ policy.statement = ground arith in
            subst
              (λ (l : List Statement).
                All (λ st. st.effect ≡ text "Allow") l
                × (Grants name action resource l ↔ (
                    Granted tenant owner name action (range bindings)
                    × OnBucket tenant bucket resource)))
              same
              (
                allow,
                (
                  λ g.
                      let ((access, members, i, n, p), on) = iff.0 g in
                      let there : InGroup name access groups = rw ((visits access members).0 i) n in
                      elim ((group_by_access_iff tenant owner name access (range bindings) []).0
                        there) [ inl bad ↦ absurd bad | inr binds ↦ ((access, binds, p), on) ],
                  λ ((access, binds, p), on).
                      let there =
                        (group_by_access_iff tenant owner name access (range bindings) []).1
                          (inr binds) in
                      elim (Option-cases (lookup access groups)) [
                        | inl missing ↦ absurd (rw missing at there)
                        | inr (members, e) ↦
                            iff.1
                              ((access, members, (visits access members).1 e, rw e at there, p), on)
                      ],
                ),
              )
      ]
