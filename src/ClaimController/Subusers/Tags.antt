-- ===== src/ClaimController/Subusers/Tags.antt =====
-- The map of `generateSubuserAccess` in internal/controllers/s3userclaim/provisioner.go, name by
-- name.
use ceph_s3_operator.Prelude.{
  ◌≡◌, refl, Bool, false, ◌||◌, Option, none, some, List, [], ◌∷◌, arith, if◌then◌else◌,
  Option-cases, inl, inr,
}
use ceph_s3_operator.Prelude.Text.{Text, ◌==◌, eq_iff}
use ceph_s3_operator.Prelude.Assoc.{Assoc, lookup, insert, lookup-insert, lookup-erase}
use ceph_s3_operator.Names.{generate_subuser_full_id}
use ceph_s3_operator.Consts.{subuser_tag_create, subuser_tag_remove}
use ceph_s3_operator.Api.{SubuserSpec}
use ceph_s3_operator.ClaimController.State.{State}
use ceph_s3_operator.ClaimController.Subusers.{
  tag_desired, toggle, tag_current, generate_subuser_access,
}

-- Membership of a text in a list.
unfoldable pub mem : Text → List Text → Bool
mem n [] = false
mem n (x ∷ xs) = x == n || mem n xs

-- No text stands twice in the list.
abbrev pub Distinct : List Text → Type 0
Distinct [] = Unit
Distinct (x ∷ xs) = (mem x xs ≡ false) × Distinct xs

-- The names of the current subusers.
abbrev pub names : List SubuserSpec → List Text
names [] = []
names (s ∷ ss) = s.name ∷ names ss

-- The full ids of the desired subusers.
abbrev pub full_ids : Text → List Text → List Text
full_ids user_id [] = []
full_ids user_id (s ∷ ss) = generate_subuser_full_id user_id s ∷ full_ids user_id ss

lookup-tag_desired :
    (n user_id : Text) (desired : List Text) (tags : Assoc Text)
    → lookup n (tag_desired user_id desired tags)
      ≡ (if mem n (full_ids user_id desired) then some subuser_tag_create else lookup n tags)
unfolding tag_desired mem
lookup-tag_desired n user_id [] tags = refl
lookup-tag_desired n user_id (s ∷ desired) tags =
    let id = generate_subuser_full_id user_id s in
    rw
      (
        lookup-tag_desired n user_id desired (insert id subuser_tag_create tags),
        lookup-insert id n subuser_tag_create tags,
      )
      (ground arith)

-- The tag of a name that is current, by the tag that it had.
abbrev flip : Option Text → Option Text
flip none = some subuser_tag_remove
flip (some _) = none

lookup-toggle :
    (n name : Text) (tags : Assoc Text)
    → lookup n (toggle name (lookup name tags) tags)
      ≡ (if name == n then flip (lookup n tags) else lookup n tags)
lookup-toggle n name tags = elim (Option-cases (lookup name tags)) [
  | inl e ↦ rw e (rw (lookup-insert name n subuser_tag_remove tags) (ground (arith, eq_iff name n)))
  | inr (t, e) ↦ rw e (rw (lookup-erase name n tags) (ground (arith, eq_iff name n)))
]

lookup-tag_current :
    (n : Text) (current : List SubuserSpec) (tags : Assoc Text)
    → Distinct (names current)
    → lookup n (tag_current current tags)
      ≡ (if mem n (names current) then flip (lookup n tags) else lookup n tags)
unfolding tag_current mem
lookup-tag_current n [] tags d = refl
lookup-tag_current n (s ∷ current) tags d =
    rw
      (
        lookup-tag_current n current (toggle s.name (lookup s.name tags) tags) d.1,
        lookup-toggle n s.name tags,
      )
      (ground (arith, eq_iff s.name n))

-- The full ids that the user is to have: the read-only subuser's, and those of the spec.
abbrev pub wanted_ids : {Q W : Type 0} → State Q W → List Text → List Text
wanted_ids r desired = r.readonly_ceph_user_full_id ∷ full_ids r.ceph_user_full_id desired

-- Where the current subusers have distinct names, the map tags a name with "create" if it is wanted
-- and not current, with "remove" if it is current and not wanted, and has no other name.
pub lookup-generate_subuser_access :
    {Q W : Type 0} (r : State Q W) (desired : List Text) (current : List SubuserSpec) (n : Text)
    → Distinct (names r.ceph_user.subusers)
    → lookup n (generate_subuser_access r desired current) ≡ (
        if mem n (wanted_ids r desired)
        then (if mem n (names r.ceph_user.subusers) then none else some subuser_tag_create)
        else (if mem n (names r.ceph_user.subusers) then some subuser_tag_remove else none))
unfolding generate_subuser_access mem lookup
lookup-generate_subuser_access r desired current n distinct =
    let wanted = tag_desired r.ceph_user_full_id desired [] in
    let all = insert r.readonly_ceph_user_full_id subuser_tag_create wanted in
    ground (
      arith,
      lookup-tag_current n r.ceph_user.subusers all distinct,
      lookup-insert r.readonly_ceph_user_full_id n subuser_tag_create wanted,
      lookup-tag_desired n r.ceph_user_full_id desired [],
    )
