-- ===== src/Prelude/Assoc.antt =====
-- Go maps with string keys, as association lists.
use mathlib.Core.Path.{◌≡◌, refl}
use mathlib.Core.Option.{Option, none, some}
use mathlib.Core.List.{List, [], ◌∷◌}
use native.Mathlib.Omega.{arith}
use ceph_s3_operator.Prelude.Tests.{if◌then◌else◌}
use ceph_s3_operator.Prelude.Text.{Text, ◌==◌, eq_iff}

abbrev pub Assoc {ℓ} : Type ℓ → Type ℓ
Assoc V = List (Text × V)

module _ {ℓ} {V : Type ℓ} where
  -- v, ok := m[key]
  unfoldable pub lookup : Text → Assoc V → Option V
  lookup key [] = none
  lookup key ((name, value) ∷ entries) = if name == key then some value else lookup key entries

  -- m[key] = new
  unfoldable pub insert : Text → V → Assoc V → Assoc V
  insert key new [] = (key, new) ∷ []
  insert key new ((name, value) ∷ entries) =
      if name == key then (key, new) ∷ entries else (name, value) ∷ insert key new entries

  -- delete(m, key)
  unfoldable pub erase : Text → Assoc V → Assoc V
  erase key [] = []
  erase key ((name, value) ∷ entries) =
      let rest = erase key entries in if name == key then rest else (name, value) ∷ rest

  pub lookup-insert :
      (key other : Text) (new : V) (entries : Assoc V)
      → lookup other (insert key new entries)
        ≡ (if key == other then some new else lookup other entries)
  unfolding lookup insert
  lookup-insert key other new [] = refl
  lookup-insert key other new ((name, value) ∷ entries) = ground (
    arith,
    eq_iff name key,
    eq_iff name other,
    eq_iff key other,
    lookup-insert key other new entries,
  )

  pub lookup-erase :
      (key other : Text) (entries : Assoc V)
      → lookup other (erase key entries) ≡ (if key == other then none else lookup other entries)
  unfolding lookup erase
  lookup-erase key other [] = ground arith
  lookup-erase key other ((name, value) ∷ entries) =
      ground (
        arith,
        eq_iff name key,
        eq_iff name other,
        eq_iff key other,
        lookup-erase key other entries,
      )
