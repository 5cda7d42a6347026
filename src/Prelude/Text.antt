-- ===== src/Prelude/Text.antt =====
-- Go strings as lists of code points: the program compares, joins, splits and rewrites names.
use Prim.Native.Char.{code}
use Prim.Native.Nat.{ℕ}
use Prim.Native.String.{String}
use mathlib.Core.Path.{◌≡◌, refl}
use mathlib.Core.Logic.{◌↔◌, ◌≢◌}
use mathlib.Core.Bool.{Bool, true, false, ◌&&◌}
use mathlib.Core.List.{List, [], ◌∷◌, ◌++◌}
use native.Mathlib.Omega.{arith}
use ceph_s3_operator.Prelude.Tests.{◌==◌ as eqb, ==_iff}
use ceph_s3_operator.Prelude.Lists.{All}

abbrev pub Text : Type 0
Text = List ℕ

-- A literal's code points.
abbrev pub text : String → Text
text String.[] = []
text (String.◌∷◌ c s) = code c ∷ text s

infix 50 ◌==◌
unfoldable pub ◌==◌ : Text → Text → Bool
[] == [] = true
[] == (y ∷ ys) = false
(x ∷ xs) == [] = false
(x ∷ xs) == (y ∷ ys) = eqb x y && (xs == ys)

pub eq_iff : (s t : Text) → ((s == t) ≡ true) ↔ (s ≡ t)
unfolding ◌==◌
eq_iff [] [] = ground arith
eq_iff [] (y ∷ ys) = ground arith
eq_iff (x ∷ xs) [] = ground arith
eq_iff (x ∷ xs) (y ∷ ys) = ground (arith, eq_iff xs ys, ==_iff x y)

pub eq_refl : (s : Text) → (s == s) ≡ true
eq_refl s = (eq_iff s s).1 refl

pub eq_sym : (s t : Text) → (s == t) ≡ (t == s)
eq_sym s t = ground (arith, eq_iff s t, eq_iff t s)

-- No code point of the text is `c`.
abbrev pub Lacks : ℕ → Text → Type 0
Lacks c = All (λ x. x ≢ c)

-- What stands before the first separator is determined, and so is the rest.
pub append_separator_injective :
    (c : ℕ) (s t u v : Text) → Lacks c s → Lacks c t → s ++ c ∷ u ≡ t ++ c ∷ v → (s ≡ t) × (u ≡ v)
append_separator_injective c [] [] u v hs ht e = ground arith
append_separator_injective c [] (y ∷ t) u v hs ht e = ground arith
append_separator_injective c (x ∷ s) [] u v hs ht e = ground arith
append_separator_injective c (x ∷ s) (y ∷ t) u v hs ht e =
    ground (arith, append_separator_injective c s t u v hs.1 ht.1)

pub append_left_injective : (s u v : Text) → s ++ u ≡ s ++ v → u ≡ v
append_left_injective [] u v e = e
append_left_injective (x ∷ s) u v e = append_left_injective s u v (ground arith)
