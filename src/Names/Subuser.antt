-- ===== src/Names/Subuser.antt =====
-- The names of subusers and of their secrets, of internal/controllers/s3userclaim/handler.go.
use ceph_s3_operator.Prelude.{ℕ, ◌≡◌, refl, [], ◌∷◌, ◌++◌, arith}
use mathlib.Core.List.{append_assoc}
use ceph_s3_operator.Prelude.Text.{Text, Lacks, append_left_injective}
use ceph_s3_operator.Go.{ok}
use ceph_s3_operator.Names.{
  split, extract_subuser_name, generate_subuser_full_id, generate_subuser_secret_name,
}

split_lacking : (c : ℕ) (s : Text) → Lacks c s → split c s ≡ s ∷ []
unfolding split
split_lacking c [] h = refl
split_lacking c (x ∷ s) h = ground (arith, split_lacking c s h.1)

split_separator : (c : ℕ) (s t : Text) → Lacks c s → split c (s ++ c ∷ t) ≡ s ∷ split c t
unfolding split
split_separator c [] t h = ground arith
split_separator c (x ∷ s) t h = ground (arith, split_separator c s t h.1)

-- A subuser's name is read back from its full id, where the user's id and the name have no `:`.
pub extract-generate_subuser :
    (user subuser : Text)
    → Lacks b':' user
    → Lacks b':' subuser
    → extract_subuser_name (generate_subuser_full_id user subuser) ≡ ok subuser
unfolding extract_subuser_name generate_subuser_full_id
extract-generate_subuser user subuser hu hs =
    rw (split_separator b':' user subuser hu, split_lacking b':' subuser hs)

pub generate_subuser_full_id_injective :
    (user : Text) {s t : Text}
    → generate_subuser_full_id user s ≡ generate_subuser_full_id user t
    → s ≡ t
unfolding generate_subuser_full_id
generate_subuser_full_id_injective user {s} {t} e =
    let e' : b':' ∷ s ≡ b':' ∷ t = append_left_injective user (b':' ∷ s) (b':' ∷ t) e in
    ground arith

-- The names of secrets collide: for every claim whose name continues with a dash and a part, the
-- secret of a subuser is also that of the dashed subuser of the shorter claim.
pub generate_subuser_secret_name_collides :
    (claim part subuser : Text)
    → generate_subuser_secret_name (claim ++ b'-' ∷ part) subuser
      ≡ generate_subuser_secret_name claim (part ++ b'-' ∷ subuser)
unfolding generate_subuser_secret_name
generate_subuser_secret_name_collides claim part subuser =
    append_assoc claim (b'-' ∷ part) (b'-' ∷ subuser)
