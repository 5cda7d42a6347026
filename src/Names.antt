-- ===== src/Names.antt =====
-- The names that the operator derives from a request: `initVars`, `generateSubuserFullId`,
-- `generateSubuserSecretName` and `extractSubuserName` of
-- internal/controllers/s3userclaim/handler.go, and `initVars` of internal/controllers/s3bucket.
pub mod Tenant
pub mod Subuser
use ceph_s3_operator.Prelude.{ℕ, Bool, List, [], ◌∷◌, ◌++◌, map, ◌||◌, if◌then◌else◌, ◌==◌}
use ceph_s3_operator.Prelude.Text.{Text, text}
use ceph_s3_operator.Go.{Result, ok, err, message}

-- types.NamespacedName, the key of a namespaced object and of a reconcile request.
pub record NamespacedName : Type 0 where
  pub namespace : Text
  pub name : Text

-- The character class `[.-]`.
abbrev pub is_special : ℕ → Bool
is_special c = c == b'.' || c == b'-'

-- k8sNameSpecialChars.ReplaceAllString(name, "_")
unfoldable pub replace_special : Text → Text
replace_special = map (λ c. if is_special c then b'_' else c)

-- r.cephTenant
unfoldable pub ceph_tenant : Text → Text → Text
ceph_tenant cluster_name namespace =
    replace_special cluster_name ++ (text "__" ++ replace_special namespace)

-- r.cephUserFullId
unfoldable pub ceph_user_full_id : Text → Text → Text
ceph_user_full_id tenant user_id = tenant ++ b'$' ∷ user_id

-- r.cephDisplayName
unfoldable pub ceph_display_name : Text → NamespacedName → Text
ceph_display_name cluster_name req =
    req.name ++ (text " in " ++ (req.namespace ++ b'.' ∷ cluster_name))

-- r.s3UserName
unfoldable pub s3_user_name : NamespacedName → Text
s3_user_name req = req.namespace ++ b'.' ∷ req.name

unfoldable pub generate_subuser_full_id : Text → Text → Text
generate_subuser_full_id ceph_user_full_id subuser = ceph_user_full_id ++ b':' ∷ subuser

unfoldable pub generate_subuser_secret_name : Text → Text → Text
generate_subuser_secret_name s3_user_claim_name subuser = s3_user_claim_name ++ b'-' ∷ subuser

abbrev prepend : ℕ → List Text → List Text
prepend c [] = (c ∷ []) ∷ []
prepend c (part ∷ parts) = (c ∷ part) ∷ parts

-- strings.Split(s, ":") with the separator as a code point.
unfoldable pub split : ℕ → Text → List Text
split sep [] = [] ∷ []
split sep (c ∷ s) = let parts = split sep s in if c == sep then [] ∷ parts else prepend c parts

abbrev second_of_two : Text → List Text → Result Text
second_of_two full_id (_ ∷ subuser ∷ []) = ok subuser
second_of_two full_id _ = err (message (text "cannot parse the cephSubuserFullId=" ++ full_id))

unfoldable pub extract_subuser_name : Text → Result Text
unfolding split
extract_subuser_name full_id = second_of_two full_id (split b':' full_id)
