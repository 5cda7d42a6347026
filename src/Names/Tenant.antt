-- ===== src/Names/Tenant.antt =====
-- The names of Ceph users and of S3Users for different requests, of
-- internal/controllers/s3userclaim/handler.go.
use ceph_s3_operator.Prelude.{All-append, ℕ, ◌≡◌, ◌≢◌, refl, [], ◌∷◌, ◌++◌, arith, if◌then◌else◌}
use ceph_s3_operator.Prelude.Text.{
  Text, text, Lacks, append_separator_injective, append_left_injective,
}
use ceph_s3_operator.Names.{
  NamespacedName, is_special, replace_special, ceph_tenant, ceph_user_full_id, s3_user_name,
}

-- A text that the pattern `[.-]` and the underscore in its place cannot confuse: no `.` and no
-- `_`, as in a namespace's name, which is a DNS label.
abbrev pub IsLabel : Text → Type 0
IsLabel s = Lacks b'.' s × Lacks b'_' s × Lacks b'$' s

replace_char_injective :
    (x y : ℕ)
    → x ≢ b'.'
    → y ≢ b'.'
    → x ≢ b'_'
    → y ≢ b'_'
    → ◌≡◌ {A = ℕ} (if is_special x then b'_' else x) (if is_special y then b'_' else y)
    → x ≡ y
replace_char_injective x y = ground arith

pub replace_special_injective :
    (s t : Text) → IsLabel s → IsLabel t → replace_special s ≡ replace_special t → s ≡ t
unfolding replace_special
replace_special_injective [] [] hs ht e = refl
replace_special_injective [] (y ∷ t) hs ht e = ground arith
replace_special_injective (x ∷ s) [] hs ht e = ground arith
replace_special_injective (x ∷ s) (y ∷ t) hs ht e = ground (
  arith,
  replace_char_injective x y,
  replace_special_injective s t (hs.0.1, hs.1.1, hs.2.1) (ht.0.1, ht.1.1, ht.2.1),
)

pub Lacks-replace_special : (s : Text) → Lacks b'$' s → Lacks b'$' (replace_special s)
unfolding replace_special
Lacks-replace_special [] h = tt
Lacks-replace_special (x ∷ s) h = (ground arith, Lacks-replace_special s h.1)

Lacks-ceph_tenant :
    (cluster namespace : Text)
    → Lacks b'$' cluster
    → Lacks b'$' namespace
    → Lacks b'$' (ceph_tenant cluster namespace)
unfolding ceph_tenant
Lacks-ceph_tenant cluster namespace hc hn =
    All-append _ (replace_special cluster) (text "__" ++ replace_special namespace)
      (Lacks-replace_special cluster hc)
      (omega arith, (omega arith, Lacks-replace_special namespace hn))

pub ceph_tenant_injective :
    (cluster s t : Text)
    → IsLabel s
    → IsLabel t
    → ceph_tenant cluster s ≡ ceph_tenant cluster t
    → s ≡ t
unfolding ceph_tenant
ceph_tenant_injective cluster s t hs ht e = replace_special_injective s t hs ht (
    append_left_injective (text "__") (replace_special s) (replace_special t) (
      append_left_injective (replace_special cluster) (text "__" ++ replace_special s)
        (text "__" ++ replace_special t) e))

-- Two requests to one operator with the same full user id of Ceph are one request, where the
-- cluster's name has no `$` and the namespaces have no `.`, `_` or `$`.
pub ceph_user_full_id_injective :
    (cluster : Text) (r s : NamespacedName)
    → Lacks b'$' cluster
    → IsLabel r.namespace
    → IsLabel s.namespace
    → ceph_user_full_id (ceph_tenant cluster r.namespace) r.name
      ≡ ceph_user_full_id (ceph_tenant cluster s.namespace) s.name
    → r ≡ s
unfolding ceph_user_full_id
ceph_user_full_id_injective cluster r s hc hr hs e =
    let both =
      append_separator_injective b'$' (ceph_tenant cluster r.namespace)
        (ceph_tenant cluster s.namespace) r.name s.name
        (Lacks-ceph_tenant cluster r.namespace hc hr.2)
        (Lacks-ceph_tenant cluster s.namespace hc hs.2) e in
    λ i. record {
      namespace = ceph_tenant_injective cluster r.namespace s.namespace hr hs both.0 i;
      name = both.1 i;
    }

-- Two claims with the same S3User name are one claim, where the namespaces have no `.`.
pub s3_user_name_injective :
    (r s : NamespacedName)
    → Lacks b'.' r.namespace
    → Lacks b'.' s.namespace
    → s3_user_name r ≡ s3_user_name s
    → r ≡ s
unfolding s3_user_name
s3_user_name_injective r s hr hs e =
    let both = append_separator_injective b'.' r.namespace s.namespace r.name s.name hr hs e in
    λ i. record { namespace = both.0 i; name = both.1 i }
