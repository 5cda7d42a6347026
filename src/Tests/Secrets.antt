-- ===== src/Tests/Secrets.antt =====
-- The steps for the secrets on the sample claim.
use ceph_s3_operator.Prelude.{◌≡◌, refl, true, some, [], ◌∷◌}
use ceph_s3_operator.Prelude.Int.{ℤ}
use ceph_s3_operator.Prelude.Text.{text, ◌==◌}
use ceph_s3_operator.Go.{has_reason}
use ceph_s3_operator.Names.{generate_subuser_full_id}
use ceph_s3_operator.Api.{Secret}
use ceph_s3_operator.ClaimController.State.{State}
use ceph_s3_operator.ClaimController.Subusers.Tags.{mem}
use ceph_s3_operator.ClaimController.Secrets.{
  ensure_subuser_secrets, assemble_ceph_user_secret, ensure_secret,
}
use ceph_s3_operator.ClaimController.Secrets.Stored.{Holds, ensure_secret-Holds}
use ceph_s3_operator.ClaimController.Secrets.{
  find_key, ensure_user_secret, ensure_other_subusers_secret,
}
use ceph_s3_operator.ClaimController.Secrets.Keys.{HoldsKey, ensure_user_secret-HoldsKey}
use ceph_s3_operator.ClaimController.Secrets.Complete.{
  HasSecret, ensure_other_subusers_secret-HasSecret,
}
use ceph_s3_operator.Api.{UserKeySpec}
use ceph_s3_operator.Prelude.{All}
use ceph_s3_operator.Sample.Laws.{secret_frame}
use ceph_s3_operator.Sample.{World, env}
use ceph_s3_operator.Sample.Laws.{secret_laws}
use ceph_s3_operator.Sample.Objects.{orders, orders_id, shop, reconciler, meta}

abbrev admin_secret : Secret
admin_secret = record {
  meta = record (meta shop (text "orders-rw")) {
    owner_references = record { uid = orders.meta.uid; controller = true } ∷ [];
  };
  contents = (text "accessKey", text "key") ∷ [];
}

ensure_secret-Holds_example :
    Holds env (ensure_secret env admin_secret reconciler).1.world admin_secret orders.meta
unfolding ◌==◌ ensure_secret has_reason
ensure_secret-Holds_example =
    ensure_secret-Holds env secret_laws admin_secret reconciler
      (ensure_secret env admin_secret reconciler).1 refl refl

ensure_user_secret-HoldsKey_example :
    (key : UserKeySpec) × (find_key orders_id reconciler.ceph_user.keys ≡ some key)
    × HoldsKey env
        (ensure_user_secret env orders_id (text "orders-rw") reconciler).1.world
        orders.meta
        (text "orders-rw")
        key
unfolding ensure_user_secret assemble_ceph_user_secret find_key ◌==◌ ensure_secret has_reason
ensure_user_secret-HoldsKey_example =
    ensure_user_secret-HoldsKey env secret_laws orders_id (text "orders-rw") reconciler
      (ensure_user_secret env orders_id (text "orders-rw") reconciler).1 refl

abbrev with_secrets : State ℤ World
with_secrets = (ensure_other_subusers_secret env reconciler).1

ensure_other_subusers_secret-HasSecret_example :
    All (HasSecret env secret_laws secret_frame reconciler with_secrets.world) (text "dev" ∷ [])
unfolding mem ensure_other_subusers_secret ensure_subuser_secrets ensure_user_secret
    assemble_ceph_user_secret find_key ◌==◌ generate_subuser_full_id ensure_secret has_reason
ensure_other_subusers_secret-HasSecret_example =
    ensure_other_subusers_secret-HasSecret env secret_laws secret_frame reconciler with_secrets
      (refl, tt) refl
