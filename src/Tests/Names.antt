-- ===== src/Tests/Names.antt =====
-- The naming functions on the names of the sample objects.
use ceph_s3_operator.Prelude.{◌≡◌, refl, arith}
use ceph_s3_operator.Prelude.Text.{text}
use ceph_s3_operator.Go.{ok}
use ceph_s3_operator.Names.{
  replace_special, ceph_tenant, ceph_user_full_id, generate_subuser_full_id, extract_subuser_name,
}
use ceph_s3_operator.Names.Tenant.{IsLabel, ceph_user_full_id_injective}
use ceph_s3_operator.Names.Subuser.{extract-generate_subuser}
use ceph_s3_operator.Sample.Objects.{shop, request, orders_id}

full_id_run :
    ceph_user_full_id (ceph_tenant (text "eu-1.c") (text "my-shop")) (text "orders")
    ≡ text "eu_1_c__my_shop$orders"
unfolding ceph_user_full_id ceph_tenant replace_special
full_id_run = refl

shop-IsLabel : IsLabel shop
shop-IsLabel = ground arith

ceph_user_full_id_injective_example : request ≡ record { namespace = shop; name = text "orders" }
ceph_user_full_id_injective_example =
    ceph_user_full_id_injective (text "c") request
      (record { namespace = shop; name = text "orders" }) (ground arith) shop-IsLabel shop-IsLabel
      refl

extract-generate_subuser_example :
    extract_subuser_name (generate_subuser_full_id orders_id (text "dev")) ≡ ok (text "dev")
extract-generate_subuser_example =
    extract-generate_subuser orders_id (text "dev") (ground arith) (ground arith)
