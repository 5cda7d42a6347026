-- ===== src/ClaimController/State.antt =====
-- The claim reconciler's fields and `initVars`: internal/controllers/s3userclaim/handler.go, with
-- the configuration of internal/config/config.go.
use ceph_s3_operator.Prelude.{ℕ, Option, none, List, []}
use ceph_s3_operator.Prelude.Text.{Text, text}
use ceph_s3_operator.Names.{
  NamespacedName, ceph_tenant, ceph_user_full_id, ceph_display_name, s3_user_name,
  generate_subuser_full_id,
}
use ceph_s3_operator.Api.{UserQuota, S3UserClaim, User, empty_claim, user_with_id}

pub record RgwConfig : Type 0 where
  pub endpoint : Text
  pub access_key : Text
  pub secret_key : Text

pub record Config : Type 0 where
  pub s3_user_class : Text
  pub cluster_name : Text
  pub validation_webhook_timeout_seconds : ℕ
  pub rgw : RgwConfig

abbrev pub default_config : Config
default_config = record {
  s3_user_class = text "ceph-default";
  cluster_name = text "okd4-main";
  validation_webhook_timeout_seconds = 10;
  rgw = record {
    endpoint = text "http://127.0.0.1:8000";
    access_key = text "2262XNX11FZRR44XWIRD";
    secret_key = text "rmtuS1Uj1bIC08QFYGW18GfSHAbkPqdsuYynNudw";
  };
}

-- Reconciler, with the world outside. Left out are the library's handles and the fields that nothing
-- reads (clusterResourceQuota, rgwAccessKey, rgwSecretKey and rgwEndpoint). `s3_user_claim` is never
-- nil: `Reconcile` allocates it first.
pub record State (Q W : Type 0) : Type 0 where
  pub world : W
  pub s3_user_claim : S3UserClaim Q
  pub ceph_user : User
  pub s3_user_claim_namespace : Text
  pub ceph_tenant : Text
  pub ceph_user_id : Text
  pub ceph_user_full_id : Text
  pub ceph_display_name : Text
  pub s3_user_name : Text
  pub readonly_ceph_user_id : Text
  pub readonly_ceph_user_full_id : Text
  pub desired_subusers_string_list : List Text
  pub namespace_used_quota : Option (UserQuota Q)
  pub cluster_name : Text
  pub s3_user_class : Text

-- NewReconciler, in a world.
unfoldable pub new_reconciler : {Q W : Type 0} → Config → W → State Q W
new_reconciler cfg w = record {
  world = w;
  s3_user_claim = empty_claim;
  ceph_user = user_with_id [];
  s3_user_claim_namespace = [];
  ceph_tenant = [];
  ceph_user_id = [];
  ceph_user_full_id = [];
  ceph_display_name = [];
  s3_user_name = [];
  readonly_ceph_user_id = [];
  readonly_ceph_user_full_id = [];
  desired_subusers_string_list = [];
  namespace_used_quota = none;
  cluster_name = cfg.cluster_name;
  s3_user_class = cfg.s3_user_class;
}

unfoldable pub init_vars : {Q W : Type 0} → NamespacedName → State Q W → State Q W
init_vars req r =
    let tenant = ceph_tenant r.cluster_name req.namespace in
    let full_id = ceph_user_full_id tenant req.name in
    record r {
      s3_user_claim_namespace = req.namespace;
      ceph_tenant = tenant;
      ceph_user_id = req.name;
      ceph_user_full_id = full_id;
      ceph_display_name = ceph_display_name r.cluster_name req;
      readonly_ceph_user_id = text "readonly";
      readonly_ceph_user_full_id = generate_subuser_full_id full_id (text "readonly");
      s3_user_name = s3_user_name req;
    }
