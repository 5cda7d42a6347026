-- ===== src/Startup.antt =====
-- The entry point: main.go, with `GetConfig` of internal/config/config.go, both `SetupWithManager`
-- in internal/controllers and both `SetupWebhookWithManager` in api/v1alpha1.
--
-- What the libraries do with a call is not modelled: a call is recorded with its arguments, and
-- `answer` gives what it returns. The flags are taken as parsed, and `ctrl.GetConfigOrDie`, which
-- ends the process itself, as returned.
pub mod Loading
pub mod Order
use ceph_s3_operator.Prelude.{
  ℕ, ◌*◌, ◌%◌, ◌^◌, Bool, true, false, not, Option, none, some, List, [], ◌∷◌, if◌then◌else◌,
}
use ceph_s3_operator.Prelude.Text.{Text, text, ◌==◌}
use ceph_s3_operator.Go.{Error, Result, ok, err, panic, ◌>>=◌}
use ceph_s3_operator.ClaimController.State.{Config, RgwConfig, default_config}
use ceph_s3_operator.Predicates.{S3ClassPredicate, new_s3_class_predicate}

-- The command-line flags, and their defaults.
pub record Flags : Type 0 where
  pub metrics_bind_address : Text
  pub health_probe_bind_address : Text
  pub leader_elect : Bool
  pub config : Text

abbrev pub default_flags : Flags
default_flags = record {
  metrics_bind_address = text ":8080";
  health_probe_bind_address = text ":8081";
  leader_elect = false;
  config = text "hack/config.yaml";
}

-- ctrl.Options
pub record ManagerOptions : Type 0 where
  pub metrics_bind_address : Text
  pub port : ℕ
  pub health_probe_bind_address : Text
  pub leader_election : Bool
  pub leader_election_id : Text

-- What the builder of a controller is given: the kind, its predicate on the class, whether only
-- changes of the generation count, and the kinds that are watched and owned.
pub record Builder : Type 0 where
  pub for_kind : Text
  pub class_predicate : Option S3ClassPredicate
  pub generation_changed : Bool
  pub watches : List Text
  pub owns : List Text

-- A call of `main`. A controller is completed with the reconciler that `NewReconciler` makes from a
-- configuration. A webhook is set up for a kind, with the timeout of its validators in
-- nanoseconds, an int64.
pub data Call : Type 0 where
  add_to_scheme : Text → Call
  new_manager : ManagerOptions → Call
  new_rgw_client : RgwConfig → Call
  complete_controller : Builder → Config → Call
  complete_webhook : Text → ℕ → Call
  add_healthz_check : Text → Call
  add_readyz_check : Text → Call
  start : Call

-- How the process ends: `main` returns, or logs a message with an error and exits with code 1, or
-- panics.
pub data Outcome : Type 0 where
  returned : Outcome
  failed : Text → Error → Outcome
  crashed : Outcome

-- github.com/knadh/koanf over its state `K`: New, Load of the fields of a struct and of a file, and
-- Unmarshal into a struct.
pub record Koanf (K : Type 0) : Type 0 where
  pub new : K
  pub load_struct : Config → K → Result K
  pub load_file : Text → K → Result K
  pub unmarshal : K → Config → Result Config

-- &Config{}; its nil pointer to the settings of RGW is read by nobody before Unmarshal has set it.
abbrev pub empty_config : Config
empty_config = record {
  s3_user_class = [];
  cluster_name = [];
  validation_webhook_timeout_seconds = 0;
  rgw = record { endpoint = []; access_key = []; secret_key = [] };
}

unfoldable pub get_config : {K : Type 0} → Koanf K → Text → Result Config
get_config koanf config_path = do
  k ← koanf.load_struct default_config koanf.new
  k ← koanf.load_file config_path k
  koanf.unmarshal k empty_config

-- SetupWithManager of the claim controller.
unfoldable pub claim_builder : Text → Builder
claim_builder s3_user_class = record {
  for_kind = text "S3UserClaim";
  class_predicate = some (new_s3_class_predicate s3_user_class);
  generation_changed = false;
  watches = text "S3User" ∷ [];
  owns = text "Secret" ∷ [];
}

-- SetupWithManager of the bucket controller.
abbrev pub bucket_builder : Builder
bucket_builder = record {
  for_kind = text "S3Bucket";
  class_predicate = none;
  generation_changed = true;
  watches = [];
  owns = [];
}

-- SetupWebhookWithManager of S3UserClaim and of S3Bucket, with the timeout that `main` has set.
abbrev pub claim_webhook : ℕ → Call
claim_webhook validation_timeout = complete_webhook (text "S3UserClaim") validation_timeout

abbrev pub bucket_webhook : ℕ → Call
bucket_webhook validation_timeout = complete_webhook (text "S3Bucket") validation_timeout

-- time.Duration(seconds) * time.Second
unfoldable pub timeout_of : ℕ → ℕ
timeout_of seconds = seconds * 10 ^ 9 % 2 ^ 64

unfoldable pub manager_options : Flags → ManagerOptions
manager_options flags = record {
  metrics_bind_address = flags.metrics_bind_address;
  port = 9443;
  health_probe_bind_address = flags.health_probe_bind_address;
  leader_election = flags.leader_elect;
  leader_election_id = text "c143cfda.snappcloud.io";
}

unfoldable pub webhooks_enabled : (Text → Text) → Bool
webhooks_enabled getenv = not (getenv (text "ENABLE_WEBHOOKS") == text "false")

module _ (answer : Call → Result (Unit {0})) where
  -- `if err := call; err != nil { setupLog.Error(err, message); os.Exit(1) }`, and then the rest.
  abbrev pub then_call : Call → Text → Outcome × List Call → Outcome × List Call
  then_call call message rest = elim (answer call) [
    | ok _ ↦ (rest.0, call ∷ rest.1)
    | err e ↦ (failed message e, call ∷ [])
    | panic ↦ (crashed, call ∷ [])
  ]

  -- utilruntime.Must(call)
  abbrev pub must : Call → Outcome × List Call → Outcome × List Call
  must call rest = elim (answer call) [
    | ok _ ↦ (rest.0, call ∷ rest.1)
    | err e ↦ (crashed, call ∷ [])
    | panic ↦ (crashed, call ∷ [])
  ]

  -- The part of `main` after the webhooks.
  unfoldable pub run_manager : Outcome × List Call
  run_manager =
      then_call (add_healthz_check (text "healthz")) (text "unable to set up health check") (
        then_call (add_readyz_check (text "readyz")) (text "unable to set up ready check")
          (then_call start (text "problem running manager") (returned, [])))

  unfoldable pub setup_webhooks : (Text → Text) → Config → Outcome × List Call
  setup_webhooks getenv cfg =
      let validation_timeout = timeout_of cfg.validation_webhook_timeout_seconds in
      if webhooks_enabled getenv
      then then_call (claim_webhook validation_timeout) (text "unable to create webhook") (
          then_call (bucket_webhook validation_timeout) (text "unable to create webhook")
            run_manager)
      else run_manager

  module _ {K : Type 0} (koanf : Koanf K) (getenv : Text → Text) where
    unfoldable pub main : Flags → Outcome × List Call
    main flags = elim (get_config koanf flags.config) [
      | ok cfg ↦ then_call (new_manager (manager_options flags)) (text "unable to start manager") (
          then_call (new_rgw_client cfg.rgw) (text "failed to create rgw connection") (
            then_call (complete_controller (claim_builder cfg.s3_user_class) cfg)
              (text "unable to create controller")
              (then_call (complete_controller bucket_builder cfg)
                (text "unable to create controller") (setup_webhooks getenv cfg))))
      | err e ↦ (failed (text "failed to get config") e, [])
      | panic ↦ (crashed, [])
    ]

    -- `init`, and then `main`.
    unfoldable pub run_process : Flags → Outcome × List Call
    run_process flags = must (add_to_scheme (text "client-go")) (
        must (add_to_scheme (text "quota.openshift.io"))
          (must (add_to_scheme (text "s3.snappcloud.io")) (main flags)))
