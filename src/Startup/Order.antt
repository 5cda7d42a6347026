-- ===== src/Startup/Order.antt =====
-- The order of the calls in `init` and `main` of main.go, and where the process stops.
use ceph_s3_operator.Prelude.{
  ◌≡◌, ◌≢◌, ◌⊎◌, inl, inr, refl, Bool, true, false, List, [], ◌∷◌, ◌++◌, arith, All, Bool-cases,
}
use ceph_s3_operator.Prelude.Text.{Text, text}
use ceph_s3_operator.Go.{Error, Result, ok, err, Result-cases}
use ceph_s3_operator.ClaimController.State.{Config}
use ceph_s3_operator.Startup.{
  Flags, Koanf, Call, add_to_scheme, new_manager, new_rgw_client, complete_controller,
  complete_webhook, add_healthz_check, add_readyz_check, start, Outcome, returned, failed, crashed,
  get_config, claim_builder, bucket_builder, timeout_of, manager_options, then_call, must,
  run_manager, webhooks_enabled, setup_webhooks, main, run_process,
}

-- The calls after the configuration of the controllers.
abbrev pub last_calls : List Call
last_calls = add_healthz_check (text "healthz") ∷ add_readyz_check (text "readyz") ∷ start ∷ []

abbrev pub webhook_calls : Bool → Config → List Call
webhook_calls true cfg =
    complete_webhook (text "S3UserClaim") (timeout_of cfg.validation_webhook_timeout_seconds)
    ∷ complete_webhook (text "S3Bucket") (timeout_of cfg.validation_webhook_timeout_seconds)
    ∷ last_calls
webhook_calls false cfg = last_calls

-- The calls of a process that comes up, in their order.
abbrev pub wanted_calls : Bool → Flags → Config → List Call
wanted_calls webhooks flags cfg =
    add_to_scheme (text "client-go")
    ∷ add_to_scheme (text "quota.openshift.io")
    ∷ add_to_scheme (text "s3.snappcloud.io")
    ∷ new_manager (manager_options flags)
    ∷ new_rgw_client cfg.rgw
    ∷ complete_controller (claim_builder cfg.s3_user_class) cfg
    ∷ complete_controller bucket_builder cfg
    ∷ webhook_calls webhooks cfg

module _ (answer : Call → Result (Unit {0})) where
  abbrev pub IsAnswered : Call → Type 0
  IsAnswered call = answer call ≡ ok tt

  -- The process ends at a call that is not answered: with its error, or in a panic.
  abbrev pub EndsAt : Call → Outcome → Type 0
  EndsAt call outcome =
      ((message : Text) × (e : Error) × (answer call ≡ err e) × (outcome ≡ failed message e))
      ⊎ ((outcome ≡ crashed) × (answer call ≢ ok tt))

  -- All calls of a plan have been made and answered, and the process returns; or those up to the
  -- first that is not answered have, and it ends there.
  pub data Follows : List Call → Outcome × List Call → Type 0 where
    all_answered : (plan : List Call) → All IsAnswered plan → Follows plan (returned, plan)
    stopped :
        (before : List Call) (call : Call) (later : List Call) (outcome : Outcome)
        → All IsAnswered before
        → EndsAt call outcome
        → Follows (before ++ call ∷ later) (outcome, before ++ call ∷ [])

  more :
      (call : Call) (plan : List Call) (rest : Outcome × List Call)
      → IsAnswered call
      → Follows plan rest
      → Follows (call ∷ plan) (rest.0, call ∷ rest.1)
  more call _ _ h (Follows.all_answered plan all) = Follows.all_answered (call ∷ plan) (h, all)
  more call _ _ h (Follows.stopped before c later outcome all ends) =
      Follows.stopped (call ∷ before) c later outcome (h, all) ends

  then_call-Follows :
      (call : Call) (message : Text) (plan : List Call) (rest : Outcome × List Call)
      → Follows plan rest
      → Follows (call ∷ plan) (then_call answer call message rest)
  then_call-Follows call message plan rest h = elim (Result-cases (answer call)) [
    | inl (u, e) ↦ rw (then_call, e) (more call plan rest e h)
    | inr bad ↦ elim bad [
      | inl (x, e) ↦
          rw (then_call, e)
            (Follows.stopped [] call plan (failed message x) tt (inl (message, x, e, refl)))
      | inr e ↦
          rw (then_call, e)
            (Follows.stopped [] call plan crashed tt (inr (refl, λ p. ground arith)))
    ]
  ]

  must-Follows :
      (call : Call) (plan : List Call) (rest : Outcome × List Call)
      → Follows plan rest
      → Follows (call ∷ plan) (must answer call rest)
  must-Follows call plan rest h = elim (Result-cases (answer call)) [
    | inl (u, e) ↦ rw (must, e) (more call plan rest e h)
    | inr bad ↦ elim bad [
      | inl (x, e) ↦
          rw (must, e) (Follows.stopped [] call plan crashed tt (inr (refl, λ p. ground arith)))
      | inr e ↦
          rw (must, e) (Follows.stopped [] call plan crashed tt (inr (refl, λ p. ground arith)))
    ]
  ]

  run_manager-Follows : Follows last_calls (run_manager answer)
  unfolding run_manager
  run_manager-Follows =
      then_call-Follows _ _ _ _
        (then_call-Follows _ _ _ _ (then_call-Follows _ _ _ _ (Follows.all_answered [] tt)))

  setup_webhooks-Follows :
      (getenv : Text → Text) (cfg : Config)
      → Follows (webhook_calls (webhooks_enabled getenv) cfg) (setup_webhooks answer getenv cfg)
  unfolding setup_webhooks
  setup_webhooks-Follows getenv cfg = elim (Bool-cases (webhooks_enabled getenv)) [
    | inl e ↦ rw e (then_call-Follows _ _ _ _ (then_call-Follows _ _ _ _ run_manager-Follows))
    | inr e ↦ rw e run_manager-Follows
  ]

  main-Follows :
      {K : Type 0} (koanf : Koanf K) (getenv : Text → Text) (flags : Flags) (cfg : Config)
      → get_config koanf flags.config ≡ ok cfg
      → Follows
          (new_manager (manager_options flags)
            ∷ new_rgw_client cfg.rgw
            ∷ complete_controller (claim_builder cfg.s3_user_class) cfg
            ∷ complete_controller bucket_builder cfg
            ∷ webhook_calls (webhooks_enabled getenv) cfg)
          (main answer koanf getenv flags)
  unfolding main
  main-Follows koanf getenv flags cfg h =
      rw (main, h)
        (then_call-Follows _ _ _ _ (
          then_call-Follows _ _ _ _ (
            then_call-Follows _ _ _ _
              (then_call-Follows _ _ _ _ (setup_webhooks-Follows getenv cfg)))))

  -- Where the configuration is read, the process makes these calls in this order, those for the
  -- webhooks only if ENABLE_WEBHOOKS is not "false", with the class, the credentials and the timeout
  -- of the configuration. It returns if all are answered without an error. Otherwise it makes none
  -- after the first that is not, and ends with the error of that call, or in a panic: the manager
  -- never starts unless all that comes before it is set up.
  pub run_process-Follows :
      {K : Type 0} (koanf : Koanf K) (getenv : Text → Text) (flags : Flags) (cfg : Config)
      → get_config koanf flags.config ≡ ok cfg
      → Follows
          (wanted_calls (webhooks_enabled getenv) flags cfg)
          (run_process answer koanf getenv flags)
  unfolding run_process
  run_process-Follows koanf getenv flags cfg h =
      must-Follows _ _ _
        (must-Follows _ _ _ (must-Follows _ _ _ (main-Follows koanf getenv flags cfg h)))
