-- ===== src/Lib.antt =====
-- The Ceph S3 operator: an operator for Kubernetes that gives claims (S3UserClaim) users in Ceph's
-- object store with keys in secrets, and buckets (S3Bucket) with policies, under quotas.
--
-- Parts, and how they interact
--   * Two admission webhooks. That of claims (api/v1alpha1/s3userclaim_webhook.go, module
--     ClaimWebhook) admits a claim if what its namespace and its team use with it
--     (api/v1alpha1/quota_handler.go, module Quota) fits the resource quotas and the team's cluster
--     quota, and if its secrets are not there yet. That of buckets (api/v1alpha1/s3bucket_webhook.go,
--     module BucketWebhook) keeps buckets tied to a claim of their namespace.
--   * The controller of claims (internal/controllers/s3userclaim, module ClaimController) makes the
--     Ceph user, its quota, its subusers, the secrets with the keys, the cluster-wide S3User and the
--     used quota in the status of the namespace's resource quotas; it cleans up when a claim goes.
--   * The controller of buckets (internal/controllers/s3bucket, module BucketController) reads the
--     claim's admin secret, and makes the bucket and its policy through the S3 agent
--     (internal/s3_agent/s3_agent.go, module S3Agent).
--   * The entry point (main.go, internal/config/config.go, module Startup) reads the configuration,
--     sets up both controllers and both webhooks, and starts the manager.
--   * A predicate (internal/predicates/s3userclass.go, module Predicates) picks the claims of the
--     operator's class.
--
-- How the code is modelled
--   * Go: an error is a value of `Go.Error` with its wrapping, a call's outcome is `ok`, `err` or
--     `panic` (a nil dereference), strings are lists of code points, maps are association lists,
--     an int64 is its bit pattern with the addition modulo 2 ^ 64, a *int is an address and a value.
--   * Each reconciler is a record of its fields together with the state of the world outside; each
--     method of it is a function of the same name in snake case on that record. Loops over slices
--     are structural recursion, so no fuel is needed anywhere. `Provision` and `Cleanup` run their
--     lists of steps by `Subreconciler.run_steps`.
--   * `Env` holds what the program calls: the Kubernetes client, resource.Quantity, the admin API
--     of Ceph, the S3 API. All of it is a parameter. What a theorem needs of it stands in a
--     record of laws (QuantityLaws, SubuserLaws, QuotaLaws, Answering, Counting, Storing,
--     Removing, Working, SecretLaws, SecretFrame, KoanfLaws) or a named predicate (DecodesFresh,
--     RefersByName, Visits, VisitsSlices), and the module Sample has an environment that keeps
--     them; where users and subusers, or buckets, matter, it is one with the Ceph of Sample/Ceph,
--     or the S3 of Sample/Store.
--   * `Admission` is what the API server keeps of claims and buckets over the requests that both
--     webhooks admit: a step relation on a store, one constructor for each kind of request.
--     Admission/Limits is another, on the list of the claims of one namespace, next to its resource
--     quotas.
--     `Subreconciler.Serve` is one reconciler that the manager's queue calls again and again, next to
--     a controller without a state of its own.
--   * `Startup.main` is the list of the calls that the process makes, with what the libraries answer
--     as a parameter.
--   * Names has the names that both controllers derive, Consts the constants of pkg/consts/consts.go,
--     Api the types of api/v1alpha1. Tests runs the code in the sample environment.
--
-- Not modelled: logging, contexts and time-outs; what the manager and the builders do with what they
-- are given, and the parsing of the flags; the deep copies, since values here do not change, and the
-- registration of the API group; other writers between two calls of one round; the quoting
-- of names by %q beyond the quotation marks; a reconciler's S3 agent is kept where the code sets it
-- to nil before it gives up; a nil pointer for the object that a reconciler works on, since
-- `Reconcile` allocates it first.
pub mod Prelude
pub mod Go
pub mod Names
pub mod Consts
pub mod Api
pub mod Env
pub mod Quota
pub mod ClaimWebhook
pub mod Subreconciler
pub mod ClaimController
pub mod S3Agent
pub mod BucketController
pub mod BucketWebhook
pub mod Predicates
pub mod Admission
pub mod Startup
pub mod Sample
mod Tests
