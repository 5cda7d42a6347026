-- ===== src/Tests.antt =====
-- Runs of the code in the sample environment.
mod Names
mod Quota
mod Webhook
mod Claim
mod Secrets
mod Bucket
mod Admission
mod Startup
mod Progress
