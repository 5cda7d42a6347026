-- ===== src/ClaimController.antt =====
-- The controller of S3UserClaims: internal/controllers/s3userclaim.
pub mod State
pub mod CephUser
pub mod Subusers
pub mod Secrets
pub mod S3User
pub mod Status
pub mod Flow
pub mod Steps
pub mod Settings
pub mod Fresh
pub mod Leftovers
pub mod Rounds
pub mod Serve
pub mod Progress
