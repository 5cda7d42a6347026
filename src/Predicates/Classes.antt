-- ===== src/Predicates/Classes.antt =====
-- The predicate of internal/predicates/s3userclass.go on the events around an update.
use ceph_s3_operator.Prelude.{◌≡◌, ap}
use ceph_s3_operator.Prelude.Text.{Text, ◌==◌}
use ceph_s3_operator.Api.{S3UserClaim}
use ceph_s3_operator.Env.{Env}
use ceph_s3_operator.ClaimWebhook.{allowed, claim_object, validate_update}
use ceph_s3_operator.ClaimWebhook.Verdicts.{validate_update_iff}
use ceph_s3_operator.Predicates.{
  S3ClassPredicate, claim, create, delete, update, passes, matches_s3_user_class,
}

module _ {Q W : Type 0} (env : Env Q W) where
  -- After an admitted update of a claim, the event of the update and that of the deletion of the
  -- new object pass exactly if the event of the creation of the old one does.
  pub passes-update :
      (scp : S3ClassPredicate) (w : W) (old suc : S3UserClaim Q)
      → validate_update env w (claim_object old) suc ≡ allowed
      → (passes scp (update (claim old) (claim suc)) ≡ passes scp (create (claim old)))
        × (passes scp (delete (claim suc)) ≡ passes scp (create (claim old)))
  unfolding passes matches_s3_user_class
  passes-update scp w old suc h =
      let same =
        ap (λ (c : Text). c == scp.s3_user_class) ((validate_update_iff env w old suc).0 h).0 in
      (same, same)
