-- ===== src/Predicates.antt =====
-- internal/predicates/s3userclass.go: which events the claim controller sees, by the class of the
-- object, with `GetS3UserClass` of api/v1alpha1.
pub mod Classes
use ceph_s3_operator.Prelude.{Bool, false}
use ceph_s3_operator.Prelude.Text.{Text, ◌==◌}
use ceph_s3_operator.Api.{S3UserClaim, S3User}

pub record S3ClassPredicate : Type 0 where
  pub s3_user_class : Text

-- A client.Object: the two types with GetS3UserClass, and all others.
pub data Object (Q : Type 0) : Type 0 where
  claim : S3UserClaim Q → Object Q
  user : S3User Q → Object Q
  other : Object Q

-- event.CreateEvent, DeleteEvent, GenericEvent, and UpdateEvent with the old and the new object.
pub data Event (Q : Type 0) : Type 0 where
  create : Object Q → Event Q
  delete : Object Q → Event Q
  update : Object Q → Object Q → Event Q
  generic : Object Q → Event Q

unfoldable pub new_s3_class_predicate : Text → S3ClassPredicate
new_s3_class_predicate s3_user_class = record { s3_user_class = s3_user_class }

module _ {Q : Type 0} where
  -- GetS3UserClass of S3UserClaim and of S3User.
  abbrev claim_class : S3UserClaim Q → Text
  claim_class suc = suc.spec.s3_user_class

  abbrev user_class : S3User Q → Text
  user_class suc = suc.spec.s3_user_class

  unfoldable pub matches_s3_user_class : S3ClassPredicate → Object Q → Bool
  matches_s3_user_class scp (claim c) = claim_class c == scp.s3_user_class
  matches_s3_user_class scp (user u) = user_class u == scp.s3_user_class
  matches_s3_user_class scp other = false

  unfoldable pub passes : S3ClassPredicate → Event Q → Bool
  passes scp (create e) = matches_s3_user_class scp e
  passes scp (delete e) = matches_s3_user_class scp e
  passes scp (update old new) = matches_s3_user_class scp new
  passes scp (generic e) = matches_s3_user_class scp e
