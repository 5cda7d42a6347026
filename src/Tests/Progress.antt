-- ===== src/Tests/Progress.antt =====
-- A round for the sample claim, in the cluster whose Ceph answers.
use ceph_s3_operator.Prelude.{◌≡◌, true, refl, false, [], ◌∷◌}
use ceph_s3_operator.Prelude.Text.{Text, text, ◌==◌}
use ceph_s3_operator.Names.{ceph_tenant, ceph_user_full_id}
use ceph_s3_operator.Subreconciler.{evaluate}
use ceph_s3_operator.ClaimController.State.{State}
use ceph_s3_operator.ClaimController.Flow.{reconcile}
use ceph_s3_operator.Prelude.Int.{ℤ}
use ceph_s3_operator.Sample.{World}
use ceph_s3_operator.Sample.Ceph.{ceph_env}
use ceph_s3_operator.Sample.Plain.{ClaimsOf, Listed}
use ceph_s3_operator.Api.{S3UserClaim}
use ceph_s3_operator.Sample.Objects.{images, ledger}
use ceph_s3_operator.Sample.Working.{removing, Claims}
use ceph_s3_operator.ClaimController.Progress.Cleanup.{
  NoUser, NoS3User, IsReleased, cleanup_round_goes_through,
}
use ceph_s3_operator.Names.{s3_user_name}
use ceph_s3_operator.Sample.Objects.{orders, shop, quota, request, reconciler, world}

world-ClaimsOf : ClaimsOf world
world-ClaimsOf = ((quota 2, refl), ((quota 3, refl), ((quota 1, refl), tt)))

-- The claim as it is being deleted, and the world that has it.
abbrev doomed : S3UserClaim ℤ
doomed = record orders { meta = record (orders.meta) { deleting = true } }

abbrev with_doomed : State ℤ World
with_doomed = record reconciler {
  world = record world { claim_list = images ∷ doomed ∷ ledger ∷ [] };
}

cleanup_round_goes_through_example :
    (r' : State ℤ World) × (reconcile ceph_env request with_doomed ≡ (evaluate false, r'))
    × NoUser ceph_env Claims Listed
        (ceph_user_full_id (ceph_tenant (text "c") shop) (text "orders"))
        r'.world
    × NoS3User ceph_env Claims Listed (s3_user_name request) r'.world
    × IsReleased ceph_env doomed r'
unfolding ◌==◌
cleanup_round_goes_through_example =
    cleanup_round_goes_through ceph_env Claims Listed removing request with_doomed {claim = doomed}
      {q = quota 3} refl refl refl world-ClaimsOf
