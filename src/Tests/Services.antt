-- ===== src/Tests/Services.antt =====
-- The theorems on Share, ParitySchedule, PlacementPolicy and DiskFailure at concrete inputs.
use kube_nas.Base.{true, false, [], ◌≡◌, ◌⊎◌}
use kube_nas.Agent.Laws.{effects}
use kube_nas.Controllers.Share as ShareController
use kube_nas.Controllers.Share.Laws as ShareLaws
use kube_nas.Controllers.Parity.Laws as ParityLaws
use kube_nas.Controllers.Failure
use kube_nas.Controllers.Failure.Laws as FailureLaws
use kube_nas.Tests.Samples.{thousandths, broken_disk, one_share, one_schedule, calm_cluster}

reconcile_failure_lem_example :
    ((true ≡ true)
      × FailureLaws.Tends thousandths calm_cluster "nas" broken_disk []
          (effects (Failure.reconcile_failure calm_cluster "nas" thousandths broken_disk []).1))
    ⊎ ((true ≡ false)
        × FailureLaws.Closes thousandths calm_cluster "nas" broken_disk []
            (effects (Failure.reconcile_failure calm_cluster "nas" thousandths broken_disk []).1))
reconcile_failure_lem_example =
    FailureLaws.reconcile_failure_lem thousandths calm_cluster "nas" broken_disk []

reconcile_share_published_example :
    ShareLaws.Publishes calm_cluster one_share []
      (ShareController.reconcile_share calm_cluster (λ s m. m) one_share []).1
reconcile_share_published_example =
    ShareLaws.reconcile_share_published calm_cluster (λ s m. m) one_share []

reconcile_schedule-Applies_example : ParityLaws.Applies calm_cluster "v1" one_schedule []
reconcile_schedule-Applies_example =
    ParityLaws.reconcile_schedule-Applies calm_cluster "v1" one_schedule []
