-- ===== src/Tests/Scheduling.antt =====
-- The theorems on the schedulers and on rebalancing at concrete inputs.
use kube_nas.Controllers.Rebalance.Reach
use kube_nas.Controllers.Rebalance.Reach.{rank}
use kube_nas.Api.Rebalance.{RebalanceJobPhase, is_pending}
use kube_nas.Base.{◌≢◌, ◌≤◌, ◌<◌, length}
use kube_nas.Tests.Samples.{planned_job}
use kube_nas.Base.{ℕ, List, arith, true, false, some, [], ◌∷◌, ◌≡◌, refl, ◌⊎◌, All}
use kube_nas.Base.Int.{ℤ, pos, ◌≤ℤ◌}
use kube_nas.Base.Outcome.{ok, err, errorf}
use mathlib.Core.List.{Memᴰ}
use mathlib.Core.Option
use kube_nas.Api.Disk.{Disk}
use kube_nas.Api.Placement.{PlacementStrategy}
use kube_nas.Api.Rebalance.{is_terminal}
use kube_nas.Controllers.Placement
use kube_nas.Controllers.Placement.Laws as PlacementLaws
use kube_nas.Base.Order.{IsWeakOrderOn}
use kube_nas.Controllers.Placement.Balanced
use kube_nas.Controllers.Placement.Optimal
use kube_nas.Controllers.Rebalance
use kube_nas.Controllers.Rebalance.Spread
use kube_nas.Controllers.Rebalance.Laws as RebalanceLaws
use kube_nas.Base.Int
use kube_nas.Storage.Scheduler
use kube_nas.Storage.Scheduler.{Candidate}
use kube_nas.Storage.Scheduler.Laws as StorageLaws
use kube_nas.Storage.Scheduler.Selection
use kube_nas.Tests.Samples.{
  thousandths, spinning_disk, solid_disk, full_disk, three_disks, policy_of, one_job, calm_cluster,
}
use kube_nas.Tests.Sorting.{insertion_sort, insertion_sort-KeepsElements}

reconcile_job_steps_example :
    ((is_terminal one_job.status.phase ≡ true)
      × ((Rebalance.reconcile_job calm_cluster thousandths one_job []).1 ≡ []))
    ⊎ ((is_terminal one_job.status.phase ≡ false)
        × RebalanceLaws.Wrote calm_cluster one_job []
            (Rebalance.reconcile_job calm_cluster thousandths one_job []).1)
reconcile_job_steps_example = RebalanceLaws.reconcile_job_steps calm_cluster thousandths one_job []

select_disk_lem_example :
    ((Placement.select_disk thousandths insertion_sort
          (policy_of PlacementStrategy.balanced)
          three_disks
        ≡ err (errorf "no eligible disks meet policy constraints"))
      × All (λ d. Placement.is_eligible thousandths d ≡ false) three_disks)
    ⊎ ((w : Disk ℕ) × (Placement.select_disk thousandths insertion_sort
            (policy_of PlacementStrategy.balanced)
            three_disks
          ≡ ok (some w))
        × Memᴰ w three_disks
        × (Placement.is_eligible thousandths w ≡ true))
select_disk_lem_example =
    PlacementLaws.select_disk_lem thousandths insertion_sort insertion_sort-KeepsElements
      (policy_of PlacementStrategy.balanced) three_disks

abbrev full : Candidate ℕ
full = StorageLaws.candidate thousandths (λ d. 0) full_disk

abbrev solid : Candidate ℕ
solid = StorageLaws.candidate thousandths (λ d. 0) solid_disk

abbrev spinning : Candidate ℕ
spinning = StorageLaws.candidate thousandths (λ d. 0) spinning_disk

strategies-candidate_example :
    (Option.map
        (StorageLaws.candidate thousandths (λ d. 0))
        (Placement.select_least_used three_disks)
      ≡ some (Scheduler.most_available full (solid ∷ spinning ∷ [])))
    × (Option.map
          (StorageLaws.candidate thousandths (λ d. 0))
          (Placement.select_fill_first three_disks)
        ≡ some (Scheduler.most_taken full (solid ∷ spinning ∷ [])))
    × (Option.map (StorageLaws.candidate thousandths (λ d. 0)) (Placement.select_tiered three_disks)
        ≡ some (
            Scheduler.first_solid
              (Scheduler.most_available full (solid ∷ spinning ∷ []))
              (full ∷ solid ∷ spinning ∷ [])))
strategies-candidate_example =
    StorageLaws.strategies-candidate thousandths (λ d. 0) full_disk
      (solid_disk ∷ spinning_disk ∷ [])

select_candidate_lem_example :
    ((Scheduler.select_candidate thousandths insertion_sort
          (Scheduler.new_engine thousandths)
          Scheduler.Strategy.balanced
          (full ∷ solid ∷ spinning ∷ [])
        ≡ err (errorf "no eligible disks"))
      × All (λ d. Scheduler.is_candidate d ≡ false) (full ∷ solid ∷ spinning ∷ []))
    ⊎ ((w : Candidate ℕ) × (Scheduler.select_candidate thousandths insertion_sort
            (Scheduler.new_engine thousandths)
            Scheduler.Strategy.balanced
            (full ∷ solid ∷ spinning ∷ [])
          ≡ ok (some w))
        × Memᴰ w (full ∷ solid ∷ spinning ∷ [])
        × (Scheduler.is_candidate w ≡ true))
select_candidate_lem_example =
    Selection.select_candidate_lem thousandths insertion_sort insertion_sort-KeepsElements
      (Scheduler.new_engine thousandths) Scheduler.Strategy.balanced (full ∷ solid ∷ spinning ∷ [])

reach-rank_example :
    (rank one_job.status.phase ≤ rank planned_job.status.phase)
    × ((is_pending one_job.status.phase ≡ true)
        ⊎ (planned_job.status.phase ≡ one_job.status.phase)
        ⊎ (planned_job.status.phase ≢ RebalanceJobPhase.planning)
          × (is_pending planned_job.status.phase ≡ false))
unfolding Rebalance.reconcile_job Rebalance.gather Rebalance.plan Rebalance.is_imbalanced
    Rebalance.set_job_phase Rebalance.stamp_start Rebalance.stamp_completion Rebalance.utilizations
    Rebalance.extremes Rebalance.spread_exceeds Int.wrap64 Int.◌-ℤ◌
reach-rank_example =
    Reach.reach-rank calm_cluster thousandths one_job planned_job (Reach.next [] refl Reach.here)

utilizations-IsWeakOrderOn : (us : List ℕ) → IsWeakOrderOn thousandths.lt us
utilizations-IsWeakOrderOn us = record {
  asymmetric = λ a b ma mb h. ground (arith, h);
  negative = λ a b c ma mb mc h h'. ground (arith, h, h');
}

is_imbalanced_lem_example :
    (((3 < 2) ⊎ ((pos 10 ≤ℤ pos 0) ⊎ (length (Rebalance.utilizations thousandths three_disks) < 2)))
      × (Rebalance.is_imbalanced thousandths three_disks (pos 10) ≡ false))
    ⊎ ((2 ≤ 3)
        × (pos 1 ≤ℤ pos 10)
        × Spread.ComparesExtremes thousandths
            (Rebalance.utilizations thousandths three_disks)
            (pos 10)
            (Rebalance.is_imbalanced thousandths three_disks (pos 10)))
is_imbalanced_lem_example =
    Spread.is_imbalanced_lem thousandths three_disks (pos 10)
      (utilizations-IsWeakOrderOn (Rebalance.utilizations thousandths three_disks))
