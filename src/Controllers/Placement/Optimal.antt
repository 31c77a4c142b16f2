-- ===== src/Controllers/Placement/Optimal.antt =====
-- What SelectDisk of controllers/placement_failure_controllers.go takes under each strategy.
use kube_nas.Base.{false, true, List, ◌≡◌, ◌⊎◌, All}
use kube_nas.Base.Int.{◌≤ℤ◌}
use kube_nas.Base.Float.{Float64}
use kube_nas.Api.Disk.{Disk}
use kube_nas.Api.Placement.{PlacementPolicy, PlacementStrategy}
use kube_nas.Controllers.Placement.{is_eligible, score, weights, used_bytes}

-- No eligible candidate has a score above that of the disk.
abbrev pub HasBestScore :
    {F : Type 0} → Float64 F → PlacementPolicy F → List (Disk F) → Disk F → Type 0
HasBestScore fl policy candidates w =
    All
      (λ x.
        (is_eligible fl x ≡ false)
        ⊎ (fl.lt (score fl (weights fl policy) w) (score fl (weights fl policy) x) ≡ false))
      candidates

-- What a strategy promises of the disk that it takes.
abbrev pub IsOptimal :
    {F : Type 0}
    → Float64 F
    → PlacementPolicy F
    → PlacementStrategy
    → List (Disk F)
    → Disk F
    → Type 0
IsOptimal fl policy PlacementStrategy.balanced candidates w = HasBestScore fl policy candidates w
IsOptimal fl policy PlacementStrategy.other candidates w = HasBestScore fl policy candidates w
IsOptimal fl policy PlacementStrategy.least_used candidates w =
    All (λ x. (is_eligible fl x ≡ false) ⊎ (x.status.available_bytes ≤ℤ w.status.available_bytes))
      candidates
IsOptimal fl policy PlacementStrategy.fill_first candidates w =
    All (λ x. (is_eligible fl x ≡ false) ⊎ (used_bytes x ≤ℤ used_bytes w)) candidates
IsOptimal fl policy PlacementStrategy.tiered candidates w =
    (w.status.rotational ≡ false)
    ⊎ All (λ x. (is_eligible fl x ≡ false) ⊎ (x.status.rotational ≡ true)) candidates
      × All
          (λ x. (is_eligible fl x ≡ false) ⊎ (x.status.available_bytes ≤ℤ w.status.available_bytes))
          candidates
