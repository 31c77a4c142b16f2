-- ===== src/Controllers/Placement.antt =====
-- The PlacementScheduler of controllers/placement_failure_controllers.go. `sort.Slice` leaves the order
-- of equal elements open, so it is a parameter, `sort less xs`.
pub mod Best
pub mod Sorting
pub mod Laws
pub mod Balanced
pub mod Optimal
use kube_nas.Base.{
  ℕ, String, Bool, true, false, Option, none, some, List, [], ◌∷◌, not, if◌then◌else◌, ◌||◌, is_nil,
}
use kube_nas.Base.Int.{ℤ, pos, ltb_ℤ, sub64, is_zero}
use kube_nas.Base.Float.{Float64}
use kube_nas.Base.Outcome.{Result, ok, err, errorf}
use mathlib.Core.List.{head?, map}
use mathlib.Core.Option
use kube_nas.Api.Disk.{Disk, is_ready}
use kube_nas.Api.Placement.{PlacementPolicy, PlacementStrategy, PlacementWeights}

pub record DiskScore (F : Type 0) : Type 0 where
  pub disk : Disk F
  pub score : F

abbrev pub Sort : Type 0 → Type 0
Sort A = (A → A → Bool) → List A → List A

module _ {F : Type 0} where
  abbrev pub used_bytes : Disk F → ℤ
  used_bytes d = sub64 d.status.capacity_bytes d.status.available_bytes

  -- The loops start with no best disk; `none` is the nil pointer.
  unfoldable pub least_used_from : Option (Disk F) → List (Disk F) → Option (Disk F)
  least_used_from best [] = best
  least_used_from none (d ∷ disks) = least_used_from (some d) disks
  least_used_from (some best) (d ∷ disks) =
      least_used_from
        (some (if ltb_ℤ best.status.available_bytes d.status.available_bytes then d else best))
        disks

  unfoldable pub select_least_used : List (Disk F) → Option (Disk F)
  select_least_used disks = least_used_from none disks

  unfoldable pub fill_first_from : Option (Disk F) → List (Disk F) → Option (Disk F)
  fill_first_from best [] = best
  fill_first_from none (d ∷ disks) = fill_first_from (some d) disks
  fill_first_from (some best) (d ∷ disks) =
      fill_first_from (some (if ltb_ℤ (used_bytes best) (used_bytes d) then d else best)) disks

  unfoldable pub select_fill_first : List (Disk F) → Option (Disk F)
  select_fill_first disks = fill_first_from none disks

  unfoldable pub first_solid_state : List (Disk F) → Option (Disk F)
  first_solid_state [] = none
  first_solid_state (d ∷ disks) =
      let rest = first_solid_state disks in if not d.status.rotational then some d else rest

  unfoldable pub select_tiered : List (Disk F) → Option (Disk F)
  select_tiered disks = elim (first_solid_state disks) [
    | some d ↦ some d
    | none ↦ select_least_used disks
  ]

module _ {F : Type 0} (fl : Float64 F) where
  abbrev pub free_ratio : Disk F → F
  free_ratio d = fl.div (fl.of_int d.status.available_bytes) (fl.of_int d.status.capacity_bytes)

  -- The guards of the loop, in their order.
  unfoldable pub is_eligible : Disk F → Bool
  is_eligible d =
      if not (is_ready d.status.phase)
      then false
      else if is_zero d.status.capacity_bytes
      then false
      else not (fl.lt (free_ratio d) (fl.literal 5 2))

  unfoldable pub filter_eligible : List (Disk F) → List (Disk F)
  filter_eligible [] = []
  filter_eligible (d ∷ disks) =
      let rest = filter_eligible disks in if is_eligible d then d ∷ rest else rest

  abbrev pub weights : PlacementPolicy F → PlacementWeights F
  weights policy = elim policy.spec.weights [
    | some w ↦ w
    | none ↦ record { free_space = fl.literal 7 1; load = fl.literal 2 1; health = fl.literal 1 1 }
  ]

  unfoldable pub score : PlacementWeights F → Disk F → F
  score w d =
      let ratio = if ltb_ℤ (pos 0) d.status.capacity_bytes then free_ratio d else fl.literal 0 1 in
      fl.add (fl.add (fl.mul ratio w.free_space) (fl.mul ratio w.load))
        (fl.mul d.status.health_score w.health)

  -- `none` is the panic of `scored[0]` on an empty slice.
  unfoldable pub select_balanced :
      Sort (DiskScore F) → PlacementPolicy F → List (Disk F) → Option (Disk F)
  select_balanced sort policy disks =
      let scored = map (λ d. record { disk = d; score = score (weights policy) d }) disks in
      Option.map (λ (s : DiskScore F). s.disk) (head? (sort (λ a b. fl.lt b.score a.score) scored))

  unfoldable pub select : Sort (DiskScore F) → PlacementPolicy F → List (Disk F) → Option (Disk F)
  select sort policy disks = elim policy.spec.strategy [
    | PlacementStrategy.balanced ↦ select_balanced sort policy disks
    | PlacementStrategy.least_used ↦ select_least_used disks
    | PlacementStrategy.fill_first ↦ select_fill_first disks
    | PlacementStrategy.tiered ↦ select_tiered disks
    | PlacementStrategy.other ↦ select_balanced sort policy disks
  ]

  unfoldable pub select_disk :
      Sort (DiskScore F) → PlacementPolicy F → List (Disk F) → Result (Option (Disk F))
  select_disk sort policy candidates =
      let eligible = filter_eligible candidates in
      if is_nil eligible
      then err (errorf "no eligible disks meet policy constraints")
      else ok (select sort policy eligible)
