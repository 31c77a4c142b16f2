-- ===== src/Storage/Scheduler/Laws.antt =====
-- The stand-alone scheduler against the one of the controllers.
use kube_nas.Base.{
  none, some, List, [], ◌∷◌, ◌≡◌, refl, arith, inl, inr, Bool-cases, Option-cases, map,
}
use kube_nas.Base.Int.{ltb_ℤ}
use kube_nas.Base.Float.{Float64}
use mathlib.Core.Option
use kube_nas.Api.Disk.{Disk}
use kube_nas.Controllers.Placement.{
  used_bytes, is_eligible, least_used_from, select_least_used, fill_first_from, select_fill_first,
  first_solid_state, select_tiered,
}
use kube_nas.Storage.Scheduler.{Candidate, most_available, most_taken, first_solid}

module _ {F : Type 0} (fl : Float64 F) (io_load : Disk F → F) where
  -- A Disk as a candidate of the stand-alone scheduler.
  abbrev pub candidate : Disk F → Candidate F
  candidate d = record {
    name = d.meta.name;
    capacity_bytes = d.status.capacity_bytes;
    available_bytes = d.status.available_bytes;
    health_score = d.status.health_score;
    io_load_score = io_load d;
    rotational = d.status.rotational;
    eligible = is_eligible fl d;
  }

  most_available-candidate :
      (b : Disk F) (disks : List (Disk F))
      → Option.map candidate (least_used_from (some b) disks)
        ≡ some (most_available (candidate b) (map candidate disks))
  unfolding least_used_from most_available
  most_available-candidate b [] = refl
  most_available-candidate b (d ∷ disks) =
      elim (Bool-cases (ltb_ℤ b.status.available_bytes d.status.available_bytes)) [
        | inl less ↦ ground (arith, most_available-candidate d disks)
        | inr more ↦ ground (arith, most_available-candidate b disks)
      ]

  most_taken-candidate :
      (b : Disk F) (disks : List (Disk F))
      → Option.map candidate (fill_first_from (some b) disks)
        ≡ some (most_taken (candidate b) (map candidate disks))
  unfolding fill_first_from most_taken
  most_taken-candidate b [] = refl
  most_taken-candidate b (d ∷ disks) = elim (Bool-cases (ltb_ℤ (used_bytes b) (used_bytes d))) [
    | inl less ↦ ground (arith, most_taken-candidate d disks)
    | inr more ↦ ground (arith, most_taken-candidate b disks)
  ]

  first_solid-candidate :
      (fallback : Candidate F) (disks : List (Disk F))
      → first_solid fallback (map candidate disks)
        ≡ (elim (first_solid_state disks) [ some w ↦ candidate w | none ↦ fallback ])
  unfolding first_solid_state first_solid
  first_solid-candidate fallback [] = refl
  first_solid-candidate fallback (d ∷ disks) = elim (Bool-cases d.status.rotational) [
    | inl spins ↦ ground (arith, first_solid-candidate fallback disks)
    | inr solid ↦ ground arith
  ]

  -- On the disks of the controllers, the loops of the two schedulers take the same disk: the one with
  -- the most available bytes, the one with the most used bytes, and the first that does not rotate or
  -- else the one with the most available bytes.
  pub strategies-candidate :
      (d : Disk F) (disks : List (Disk F))
      → (Option.map candidate (select_least_used (d ∷ disks))
          ≡ some (most_available (candidate d) (map candidate disks)))
        × (Option.map candidate (select_fill_first (d ∷ disks))
            ≡ some (most_taken (candidate d) (map candidate disks)))
        × (Option.map candidate (select_tiered (d ∷ disks))
            ≡ some (
                first_solid
                  (most_available (candidate d) (map candidate disks))
                  (map candidate (d ∷ disks))))
  unfolding select_least_used select_fill_first select_tiered least_used_from fill_first_from
  strategies-candidate d disks = (
    most_available-candidate d disks,
    most_taken-candidate d disks,
    elim (Option-cases (first_solid_state (d ∷ disks))) [
      | inr (w, e) ↦ ground (arith, first_solid-candidate best (d ∷ disks))
      | inl e ↦
          ground (arith, first_solid-candidate best (d ∷ disks), most_available-candidate d disks)
    ],
  )
    where
      best : Candidate F
      best = most_available (candidate d) (map candidate disks)
