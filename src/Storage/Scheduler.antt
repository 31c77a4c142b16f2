-- ===== src/Storage/Scheduler.antt =====
-- storage/scheduler/scheduler.go. `sort` is `sort.Slice`.
pub mod Laws
pub mod Selection
use kube_nas.Base.{
  ℕ, String, Bool, true, false, Option, none, some, List, [], ◌∷◌, not, if◌then◌else◌, ◌||◌, map,
}
use kube_nas.Base.Int.{ℤ, pos, ltb_ℤ, sub64}
use kube_nas.Base.Float.{Float64}
use kube_nas.Base.Outcome.{Result, ok, err, errorf}
use mathlib.Core.List.{head?}
use mathlib.Core.Option
use kube_nas.Controllers.Placement.{Sort}

-- `other` is any text that the strategies below do not have.
pub data Strategy : Type 0 where
  balanced least_used fill_first tiered other : Strategy

pub record Weights (F : Type 0) : Type 0 where
  pub free_space : F
  pub health : F
  pub io_load : F

pub record Candidate (F : Type 0) : Type 0 where
  pub name : String
  pub capacity_bytes : ℤ
  pub available_bytes : ℤ
  pub health_score : F
  pub io_load_score : F
  pub rotational : Bool
  pub eligible : Bool

pub record Score (F : Type 0) : Type 0 where
  pub disk : Candidate F
  pub value : F

pub record Engine (F : Type 0) : Type 0 where
  pub weights : Weights F

unfoldable pub new_engine : {F : Type 0} → Float64 F → Engine F
new_engine fl = record {
  weights = record {
    free_space = fl.literal 7 1;
    health = fl.literal 2 1;
    io_load = fl.literal 1 1;
  };
}

module _ {F : Type 0} where
  abbrev pub is_candidate : Candidate F → Bool
  is_candidate d = not (
      not d.eligible
      || not (ltb_ℤ (pos 0) d.capacity_bytes)
      || not (ltb_ℤ (pos 0) d.available_bytes))

  unfoldable pub filter_candidates : List (Candidate F) → List (Candidate F)
  filter_candidates [] = []
  filter_candidates (d ∷ disks) =
      let rest = filter_candidates disks in if is_candidate d then d ∷ rest else rest

  -- The loops over `disks[1:]`, with the best disk so far.
  unfoldable pub most_available : Candidate F → List (Candidate F) → Candidate F
  most_available best [] = best
  most_available best (d ∷ disks) =
      most_available (if ltb_ℤ best.available_bytes d.available_bytes then d else best) disks

  abbrev pub taken : Candidate F → ℤ
  taken d = sub64 d.capacity_bytes d.available_bytes

  unfoldable pub most_taken : Candidate F → List (Candidate F) → Candidate F
  most_taken best [] = best
  most_taken best (d ∷ disks) = most_taken (if ltb_ℤ (taken best) (taken d) then d else best) disks

  -- `fallback` is the disk that `selectLeastUsed` takes.
  unfoldable pub first_solid : Candidate F → List (Candidate F) → Candidate F
  first_solid fallback [] = fallback
  first_solid fallback (d ∷ disks) =
      let rest = first_solid fallback disks in if not d.rotational then d else rest

module _ {F : Type 0} (fl : Float64 F) (sort : Sort (Score F)) where
  unfoldable pub value_of : Weights F → Candidate F → F
  value_of w d =
      fl.add
        (fl.add
          (fl.mul (fl.div (fl.of_int d.available_bytes) (fl.of_int d.capacity_bytes)) w.free_space)
          (fl.mul d.health_score w.health))
        (fl.mul d.io_load_score w.io_load)

  -- `none` is the panic of `scored[0]` on an empty slice.
  unfoldable pub pick_balanced : Engine F → List (Candidate F) → Option (Candidate F)
  pick_balanced e disks =
      let scored = map (λ d. record { disk = d; value = value_of e.weights d }) disks in
      Option.map (λ (s : Score F). s.disk) (head? (sort (λ a b. fl.lt b.value a.value) scored))

  -- The switch over the strategy, at the eligible disks `d ∷ rest`.
  unfoldable pub pick :
      Engine F → Strategy → Candidate F → List (Candidate F) → Option (Candidate F)
  pick e strategy d rest = elim strategy [
    | Strategy.least_used ↦ some (most_available d rest)
    | Strategy.fill_first ↦ some (most_taken d rest)
    | Strategy.tiered ↦ some (first_solid (most_available d rest) (d ∷ rest))
    | _ ↦ pick_balanced e (d ∷ rest)
  ]

  -- `Select`, in which `none` is a panic.
  unfoldable pub select_candidate :
      Engine F → Strategy → List (Candidate F) → Result (Option (Candidate F))
  select_candidate e strategy disks = elim (filter_candidates disks) [
    | [] ↦ err (errorf "no eligible disks")
    | d ∷ rest ↦ ok (pick e strategy d rest)
  ]
