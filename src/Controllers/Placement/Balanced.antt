-- ===== src/Controllers/Placement/Balanced.antt =====
-- What the strategy Balanced of controllers/placement_failure_controllers.go takes, if the scores of
-- the disks can be ordered, as those without a NaN can.
use kube_nas.Base.{Bool, false, ◌⊎◌, some, List, ◌∷◌, ◌≡◌, sym, ap, subst, ◌∙◌, map, All}
use kube_nas.Base.Float.{Float64}
use mathlib.Core.List.{Memᴰ}
use mathlib.Core.List.Memᴰ
use mathlib.Core.Option
use kube_nas.Api.Disk.{Disk}
use kube_nas.Api.Placement.{PlacementPolicy}
use kube_nas.Controllers.Placement.{
  DiskScore, Sort, score, weights, is_eligible, filter_eligible, select_balanced,
}
use kube_nas.Controllers.Placement.Laws.{eligible-All, member_eligible}
use kube_nas.Base.Order.{IsWeakOrderOn, IsWeakOrderOn-map, IsWeakOrderOn-some, All-map}
use kube_nas.Controllers.Placement.Sorting.{KeepsElements, SortsFirst, head-sort}

some_injective : {A : Type 0} (a b : A) → some a ≡ some b → a ≡ b
some_injective a b h = cc

module _ {F : Type 0} (fl : Float64 F) (policy : PlacementPolicy F) where
  abbrev pub score_of : Disk F → F
  score_of d = score fl (weights fl policy) d

  abbrev scored : Disk F → DiskScore F
  scored d = record { disk = d; score = score_of d }

  -- The order by score, the highest first.
  abbrev pub is_ahead : Disk F → Disk F → Bool
  is_ahead a b = fl.lt (score_of b) (score_of a)

module _ {F : Type 0} (fl : Float64 F) (sort : Sort (DiskScore F)) (keeps : KeepsElements sort)
    (sorts : SortsFirst sort) (policy : PlacementPolicy F) where
  -- No score is above that of the disk that is taken.
  pub select_balanced-first :
      (d w : Disk F) (disks : List (Disk F))
      → IsWeakOrderOn (is_ahead fl policy) (d ∷ disks)
      → select_balanced fl sort policy (d ∷ disks) ≡ some w
      → All (λ x. fl.lt (score_of fl policy w) (score_of fl policy x) ≡ false) (d ∷ disks)
  unfolding select_balanced
  select_balanced-first d w disks order h =
      let (s, e, m) =
        head-sort sort keeps (λ a b. fl.lt b.score a.score) (scored fl policy d)
          (map (scored fl policy) disks) in
      let (x, mx, ex) = Memᴰ.of_map (scored fl policy) (d ∷ disks) m in
      let first =
        sorts.first (λ a b. fl.lt b.score a.score) (map (scored fl policy) (d ∷ disks)) s
          (IsWeakOrderOn-map (scored fl policy) (λ a b. fl.lt b.score a.score) (d ∷ disks) order)
          e in
      let same : x ≡ w = some_injective x w (
        ap (λ (v : DiskScore F). some v.disk) ex
        ∙ sym (ap (Option.map (λ (v : DiskScore F). v.disk)) e)
        ∙ h) in
      All-map (scored fl policy) (λ y. fl.lt (score_of fl policy w) y.score ≡ false) (d ∷ disks)
        (subst
          (λ v.
            All (λ (y : DiskScore F). fl.lt v y.score ≡ false) (map (scored fl policy) (d ∷ disks)))
          (sym (ap (λ (v : DiskScore F). v.score) ex) ∙ ap (score_of fl policy) same) first)

  -- The same for what is taken of the eligible candidates.
  pub select_disk_balanced :
      (candidates : List (Disk F)) (d w : Disk F) (disks : List (Disk F))
      → IsWeakOrderOn (is_ahead fl policy) candidates
      → filter_eligible fl candidates ≡ d ∷ disks
      → select_balanced fl sort policy (d ∷ disks) ≡ some w
      → All
          (λ x.
            (is_eligible fl x ≡ false)
            ⊎ (fl.lt (score_of fl policy w) (score_of fl policy x) ≡ false))
          candidates
  select_disk_balanced candidates d w disks order e h =
      eligible-All fl (λ x. fl.lt (score_of fl policy w) (score_of fl policy x) ≡ false) candidates
        (subst (All (λ x. fl.lt (score_of fl policy w) (score_of fl policy x) ≡ false)) (sym e) (
          select_balanced-first d w disks
            (IsWeakOrderOn-some (is_ahead fl policy) candidates (d ∷ disks)
              (λ y m. (member_eligible fl candidates y (subst (Memᴰ y) (sym e) m)).0) order)
            h))
