-- ===== src/Controllers/Placement/Laws.antt =====
-- What SelectDisk of controllers/placement_failure_controllers.go promises for each strategy.
use kube_nas.Base.{
  true, false, Option, some, List, [], ◌∷◌, ◌≡◌, refl, sym, ap, subst, ◌∙◌, arith, ◌⊎◌, inl, inr,
  Bool-cases, All, map,
}
use kube_nas.Base.Int.{ℤ, ◌≤ℤ◌}
use kube_nas.Base.Float.{Float64}
use kube_nas.Base.Outcome.{ok, err, errorf}
use mathlib.Core.List.{Memᴰ}
use mathlib.Core.List.Memᴰ
use mathlib.Core.Option
use kube_nas.Api.Disk.{Disk}
use kube_nas.Api.Placement.{PlacementPolicy, PlacementStrategy}
use kube_nas.Controllers.Placement.{
  DiskScore, Sort, score, weights, is_eligible, filter_eligible, select, select_disk,
  select_balanced, select_tiered, used_bytes,
}
use kube_nas.Controllers.Placement.Best.{
  IsBest, select_least_used_lem, select_fill_first_lem, first_solid_state_lem,
}
use kube_nas.Controllers.Placement.Sorting.{KeepsElements, head-sort}

module _ {F : Type 0} (fl : Float64 F) where
  filter_eligible_cases :
      (x : Disk F) (disks : List (Disk F))
      → ((is_eligible fl x ≡ true)
          × (filter_eligible fl (x ∷ disks) ≡ x ∷ filter_eligible fl disks))
        ⊎ ((is_eligible fl x ≡ false) × (filter_eligible fl (x ∷ disks) ≡ filter_eligible fl disks))
  unfolding filter_eligible
  filter_eligible_cases x disks = elim (Bool-cases (is_eligible fl x)) [
    | inl good ↦ inl (good, ground arith)
    | inr bad ↦ inr (bad, ground arith)
  ]

  pub member_eligible :
      (disks : List (Disk F)) (d : Disk F)
      → Memᴰ d (filter_eligible fl disks)
      → Memᴰ d disks × (is_eligible fl d ≡ true)
  unfolding filter_eligible
  member_eligible [] d m = absurd (Memᴰ.not-nil m)
  member_eligible (x ∷ disks) d m = elim (filter_eligible_cases x disks) [
    | inl (good, e) ↦ elim (Memᴰ.cases_cons (subst (Memᴰ d) e m)) [
      | inl same ↦ (Memᴰ.head same, ap (is_eligible fl) same ∙ good)
      | inr later ↦ let (m', y) = member_eligible disks d later in (Memᴰ.tail m', y)
    ]
    | inr (bad, e) ↦ let (m', y) = member_eligible disks d (subst (Memᴰ d) e m) in (Memᴰ.tail m', y)
  ]

  none_eligible :
      (disks : List (Disk F))
      → filter_eligible fl disks ≡ []
      → All (λ d. is_eligible fl d ≡ false) disks
  none_eligible [] e = tt
  none_eligible (x ∷ disks) e = elim (filter_eligible_cases x disks) [
    | inl (good, e') ↦ absurd (ground (arith, e, e'))
    | inr (bad, e') ↦ (bad, none_eligible disks (sym e' ∙ e))
  ]

  -- What holds of the eligible disks, of each candidate that is eligible.
  pub eligible-All :
      (P : Disk F → Type 0) (disks : List (Disk F))
      → All P (filter_eligible fl disks)
      → All (λ d. (is_eligible fl d ≡ false) ⊎ P d) disks
  eligible-All P [] all = tt
  eligible-All P (x ∷ disks) all = elim (filter_eligible_cases x disks) [
    | inl (good, e) ↦
        let (here, later) = subst (All P) e all in (inr here, eligible-All P disks later)
    | inr (bad, e) ↦ (inl bad, eligible-All P disks (subst (All P) e all))
  ]

  module _ (sort : Sort (DiskScore F)) (keeps : KeepsElements sort)
      (policy : PlacementPolicy F) where
    abbrev Picks : Option (Disk F) → List (Disk F) → Type 0
    Picks result disks = (w : Disk F) × (result ≡ some w) × Memᴰ w disks

    select_balanced-Picks :
        (d : Disk F) (disks : List (Disk F))
        → Picks (select_balanced fl sort policy (d ∷ disks)) (d ∷ disks)
    unfolding select_balanced
    select_balanced-Picks d disks =
        let scored : Disk F → DiskScore F =
          λ x. record { disk = x; score = score fl (weights fl policy) x } in
        let (w, e, m) =
          head-sort sort keeps (λ a b. fl.lt b.score a.score) (scored d) (map scored disks) in
        let (x, m', e') = Memᴰ.of_map scored (d ∷ disks) m in
        (
          x,
          ap (Option.map (λ (s : DiskScore F). s.disk)) e
              ∙ ap (λ (s : DiskScore F). some s.disk) (sym e'),
          m',
        )

    select-Picks :
        (d : Disk F) (disks : List (Disk F)) → Picks (select fl sort policy (d ∷ disks)) (d ∷ disks)
    unfolding select select_tiered
    select-Picks d disks = pick policy.spec.strategy refl
      where
        pick :
            (s : PlacementStrategy)
            → policy.spec.strategy ≡ s
            → Picks (select fl sort policy (d ∷ disks)) (d ∷ disks)
        pick PlacementStrategy.balanced e =
            let (w, e', m) = select_balanced-Picks d disks in (w, ground (arith, e'), m)
        pick PlacementStrategy.least_used e =
            let (w, e', best) = select_least_used_lem d disks in
            (w, ground (arith, e'), best.member)
        pick PlacementStrategy.fill_first e =
            let (w, e', best) = select_fill_first_lem d disks in
            (w, ground (arith, e'), best.member)
        pick PlacementStrategy.tiered e = elim (first_solid_state_lem (d ∷ disks)) [
          | inl (e', all) ↦
              let (w, e'', best) = select_least_used_lem d disks in
              (w, ground (arith, e', e''), best.member)
          | inr (w, e', m, solid) ↦ (w, ground (arith, e'), m)
        ]
        pick PlacementStrategy.other e =
            let (w, e', m) = select_balanced-Picks d disks in (w, ground (arith, e'), m)

    -- For every strategy and any candidates: either the result is an error, and then no candidate
    -- meets the constraints (Ready, a capacity that is not zero, at least five per cent free), or the
    -- result is a disk, one of the candidates, that meets them. With no eligible disk it is the error.
    -- The sort is assumed to keep the elements of what it sorts.
    pub select_disk_lem :
        (candidates : List (Disk F))
        → ((select_disk fl sort policy candidates
              ≡ err (errorf "no eligible disks meet policy constraints"))
            × All (λ d. is_eligible fl d ≡ false) candidates)
          ⊎ ((w : Disk F) × (select_disk fl sort policy candidates ≡ ok (some w))
              × Memᴰ w candidates
              × (is_eligible fl w ≡ true))
    unfolding select_disk
    select_disk_lem candidates = split (filter_eligible fl candidates) refl
      where
        split :
            (eligible : List (Disk F))
            → filter_eligible fl candidates ≡ eligible
            → ((select_disk fl sort policy candidates
                  ≡ err (errorf "no eligible disks meet policy constraints"))
                × All (λ d. is_eligible fl d ≡ false) candidates)
              ⊎ ((w : Disk F) × (select_disk fl sort policy candidates ≡ ok (some w))
                  × Memᴰ w candidates
                  × (is_eligible fl w ≡ true))
        split [] e = inl (ground (arith, e), none_eligible candidates e)
        split (d ∷ disks) e =
            let (w, e', m) = select-Picks d disks in
            let (m', good) = member_eligible candidates w (subst (Memᴰ w) (sym e) m) in
            inr (w, ground (arith, e, e'), m', good)

    pub from_eligible :
        (candidates : List (Disk F)) (w : Disk F)
        → select_disk fl sort policy candidates ≡ ok (some w)
        → (d : Disk F) × (disks : List (Disk F)) × (filter_eligible fl candidates ≡ d ∷ disks)
          × (select fl sort policy (d ∷ disks) ≡ some w)
    unfolding select_disk
    from_eligible candidates w h = split (filter_eligible fl candidates) refl
      where
        split :
            (eligible : List (Disk F))
            → filter_eligible fl candidates ≡ eligible
            → (d : Disk F) × (disks : List (Disk F)) × (filter_eligible fl candidates ≡ d ∷ disks)
              × (select fl sort policy (d ∷ disks) ≡ some w)
        split [] e = absurd (ground (arith, h, e))
        split (d ∷ disks) e = (d, disks, e, ground (arith, h, e))

    best_of_eligible :
        (key : Disk F → ℤ) (candidates : List (Disk F)) (d w w' : Disk F) (disks : List (Disk F))
        → filter_eligible fl candidates ≡ d ∷ disks
        → some w ≡ some w'
        → IsBest key (d ∷ disks) w'
        → All (λ x. (is_eligible fl x ≡ false) ⊎ (key x ≤ℤ key w)) candidates
    best_of_eligible key candidates d w w' disks e same best =
        eligible-All (λ x. key x ≤ℤ key w) candidates
          (subst (All (λ x. key x ≤ℤ key w)) (sym e)
            (subst (λ v. All (λ x. key x ≤ℤ key v) (d ∷ disks)) (ground (arith, same)) best.most))

    -- Under LeastUsed, no eligible candidate has more available bytes than the disk that is selected.
    pub select_disk_least_used :
        (candidates : List (Disk F)) (w : Disk F)
        → policy.spec.strategy ≡ PlacementStrategy.least_used
        → select_disk fl sort policy candidates ≡ ok (some w)
        → All
            (λ x.
              (is_eligible fl x ≡ false) ⊎ (x.status.available_bytes ≤ℤ w.status.available_bytes))
            candidates
    unfolding select
    select_disk_least_used candidates w strategy h =
        let (d, disks, e, e') = from_eligible candidates w h in
        let (w', e'', best) = select_least_used_lem d disks in
        best_of_eligible (λ x. x.status.available_bytes) candidates d w w' disks e (ground arith)
          best

    -- Under FillFirst, no eligible candidate has more used bytes than the disk that is selected.
    pub select_disk_fill_first :
        (candidates : List (Disk F)) (w : Disk F)
        → policy.spec.strategy ≡ PlacementStrategy.fill_first
        → select_disk fl sort policy candidates ≡ ok (some w)
        → All (λ x. (is_eligible fl x ≡ false) ⊎ (used_bytes x ≤ℤ used_bytes w)) candidates
    unfolding select
    select_disk_fill_first candidates w strategy h =
        let (d, disks, e, e') = from_eligible candidates w h in
        let (w', e'', best) = select_fill_first_lem d disks in
        best_of_eligible used_bytes candidates d w w' disks e (ground arith) best

    -- Under Tiered, the disk that is selected does not rotate, or every eligible candidate rotates and
    -- none has more available bytes.
    pub select_disk_tiered :
        (candidates : List (Disk F)) (w : Disk F)
        → policy.spec.strategy ≡ PlacementStrategy.tiered
        → select_disk fl sort policy candidates ≡ ok (some w)
        → (w.status.rotational ≡ false)
          ⊎ All (λ x. (is_eligible fl x ≡ false) ⊎ (x.status.rotational ≡ true)) candidates
            × All
                (λ x.
                  (is_eligible fl x ≡ false)
                  ⊎ (x.status.available_bytes ≤ℤ w.status.available_bytes))
                candidates
    unfolding select select_tiered
    select_disk_tiered candidates w strategy h =
        let (d, disks, e, e') = from_eligible candidates w h in
        elim (first_solid_state_lem (d ∷ disks)) [
          | inr (w', e'', m, solid) ↦ inl (ground arith)
          | inl (e'', spin) ↦
              let (w', e₃, best) = select_least_used_lem d disks in
              inr (
                eligible-All (λ x. x.status.rotational ≡ true) candidates
                    (subst (All (λ x. x.status.rotational ≡ true)) (sym e) spin),
                best_of_eligible (λ x. x.status.available_bytes) candidates d w w' disks e
                    (ground arith) best,
              )
        ]
