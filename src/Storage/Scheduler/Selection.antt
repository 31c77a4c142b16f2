-- ===== src/Storage/Scheduler/Selection.antt =====
-- What `Select` of storage/scheduler/scheduler.go promises.
use kube_nas.Base.{
  true, false, some, List, [], ◌∷◌, ◌≡◌, refl, sym, ap, subst, ◌∙◌, ◌⊎◌, All, arith, inl, inr,
  Bool-cases, map,
}
use kube_nas.Base.Int.{ltb_ℤ}
use kube_nas.Base.Float.{Float64}
use mathlib.Core.Option
use kube_nas.Base.Outcome.{ok, err, errorf}
use mathlib.Core.List.{Memᴰ}
use mathlib.Core.List.Memᴰ
use kube_nas.Controllers.Placement.{Sort}
use kube_nas.Controllers.Placement.Sorting.{KeepsElements, head-sort}
use kube_nas.Storage.Scheduler.{
  Candidate, Score, Engine, Strategy, is_candidate, filter_candidates, select_candidate,
  pick_balanced, pick, value_of, most_available, most_taken, first_solid, taken,
}

module _ {F : Type 0} (fl : Float64 F) (sort : Sort (Score F)) (keeps : KeepsElements sort) where
  -- A second element put in.
  skip :
      {z b d : Candidate F} {disks : List (Candidate F)}
      → Memᴰ z (b ∷ disks)
      → Memᴰ z (b ∷ d ∷ disks)
  skip m = elim (Memᴰ.cases_cons m) [ inl e ↦ Memᴰ.head e | inr n ↦ Memᴰ.tail (Memᴰ.tail n) ]

  filter_candidates_cases :
      (x : Candidate F) (disks : List (Candidate F))
      → ((is_candidate x ≡ true) × (filter_candidates (x ∷ disks) ≡ x ∷ filter_candidates disks))
        ⊎ ((is_candidate x ≡ false) × (filter_candidates (x ∷ disks) ≡ filter_candidates disks))
  unfolding filter_candidates
  filter_candidates_cases x disks = elim (Bool-cases (is_candidate x)) [
    | inl good ↦ inl (good, ground arith)
    | inr bad ↦ inr (bad, ground arith)
  ]

  member_candidate :
      (disks : List (Candidate F)) (d : Candidate F)
      → Memᴰ d (filter_candidates disks)
      → Memᴰ d disks × (is_candidate d ≡ true)
  unfolding filter_candidates
  member_candidate [] d m = absurd (Memᴰ.not-nil m)
  member_candidate (x ∷ disks) d m = elim (filter_candidates_cases x disks) [
    | inl (good, e) ↦ elim (Memᴰ.cases_cons (subst (Memᴰ d) e m)) [
      | inl same ↦ (Memᴰ.head same, ap is_candidate same ∙ good)
      | inr later ↦ let (m', y) = member_candidate disks d later in (Memᴰ.tail m', y)
    ]
    | inr (bad, e) ↦
        let (m', y) = member_candidate disks d (subst (Memᴰ d) e m) in (Memᴰ.tail m', y)
  ]

  no_candidate :
      (disks : List (Candidate F))
      → filter_candidates disks ≡ []
      → All (λ d. is_candidate d ≡ false) disks
  no_candidate [] e = tt
  no_candidate (x ∷ disks) e = elim (filter_candidates_cases x disks) [
    | inl (good, e') ↦ absurd (ground (arith, e, e'))
    | inr (bad, e') ↦ (bad, no_candidate disks (sym e' ∙ e))
  ]

  most_available-Memᴰ :
      (b : Candidate F) (disks : List (Candidate F)) → Memᴰ (most_available b disks) (b ∷ disks)
  unfolding most_available
  most_available-Memᴰ b [] = Memᴰ.head refl
  most_available-Memᴰ b (d ∷ disks) =
      elim (Bool-cases (ltb_ℤ b.available_bytes d.available_bytes)) [
        | inl less ↦ rw less (Memᴰ.tail (most_available-Memᴰ d disks))
        | inr more ↦ rw more (skip (most_available-Memᴰ b disks))
      ]

  most_taken-Memᴰ :
      (b : Candidate F) (disks : List (Candidate F)) → Memᴰ (most_taken b disks) (b ∷ disks)
  unfolding most_taken
  most_taken-Memᴰ b [] = Memᴰ.head refl
  most_taken-Memᴰ b (d ∷ disks) = elim (Bool-cases (ltb_ℤ (taken b) (taken d))) [
    | inl less ↦ rw less (Memᴰ.tail (most_taken-Memᴰ d disks))
    | inr more ↦ rw more (skip (most_taken-Memᴰ b disks))
  ]

  first_solid-Memᴰ :
      (b : Candidate F) (disks : List (Candidate F)) → Memᴰ (first_solid b disks) (b ∷ disks)
  unfolding first_solid
  first_solid-Memᴰ b [] = Memᴰ.head refl
  first_solid-Memᴰ b (d ∷ disks) = elim (Bool-cases d.rotational) [
    | inl spins ↦ rw spins (skip (first_solid-Memᴰ b disks))
    | inr solid ↦ rw solid (Memᴰ.tail (Memᴰ.head refl))
  ]

  pick_balanced-Memᴰ :
      (engine : Engine F) (d : Candidate F) (rest : List (Candidate F))
      → (w : Candidate F) × (pick_balanced fl sort engine (d ∷ rest) ≡ some w) × Memᴰ w (d ∷ rest)
  unfolding pick_balanced
  pick_balanced-Memᴰ engine d rest =
      let scored : Candidate F → Score F =
        λ x. record { disk = x; value = value_of fl sort engine.weights x } in
      let (w, e, m) =
        head-sort sort keeps (λ a b. fl.lt b.value a.value) (scored d) (map scored rest) in
      let (x, m', e') = Memᴰ.of_map scored (d ∷ rest) m in
      (
        x,
        ap (Option.map (λ (s : Score F). s.disk)) e ∙ ap (λ (s : Score F). some s.disk) (sym e'),
        m',
      )

  pick-Memᴰ :
      (engine : Engine F) (strategy : Strategy) (d : Candidate F) (rest : List (Candidate F))
      → (w : Candidate F) × (pick fl sort engine strategy d rest ≡ some w) × Memᴰ w (d ∷ rest)
  unfolding pick pick_balanced
  pick-Memᴰ engine Strategy.least_used d rest = (_, refl, most_available-Memᴰ d rest)
  pick-Memᴰ engine Strategy.fill_first d rest = (_, refl, most_taken-Memᴰ d rest)
  pick-Memᴰ engine Strategy.tiered d rest = (
    _,
    refl,
    (elim (Memᴰ.cases_cons (first_solid-Memᴰ (most_available d rest) (d ∷ rest))) [
      | inl e ↦ subst (λ w. Memᴰ w (d ∷ rest)) (sym e) (most_available-Memᴰ d rest)
      | inr m ↦ m
    ]),
  )
  pick-Memᴰ engine Strategy.balanced d rest = pick_balanced-Memᴰ engine d rest
  pick-Memᴰ engine Strategy.other d rest = pick_balanced-Memᴰ engine d rest

  -- `Select` gives the error exactly when no disk is eligible with a capacity and free bytes above
  -- zero; else it gives, for every strategy, one of the disks that are. The sort is assumed to keep
  -- the elements of what it sorts.
  pub select_candidate_lem :
      (engine : Engine F) (strategy : Strategy) (disks : List (Candidate F))
      → ((select_candidate fl sort engine strategy disks ≡ err (errorf "no eligible disks"))
          × All (λ d. is_candidate d ≡ false) disks)
        ⊎ ((w : Candidate F) × (select_candidate fl sort engine strategy disks ≡ ok (some w))
            × Memᴰ w disks
            × (is_candidate w ≡ true))
  unfolding select_candidate
  select_candidate_lem engine strategy disks = split (filter_candidates disks) refl
    where
      split :
          (eligible : List (Candidate F))
          → filter_candidates disks ≡ eligible
          → ((select_candidate fl sort engine strategy disks ≡ err (errorf "no eligible disks"))
              × All (λ d. is_candidate d ≡ false) disks)
            ⊎ ((w : Candidate F) × (select_candidate fl sort engine strategy disks ≡ ok (some w))
                × Memᴰ w disks
                × (is_candidate w ≡ true))
      split [] e = inl (ground arith, no_candidate disks e)
      split (d ∷ rest) e =
          let (w, e', m) = pick-Memᴰ engine strategy d rest in
          let (m', good) = member_candidate disks w (subst (Memᴰ w) (sym e) m) in
          inr (w, ground arith, m', good)
