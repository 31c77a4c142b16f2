-- ===== src/Controllers/Placement/Best.antt =====
-- The two loops of the PlacementScheduler that keep the best disk so far.
use kube_nas.Base.{
  Option, none, some, List, [], ◌∷◌, ◌≡◌, refl, arith, ◌⊎◌, inl, inr, Bool-cases, All, true, false,
}
use kube_nas.Base.Int.{ℤ, ltb_ℤ, ◌≤ℤ◌}
use mathlib.Core.List.{Memᴰ}
use mathlib.Core.List.Memᴰ
use kube_nas.Api.Disk.{Disk}
use kube_nas.Controllers.Placement.{
  used_bytes, least_used_from, select_least_used, fill_first_from, select_fill_first,
  first_solid_state,
}

module _ {F : Type 0} where
  -- One of the disks, and none has more by the measure `key`.
  pub record IsBest (key : Disk F → ℤ) (disks : List (Disk F)) (d : Disk F) : Type 0 where
    pub member : Memᴰ d disks
    pub most : All (λ x. key x ≤ℤ key d) disks

  keep_new :
      (key : Disk F → ℤ) (b d w : Disk F) (disks : List (Disk F))
      → key b ≤ℤ key d
      → IsBest key (d ∷ disks) w
      → IsBest key (b ∷ d ∷ disks) w
  keep_new key b d w disks h best = record {
    member = Memᴰ.tail best.member;
    most = (omega (arith, best.most.0), best.most);
  }

  keep_old :
      (key : Disk F → ℤ) (b d w : Disk F) (disks : List (Disk F))
      → key d ≤ℤ key b
      → IsBest key (b ∷ disks) w
      → IsBest key (b ∷ d ∷ disks) w
  keep_old key b d w disks h best = record {
    member = elim (Memᴰ.cases_cons best.member) [
      | inl e ↦ Memᴰ.head e
      | inr m ↦ Memᴰ.tail (Memᴰ.tail m)
    ];
    most = (best.most.0, (omega (arith, best.most.0), best.most.1));
  }

  -- What a loop with a best disk so far returns.
  abbrev pub Returns : (Disk F → ℤ) → Option (Disk F) → List (Disk F) → Type 0
  Returns key result disks = (w : Disk F) × (result ≡ some w) × IsBest key disks w

  only : (key : Disk F → ℤ) (b : Disk F) → Returns key (some b) (b ∷ [])
  only key b = (b, refl, record { member = Memᴰ.head refl; most = (omega arith, tt) })

  least_used_from_lem :
      (b : Disk F) (disks : List (Disk F))
      → Returns (λ d. d.status.available_bytes) (least_used_from (some b) disks) (b ∷ disks)
  unfolding least_used_from
  least_used_from_lem b [] = only (λ d. d.status.available_bytes) b
  least_used_from_lem b (d ∷ disks) =
      elim (Bool-cases (ltb_ℤ b.status.available_bytes d.status.available_bytes)) [
        | inl less ↦
            let (w, e, best) = least_used_from_lem d disks in
            rw less (w, e, keep_new _ b d w disks (ground arith) best)
        | inr more ↦
            let (w, e, best) = least_used_from_lem b disks in
            rw more (w, e, keep_old _ b d w disks (ground arith) best)
      ]

  pub select_least_used_lem :
      (d : Disk F) (disks : List (Disk F))
      → Returns (λ d. d.status.available_bytes) (select_least_used (d ∷ disks)) (d ∷ disks)
  unfolding select_least_used least_used_from
  select_least_used_lem d disks = least_used_from_lem d disks

  fill_first_from_lem :
      (b : Disk F) (disks : List (Disk F))
      → Returns used_bytes (fill_first_from (some b) disks) (b ∷ disks)
  unfolding fill_first_from
  fill_first_from_lem b [] = only used_bytes b
  fill_first_from_lem b (d ∷ disks) = elim (Bool-cases (ltb_ℤ (used_bytes b) (used_bytes d))) [
    | inl less ↦
        let (w, e, best) = fill_first_from_lem d disks in
        rw less (w, e, keep_new used_bytes b d w disks (ground arith) best)
    | inr more ↦
        let (w, e, best) = fill_first_from_lem b disks in
        rw more (w, e, keep_old used_bytes b d w disks (ground arith) best)
  ]

  pub select_fill_first_lem :
      (d : Disk F) (disks : List (Disk F))
      → Returns used_bytes (select_fill_first (d ∷ disks)) (d ∷ disks)
  unfolding select_fill_first fill_first_from
  select_fill_first_lem d disks = fill_first_from_lem d disks

  -- The scan for a disk that does not rotate finds one, or there is none.
  pub first_solid_state_lem :
      (disks : List (Disk F))
      → ((first_solid_state disks ≡ none) × All (λ d. d.status.rotational ≡ true) disks)
        ⊎ ((w : Disk F) × (first_solid_state disks ≡ some w)
            × Memᴰ w disks
            × (w.status.rotational ≡ false))
  unfolding first_solid_state
  first_solid_state_lem [] = inl (refl, tt)
  first_solid_state_lem (d ∷ disks) = elim (Bool-cases d.status.rotational) [
    | inr solid ↦ inr (d, ground arith, Memᴰ.head refl, solid)
    | inl spins ↦ elim (first_solid_state_lem disks) [
      | inl (e, all) ↦ inl (ground arith, (spins, all))
      | inr (w, e, m, solid) ↦ inr (w, ground arith, Memᴰ.tail m, solid)
    ]
  ]
