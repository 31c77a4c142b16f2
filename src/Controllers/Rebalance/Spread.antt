-- ===== src/Controllers/Rebalance/Spread.antt =====
-- What isImbalanced of controllers/rebalance_controller.go compares: the least and the greatest of the
-- utilizations, if they can be ordered, as those without a NaN can.
use kube_nas.Base.{
  ◌<◌, ◌≤◌, Bool, if◌then◌else◌, true, false, List, [], ◌∷◌, ◌≡◌, refl, sym, ap, subst, ltb, ◌⊎◌,
  inl, inr, Bool-cases, All, length, arith,
}
use kube_nas.Base.Int.{ℤ, pos, ltb_ℤ, ◌≤ℤ◌}
use kube_nas.Base.Float.{Float64}
use kube_nas.Base.Order.{IsWeakOrderOn}
use mathlib.Core.List.{Memᴰ}
use kube_nas.Api.Disk.{Disk}
use kube_nas.Controllers.Rebalance.{utilizations, extremes, spread_exceeds, is_imbalanced}

-- Every element of the first list is one of the second.
abbrev pub AllIn : {A : Type 0} → List A → List A → Type 0
AllIn [] all = Unit
AllIn (x ∷ xs) all = Memᴰ x all × AllIn xs all

AllIn-behind : {A : Type 0} (xs all : List A) (a : A) → AllIn xs all → AllIn xs (a ∷ all)
AllIn-behind [] all a h = tt
AllIn-behind (x ∷ xs) all a (h, hs) = (Memᴰ.tail h, AllIn-behind xs all a hs)

AllIn-itself : {A : Type 0} (xs : List A) → AllIn xs xs
AllIn-itself [] = tt
AllIn-itself (x ∷ xs) = (Memᴰ.head refl, AllIn-behind xs xs x (AllIn-itself xs))

module _ {F : Type 0} (fl : Float64 F) where
  -- Before none of the elements, and one of all.
  abbrev pub IsLeast : F → List F → List F → Type 0
  IsLeast l us all = Memᴰ l all × All (λ u. fl.lt u l ≡ false) us

  abbrev pub IsGreatest : F → List F → List F → Type 0
  IsGreatest h us all = Memᴰ h all × All (λ u. fl.lt h u ≡ false) us

  not_below_itself :
      (all : List F) (a : F) → IsWeakOrderOn fl.lt all → Memᴰ a all → fl.lt a a ≡ false
  not_below_itself all a order m = elim (Bool-cases (fl.lt a a)) [
    | inl e ↦ order.asymmetric a a m m e
    | inr e ↦ e
  ]

  extremes-IsLeast :
      (us : List F) (low high : F) (all : List F)
      → IsWeakOrderOn fl.lt all
      → Memᴰ low all
      → AllIn us all
      → IsLeast (extremes fl low high us).0 (low ∷ us) all
  unfolding extremes
  extremes-IsLeast [] low high all order m h = (m, (not_below_itself all low order m, tt))
  extremes-IsLeast (u ∷ us) low high all order m (mu, hs) =
      let high' = if fl.lt high u then u else high in
      let next : Bool → F = λ b. (extremes fl (if b then u else low) high' us).0 in
      let Goal : F → Type 0 = λ l. IsLeast l (low ∷ u ∷ us) all in
      elim (Bool-cases (fl.lt u low)) [
        | inl less ↦
            let (ml, (here, later)) = extremes-IsLeast us u high' all order mu hs in
            subst Goal (sym (ap next less)) (
              ml,
              (
                order.negative low u (next true) m mu ml (order.asymmetric u low mu m less) here,
                (here, later),
              ),
            )
        | inr more ↦
            let (ml, (here, later)) = extremes-IsLeast us low high' all order m hs in
            subst Goal (sym (ap next more))
              (ml, (here, (order.negative u low (next false) mu m ml more here, later)))
      ]

  extremes-IsGreatest :
      (us : List F) (low high : F) (all : List F)
      → IsWeakOrderOn fl.lt all
      → Memᴰ high all
      → AllIn us all
      → IsGreatest (extremes fl low high us).1 (high ∷ us) all
  unfolding extremes
  extremes-IsGreatest [] low high all order m h = (m, (not_below_itself all high order m, tt))
  extremes-IsGreatest (u ∷ us) low high all order m (mu, hs) =
      let low' = if fl.lt u low then u else low in
      let next : Bool → F = λ b. (extremes fl low' (if b then u else high) us).1 in
      let Goal : F → Type 0 = λ g. IsGreatest g (high ∷ u ∷ us) all in
      elim (Bool-cases (fl.lt high u)) [
        | inl more ↦
            let (mg, (here, later)) = extremes-IsGreatest us low' u all order mu hs in
            subst Goal (sym (ap next more)) (
              mg,
              (
                order.negative (next true) u high mg mu m here (order.asymmetric high u m mu more),
                (here, later),
              ),
            )
        | inr less ↦
            let (mg, (here, later)) = extremes-IsGreatest us low' high all order m hs in
            subst Goal (sym (ap next less))
              (mg, (here, (order.negative (next false) high u mg m mu here less, later)))
      ]

  -- The utilizations are compared by the distance of the greatest from the least.
  abbrev pub ComparesExtremes : List F → ℤ → Bool → Type 0
  ComparesExtremes us threshold result =
      (low : F) × (high : F) × IsLeast low us us
      × IsGreatest high us us
      × (result ≡ fl.lt (fl.of_int threshold) (fl.abs (fl.sub high low)))

  spread_exceeds_lem :
      (us : List F) (threshold : ℤ)
      → IsWeakOrderOn fl.lt us
      → ((length us < 2) × (spread_exceeds fl us threshold ≡ false))
        ⊎ ComparesExtremes us threshold (spread_exceeds fl us threshold)
  unfolding spread_exceeds
  spread_exceeds_lem [] threshold order = inl (omega arith, refl)
  spread_exceeds_lem (u ∷ []) threshold order = inl (omega arith, refl)
  spread_exceeds_lem (u ∷ v ∷ us) threshold order =
      let inside = AllIn-behind (v ∷ us) (v ∷ us) u (AllIn-itself (v ∷ us)) in
      inr (
        (extremes fl u u (v ∷ us)).0,
        (extremes fl u u (v ∷ us)).1,
        extremes-IsLeast (v ∷ us) u u (u ∷ v ∷ us) order (Memᴰ.head refl) inside,
        extremes-IsGreatest (v ∷ us) u u (u ∷ v ∷ us) order (Memᴰ.head refl) inside,
        refl,
      )

  -- The disks of a pool are not imbalanced if there are fewer than two of them, or fewer than two with
  -- a capacity, or the threshold is not positive. Else they are imbalanced exactly if the threshold is
  -- below the distance of the greatest utilization from the least. The utilizations are assumed to be
  -- ordered, as they are without a NaN.
  pub is_imbalanced_lem :
      (disks : List (Disk F)) (threshold : ℤ)
      → IsWeakOrderOn fl.lt (utilizations fl disks)
      → (((length disks < 2) ⊎ ((threshold ≤ℤ pos 0) ⊎ (length (utilizations fl disks) < 2)))
          × (is_imbalanced fl disks threshold ≡ false))
        ⊎ ((2 ≤ length disks)
            × (pos 1 ≤ℤ threshold)
            × ComparesExtremes (utilizations fl disks) threshold (is_imbalanced fl disks threshold))
  unfolding is_imbalanced
  is_imbalanced_lem disks threshold order = elim (Bool-cases (ltb (length disks) 2)) [
    | inl few ↦ inl (inl (ground (arith, few)), rw few refl)
    | inr enough ↦ elim (Bool-cases (ltb_ℤ (pos 0) threshold)) [
      | inr off ↦ inl (inr (inl (ground (arith, off))), rw (enough, off) refl)
      | inl on ↦ elim (spread_exceeds_lem (utilizations fl disks) threshold order) [
        | inl (few, e) ↦ inl (inr (inr few), rw (enough, on) e)
        | inr (low, high, least, greatest, e) ↦ inr (
          ground (arith, enough),
          ground (arith, on),
          (low, high, least, greatest, rw (enough, on) e),
        )
      ]
    ]
  ]
