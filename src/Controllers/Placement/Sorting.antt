-- ===== src/Controllers/Placement/Sorting.antt =====
-- What `sort.Slice` of the Go library gives: the elements of the slice, as many as there are, and first
-- one before which no other is, if the test orders the elements.
use kube_nas.Base.{
  ℕ, suc, Bool, false, All, some, List, [], ◌∷◌, ◌≡◌, refl, sym, ap, subst, length, arith,
}
use mathlib.Core.List.{Memᴰ, head?}
use kube_nas.Base.Order.{IsWeakOrderOn}
use kube_nas.Controllers.Placement.{Sort}

pub record KeepsElements {A : Type 0} (sort : Sort A) : Type 0 where
  pub members : (less : A → A → Bool) (xs : List A) (x : A) → Memᴰ x (sort less xs) → Memᴰ x xs
  pub same_length : (less : A → A → Bool) (xs : List A) → length (sort less xs) ≡ length xs

module _ {A : Type 0} where
  head_of : (ys : List A) (n : ℕ) → length ys ≡ suc n → (w : A) × (rest : List A) × (ys ≡ w ∷ rest)
  head_of [] n h = absurd (omega (arith, h))
  head_of (y ∷ ys) n h = (y, ys, refl)

  pub head-sort :
      (sort : Sort A)
      → KeepsElements sort
      → (less : A → A → Bool) (x : A) (xs : List A)
      → (w : A) × (head? (sort less (x ∷ xs)) ≡ some w) × Memᴰ w (x ∷ xs)
  head-sort sort keeps less x xs =
      let (w, rest, e) =
        head_of (sort less (x ∷ xs)) (length xs) (keeps.same_length less (x ∷ xs)) in
      (w, ap head? e, keeps.members less (x ∷ xs) w (subst (Memᴰ w) (sym e) (Memᴰ.head refl)))

pub record SortsFirst {A : Type 0} (sort : Sort A) : Type 0 where
  pub first :
      (less : A → A → Bool) (xs : List A) (w : A)
      → IsWeakOrderOn less xs
      → head? (sort less xs) ≡ some w
      → All (λ y. less y w ≡ false) xs
