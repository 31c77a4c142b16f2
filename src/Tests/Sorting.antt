-- ===== src/Tests/Sorting.antt =====
-- Insertion sort, as one that the Go library could have, and that it keeps the elements.
use kube_nas.Base.{
  suc, Bool, true, false, some, All, List-cases, sym, List, [], ◌∷◌, ◌≡◌, refl, subst, ap, ◌∙◌, inl,
  inr, arith, Bool-cases, length, if◌then◌else◌,
}
use kube_nas.Controllers.Placement.{Sort}
use kube_nas.Base.Order.{IsWeakOrderOn}
use kube_nas.Controllers.Placement.Sorting.{KeepsElements, SortsFirst}
use mathlib.Core.List.{Memᴰ, head?}
use mathlib.Core.List.Memᴰ

-- Insertion sort, one that the Go library could have: the new element goes before the first that is
-- not less.
abbrev insert : {A : Type 0} → (A → A → Bool) → A → List A → List A
insert less x [] = x ∷ []
insert less x (y ∷ ys) = let rest = insert less x ys in if less y x then y ∷ rest else x ∷ y ∷ ys

abbrev pub insertion_sort : {A : Type 0} → Sort A
insertion_sort less [] = []
insertion_sort less (x ∷ xs) = insert less x (insertion_sort less xs)

module _ {A : Type 0} (less : A → A → Bool) where
  insert-Memᴰ : (x z : A) (ys : List A) → Memᴰ z (insert less x ys) → Memᴰ z (x ∷ ys)
  insert-Memᴰ x z [] m = m
  insert-Memᴰ x z (y ∷ ys) m = elim (Bool-cases (less y x)) [
    | inr e ↦ subst (Memᴰ z) (ground arith) m
    | inl e ↦ elim (Memᴰ.cases_cons (subst (Memᴰ z) (behind e) m)) [
      | inl same ↦ Memᴰ.tail (Memᴰ.head same)
      | inr later ↦ swap (insert-Memᴰ x z ys later)
    ]
  ]
    where
      behind : less y x ≡ true → insert less x (y ∷ ys) ≡ y ∷ insert less x ys
      behind e = ground arith

      swap : Memᴰ z (x ∷ ys) → Memᴰ z (x ∷ y ∷ ys)
      swap n = elim (Memᴰ.cases_cons n) [
        | inl same ↦ Memᴰ.head same
        | inr later ↦ Memᴰ.tail (Memᴰ.tail later)
      ]

  insert-length : (x : A) (ys : List A) → length (insert less x ys) ≡ suc (length ys)
  insert-length x [] = refl
  insert-length x (y ∷ ys) = elim (Bool-cases (less y x)) [
    | inl e ↦ ground (arith, insert-length x ys)
    | inr e ↦ ground arith
  ]

  insertion_sort-Memᴰ : (z : A) (xs : List A) → Memᴰ z (insertion_sort less xs) → Memᴰ z xs
  insertion_sort-Memᴰ z [] m = m
  insertion_sort-Memᴰ z (x ∷ xs) m =
      elim (Memᴰ.cases_cons (insert-Memᴰ x z (insertion_sort less xs) m)) [
        | inl e ↦ Memᴰ.head e
        | inr later ↦ Memᴰ.tail (insertion_sort-Memᴰ z xs later)
      ]

  insertion_sort-length : (xs : List A) → length (insertion_sort less xs) ≡ length xs
  insertion_sort-length [] = refl
  insertion_sort-length (x ∷ xs) =
      insert-length x (insertion_sort less xs) ∙ ap suc (insertion_sort-length xs)

pub insertion_sort-KeepsElements : {A : Type 0} → KeepsElements {A = A} insertion_sort
insertion_sort-KeepsElements = record {
  members = λ less xs x. insertion_sort-Memᴰ less x xs;
  same_length = λ less xs. insertion_sort-length less xs;
}

module _ {A : Type 0} (less : A → A → Bool) where
  -- What holds of the elements gives what holds of each as a member.
  All-members :
      (P Q : A → Type 0) (xs : List A) → ((y : A) → Memᴰ y xs → P y → Q y) → All P xs → All Q xs
  All-members P Q [] each all = tt
  All-members P Q (x ∷ xs) each (here, later) =
      (each x (Memᴰ.head refl) here, All-members P Q xs (λ y m. each y (Memᴰ.tail m)) later)

  behind_first : (x : A) (xs : List A) → IsWeakOrderOn less (x ∷ xs) → IsWeakOrderOn less xs
  behind_first x xs order = record {
    asymmetric = λ a b ma mb. order.asymmetric a b (Memᴰ.tail ma) (Memᴰ.tail mb);
    negative = λ a b c ma mb mc. order.negative a b c (Memᴰ.tail ma) (Memᴰ.tail mb) (Memᴰ.tail mc);
  }

  not_before_itself : (x : A) (xs : List A) → IsWeakOrderOn less (x ∷ xs) → less x x ≡ false
  not_before_itself x xs order = elim (Bool-cases (less x x)) [
    | inl e ↦ order.asymmetric x x (Memᴰ.head refl) (Memᴰ.head refl) e
    | inr e ↦ e
  ]

  first_member :
      (xs : List A) (m : A) (rest : List A) → insertion_sort less xs ≡ m ∷ rest → Memᴰ m xs
  first_member xs m rest e = insertion_sort-Memᴰ less m xs (subst (Memᴰ m) (sym e) (Memᴰ.head refl))

  none_left : (P : A → Type 0) (xs : List A) → length xs ≡ 0 → All P xs
  none_left P [] h = tt
  none_left P (x ∷ xs) h = absurd (omega (arith, h))

  some_injective : (a b : A) → some a ≡ some b → a ≡ b
  some_injective a b h = cc

  insertion_sort-first :
      (xs : List A) (w : A)
      → IsWeakOrderOn less xs
      → head? (insertion_sort less xs) ≡ some w
      → All (λ y. less y w ≡ false) xs
  insertion_sort-first [] w order h = tt
  insertion_sort-first (x ∷ xs) w order h = elim (List-cases (insertion_sort less xs)) [
    | inl e ↦
        subst (λ v. All (λ y. less y v ≡ false) (x ∷ xs))
          (some_injective x w (sym (ap (λ l. head? (insert less x l)) e) ∙ h))
          (
            not_before_itself x xs order,
            none_left (λ y. less y x ≡ false) xs
                (sym (insertion_sort-length less xs) ∙ ap length e),
          )
    | inr (m, rest, e) ↦ elim (Bool-cases (less m x)) [
      | inl before ↦
          subst (λ v. All (λ y. less y v ≡ false) (x ∷ xs))
            (some_injective m w (sym (ap (λ l. head? (insert less x l)) e ∙ rw before refl) ∙ h))
            (
              order.asymmetric m x (Memᴰ.tail (first_member xs m rest e)) (Memᴰ.head refl) before,
              insertion_sort-first xs m (behind_first x xs order) (ap head? e),
            )
      | inr after ↦
          subst (λ v. All (λ y. less y v ≡ false) (x ∷ xs))
            (some_injective x w (sym (ap (λ l. head? (insert less x l)) e ∙ rw after refl) ∙ h))
            (
              not_before_itself x xs order,
              All-members (λ y. less y m ≡ false) (λ y. less y x ≡ false) xs
                  (λ y my p.
                    order.negative y m x (Memᴰ.tail my) (Memᴰ.tail (first_member xs m rest e))
                      (Memᴰ.head refl) p after)
                  (insertion_sort-first xs m (behind_first x xs order) (ap head? e)),
            )
    ]
  ]

pub insertion_sort-SortsFirst : {A : Type 0} → SortsFirst {A = A} insertion_sort
insertion_sort-SortsFirst = record { first = λ less xs w. insertion_sort-first less xs w }
