-- ===== src/Base/Order.antt =====
-- Boolean tests that order the elements of a list.
use mathlib.Core.Path.{◌≡◌, subst}
use mathlib.Core.Bool.{Bool, true, false}
use mathlib.Core.List.{List, [], ◌∷◌, map, Memᴰ}
use mathlib.Core.List.Memᴰ
use kube_nas.Base.Lists.{All}

-- The test orders the elements of the list, of which some may be equal to it.
pub record IsWeakOrderOn {A : Type 0} (less : A → A → Bool) (xs : List A) : Type 0 where
  pub asymmetric : (a b : A) → Memᴰ a xs → Memᴰ b xs → less a b ≡ true → less b a ≡ false
  pub negative :
      (a b c : A)
      → Memᴰ a xs
      → Memᴰ b xs
      → Memᴰ c xs
      → less a b ≡ false
      → less b c ≡ false
      → less a c ≡ false

module _ {A B : Type 0} (f : A → B) (less : B → B → Bool) where
  -- An order of what the elements are mapped to.
  pub IsWeakOrderOn-map :
      (xs : List A) → IsWeakOrderOn (λ a b. less (f a) (f b)) xs → IsWeakOrderOn less (map f xs)
  IsWeakOrderOn-map xs order = record {
    asymmetric = λ a b ma mb.
        let (x, mx, ex) = Memᴰ.of_map f xs ma in
        let (y, my, ey) = Memᴰ.of_map f xs mb in
        subst (λ b'. less a b' ≡ true → less b' a ≡ false) ey
          (subst (λ a'. less a' (f y) ≡ true → less (f y) a' ≡ false) ex
            (order.asymmetric x y mx my));
    negative = λ a b c ma mb mc.
        let (x, mx, ex) = Memᴰ.of_map f xs ma in
        let (y, my, ey) = Memᴰ.of_map f xs mb in
        let (z, mz, ez) = Memᴰ.of_map f xs mc in
        subst (λ c'. less a b ≡ false → less b c' ≡ false → less a c' ≡ false) ez
          (subst (λ b'. less a b' ≡ false → less b' (f z) ≡ false → less a (f z) ≡ false) ey
            (subst (λ a'. less a' (f y) ≡ false → less (f y) (f z) ≡ false → less a' (f z) ≡ false)
              ex (order.negative x y z mx my mz)));
  }

pub All-map :
    {A B : Type 0} (f : A → B) (P : B → Type 0) (xs : List A)
    → All P (map f xs)
    → All (λ a. P (f a)) xs
All-map f P [] all = tt
All-map f P (x ∷ xs) (here, later) = (here, All-map f P xs later)

-- An order of the elements is one of some of them.
pub IsWeakOrderOn-some :
    {A : Type 0} (less : A → A → Bool) (xs ys : List A)
    → ((y : A) → Memᴰ y ys → Memᴰ y xs)
    → IsWeakOrderOn less xs
    → IsWeakOrderOn less ys
IsWeakOrderOn-some less xs ys inside order = record {
  asymmetric = λ a b ma mb. order.asymmetric a b (inside a ma) (inside b mb);
  negative = λ a b c ma mb mc. order.negative a b c (inside a ma) (inside b mb) (inside c mc);
}
