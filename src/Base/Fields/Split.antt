-- ===== src/Base/Fields/Split.antt =====
-- The pieces of a text that is put together with the separator.
use Prim.Native.Nat.{ℕ}
use Prim.Native.Char.{Char, code}
use Prim.Native.String.{String, ◌++◌ as ◌<>◌}
use mathlib.Core.Path.{◌≡◌, ap, ◌∙◌, sym}
use mathlib.Core.Logic.{inl, inr}
use mathlib.Core.Bool.{Bool, true, false}
use mathlib.Core.List.{[], ◌∷◌, ◌++◌}
use native.Mathlib.Omega.{arith}
use text.Mathlib.TextLemmas.{nil-append, cons-append, append_assoc, append-nil}
use kube_nas.Base.Tests.{Bool-cases, ◌==◌, if◌then◌else◌}
use kube_nas.Base.Fields.{one, split_onto}

-- The character does not occur.
unfoldable pub lacks : ℕ → String → Bool
lacks at String.[] = true
lacks at (String.◌∷◌ c s) = if code c == at then false else lacks at s

-- The pieces before and after a separator are those of the two texts.
pub split_onto-append :
    (at : ℕ) (sep : Char)
    → code sep ≡ at
    → (a b word : String)
    → split_onto at word (a <> String.◌∷◌ sep b) ≡ split_onto at word a ++ split_onto at "" b
unfolding split_onto
split_onto-append at sep e String.[] b word = rw (nil-append (String.◌∷◌ sep b)) (ground (arith, e))
split_onto-append at sep e (String.◌∷◌ c a) b word = rw (cons-append c a (String.◌∷◌ sep b)) (
    ground
      (arith, e, split_onto-append at sep e a b "", split_onto-append at sep e a b (word <> one c)))

-- A text without the separator is one piece.
pub split_onto-lacks :
    (at : ℕ) (s word : String) → lacks at s ≡ true → split_onto at word s ≡ (word <> s) ∷ []
unfolding split_onto lacks
split_onto-lacks at String.[] word h = ap (λ w. w ∷ []) (sym (append-nil word))
split_onto-lacks at (String.◌∷◌ c s) word h = elim (Bool-cases (code c == at)) [
  | inl e ↦ absurd (ground (arith, h, e))
  | inr e ↦ rw e (
      split_onto-lacks at s (word <> one c) (ground (arith, h, e))
      ∙ ap (λ w. w ∷ [])
          (append_assoc word (one c) s
            ∙ ap (λ w. word <> w) (cons-append c "" s ∙ ap (String.◌∷◌ c) (nil-append s))))
]
