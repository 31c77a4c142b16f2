-- ===== src/Base/Text/Decimal.antt =====
-- A number that is printed by `%d` is what `strconv.ParseInt` reads of the text.
use Prim.Native.Nat.{ℕ, zero, suc, ◌+◌, ◌-◌, ◌*◌, ◌/◌, ◌%◌, ◌<◌}
use Prim.Native.Char.{Char, char, code}
use Prim.Native.String.{String, ◌++◌ as ◌<>◌}
use mathlib.Core.Path.{◌≡◌, refl, ap, ◌∙◌}
use mathlib.Core.Logic.{inl, inr}
use mathlib.Core.Bool.{Bool, true, false}
use mathlib.Core.Option.{some}
use native.Mathlib.Omega.{arith}
use text.Mathlib.TextLemmas.{nil-append, cons-append}
use kube_nas.Base.Tests.{Bool-cases, ltb}
use kube_nas.Base.Int.{ℤ, pos, negsuc, IsInt64}
use kube_nas.Base.Text.{digit, decimal_from, decimal, decimal_ℤ, is_empty}
use kube_nas.Base.ParseInt.{digits_onto, parse_digits, clamped, parse_int}

abbrev is_negative : ℤ → Bool
is_negative (pos n) = false
is_negative (negsuc n) = true

abbrev magnitude : ℤ → ℕ
magnitude (pos n) = n
magnitude (negsuc n) = suc n

-- The digits of a text that is appended are read on.
digits_onto-append :
    (a b : String) (m k : ℕ) → digits_onto m a ≡ some k → digits_onto m (a <> b) ≡ digits_onto k b
unfolding digits_onto
digits_onto-append String.[] b m k h = rw (nil-append b) (ground (arith, h))
digits_onto-append (String.◌∷◌ c a) b m k h =
    rw (cons-append c a b) (ground (arith, h, digits_onto-append a b (m * 10 + (code c - 48)) k))

digits_onto-digit : (m d : ℕ) → d < 10 → digits_onto m (digit d) ≡ some (m * 10 + d)
unfolding digits_onto digit
digits_onto-digit m zero h = refl
digits_onto-digit m (suc zero) h = refl
digits_onto-digit m (suc (suc zero)) h = refl
digits_onto-digit m (suc (suc (suc zero))) h = refl
digits_onto-digit m (suc (suc (suc (suc zero)))) h = refl
digits_onto-digit m (suc (suc (suc (suc (suc zero))))) h = refl
digits_onto-digit m (suc (suc (suc (suc (suc (suc zero)))))) h = refl
digits_onto-digit m (suc (suc (suc (suc (suc (suc (suc zero))))))) h = refl
digits_onto-digit m (suc (suc (suc (suc (suc (suc (suc (suc zero)))))))) h = refl
digits_onto-digit m (suc (suc (suc (suc (suc (suc (suc (suc (suc n))))))))) h = ground arith

digits_onto-decimal_from : (fuel n : ℕ) → n < fuel → digits_onto 0 (decimal_from fuel n) ≡ some n
unfolding decimal_from
digits_onto-decimal_from zero n h = absurd (omega arith)
digits_onto-decimal_from (suc fuel) n h = elim (Bool-cases (ltb n 10)) [
  | inl small ↦ rw small (digits_onto-digit 0 n (ground (arith, small)) ∙ ap some (omega arith))
  | inr large ↦ rw large (
      digits_onto-append (decimal_from fuel (n / 10)) (digit (n % 10)) 0 (n / 10)
        (digits_onto-decimal_from fuel (n / 10) (ground (arith, large)))
      ∙ digits_onto-digit (n / 10) (n % 10) (omega arith)
      ∙ ap some (omega arith))
]

pub digits_onto-decimal : (n : ℕ) → digits_onto 0 (decimal n) ≡ some n
unfolding decimal
digits_onto-decimal n = digits_onto-decimal_from (suc n) n (omega arith)

-- A text of digits that is not empty has no sign.
parse_int-digits :
    (s : String) (n : ℕ)
    → is_empty s ≡ false
    → digits_onto 0 s ≡ some n
    → parse_int s ≡ clamped false (some n)
unfolding parse_int parse_digits digits_onto is_empty
parse_int-digits String.[] n e h = cc
parse_int-digits (String.◌∷◌ c s) n e h = ground (arith, h)

zero_of_empty : (s : String) (n : ℕ) → is_empty s ≡ true → digits_onto 0 s ≡ some n → n ≡ 0
unfolding digits_onto is_empty
zero_of_empty String.[] n e h = ground (arith, h)
zero_of_empty (String.◌∷◌ c s) n e h = cc

pub is_empty-decimal : (n : ℕ) → is_empty (decimal n) ≡ false
unfolding decimal decimal_from digit is_empty
is_empty-decimal zero = refl
is_empty-decimal (suc n) = elim (Bool-cases (is_empty (decimal (suc n)))) [
  | inl e ↦
      absurd
        (omega (arith, zero_of_empty (decimal (suc n)) (suc n) e (digits_onto-decimal (suc n))))
  | inr e ↦ e
]

clamped-fits : (a : ℤ) → IsInt64 a → clamped (is_negative a) (some (magnitude a)) ≡ a
unfolding clamped
clamped-fits (pos n) h = ground (arith, h.below)
clamped-fits (negsuc n) h = ground (arith, h.above)

abbrev minus : Char
minus = char 45 tt

minus-append : (s : String) → "-" <> s ≡ String.◌∷◌ minus s
minus-append s = cons-append minus "" s ∙ ap (String.◌∷◌ minus) (nil-append s)

parse_int-minus :
    (n : ℕ) → parse_int (String.◌∷◌ minus (decimal (suc n))) ≡ clamped true (some (suc n))
unfolding parse_int parse_digits
parse_int-minus n = ground (arith, is_empty-decimal (suc n), digits_onto-decimal (suc n))

-- An `int64` that is printed by `%d` is read back by `strconv.ParseInt`.
pub parse_int-decimal_ℤ : (a : ℤ) → IsInt64 a → parse_int (decimal_ℤ a) ≡ a
unfolding decimal_ℤ
parse_int-decimal_ℤ (pos n) h =
    parse_int-digits (decimal n) n (is_empty-decimal n) (digits_onto-decimal n)
    ∙ clamped-fits (pos n) h
parse_int-decimal_ℤ (negsuc n) h =
    ap parse_int (minus-append (decimal (suc n))) ∙ parse_int-minus n ∙ clamped-fits (negsuc n) h
