-- ===== src/Base/Text.antt =====
-- Text as Go's `fmt` and `strings` make it, for the verbs and functions that the source uses.
pub mod Decimal
use Prim.Native.Nat.{ℕ, zero, suc, ◌/◌, ◌%◌}
use Prim.Native.String.{String, ◌++◌ as ◌<>◌}
use mathlib.Core.Bool.{Bool, true, false}
use mathlib.Core.List.{List, [], ◌∷◌, ◌++◌}
use text.Mathlib.TextLemmas.{nil-append, cons-append}
use text.Mathlib.TextEquality.{eq_iff}
use mathlib.Core.Logic.{inl, inr}
use native.Mathlib.Omega.{arith}
use text.Mathlib.Text.{◌==◌ as str_eq}
use mathlib.Core.Path.{◌≡◌, refl, ap}
use Prim.Native.Nat.{◌+◌}
use Prim.Native.Char.{code}
use mathlib.Core.Bool.{◌&&◌, ◌||◌}
use kube_nas.Base.Int.{ℤ, pos, negsuc}
use kube_nas.Base.Tests.{Bool-cases, ltb, leb, ◌==◌, if◌then◌else◌}

digit : ℕ → String
digit zero = "0"
digit (suc zero) = "1"
digit (suc (suc zero)) = "2"
digit (suc (suc (suc zero))) = "3"
digit (suc (suc (suc (suc zero)))) = "4"
digit (suc (suc (suc (suc (suc zero))))) = "5"
digit (suc (suc (suc (suc (suc (suc zero)))))) = "6"
digit (suc (suc (suc (suc (suc (suc (suc zero))))))) = "7"
digit (suc (suc (suc (suc (suc (suc (suc (suc zero)))))))) = "8"
digit (suc (suc (suc (suc (suc (suc (suc (suc (suc n))))))))) = "9"

-- Every call divides by ten, so the number itself is fuel enough.
decimal_from : ℕ → ℕ → String
decimal_from zero n = ""
decimal_from (suc fuel) n =
    let front = decimal_from fuel (n / 10) in if ltb n 10 then digit n else front <> digit (n % 10)

-- `%d` at a number that is not negative.
unfoldable pub decimal : ℕ → String
unfolding decimal_from digit
decimal n = decimal_from (suc n) n

-- `%d` at any number.
unfoldable pub decimal_ℤ : ℤ → String
decimal_ℤ (pos n) = decimal n
decimal_ℤ (negsuc n) = "-" <> decimal (suc n)

-- `strings.Join`.
unfoldable pub join : List String → String → String
join [] sep = ""
join (x ∷ []) sep = x
join (x ∷ y ∷ xs) sep = x <> (sep <> join (y ∷ xs) sep)

escaped : String → String
escaped String.[] = ""
escaped (String.◌∷◌ c s) =
    let one = String.◌∷◌ c "" in
    (if str_eq one "\"" then "\\\"" else if str_eq one "\\" then "\\\\" else one) <> escaped s

-- `%q` at printable text.
unfoldable pub quoted : String → String
unfolding escaped
quoted s = "\"" <> (escaped s <> "\"")

-- `strings.ReplaceAll` at a separator of one character, which is given as a text of length one.
unfoldable pub replace_char : String → String → String → String
replace_char String.[] old new = ""
replace_char (String.◌∷◌ c s) old new =
    let one = String.◌∷◌ c "" in (if str_eq one old then new else one) <> replace_char s old new

unfoldable pub is_empty : String → Bool
is_empty String.[] = true
is_empty (String.◌∷◌ c s) = false

pub decimal_example : decimal 24 ≡ "24"
unfolding decimal
decimal_example = refl

quoted_example : quoted "a\"b" ≡ "\"a\\\"b\""
unfolding quoted
quoted_example = refl

-- The code points of a text.
abbrev pub codes : String → List ℕ
codes String.[] = []
codes (String.◌∷◌ c s) = code c ∷ codes s

-- `strings.ToLower`, as far as a search for ASCII letters sees it: İ and the Kelvin sign are the only
-- other characters whose lower case is one.
unfoldable pub lower : ℕ → ℕ
lower c =
    if leb 65 c && leb c 90
    then c + 32
    else if c == 0x130
    then 105
    else if c == 0x212a
    then 107
    else c

begins_with : List ℕ → List ℕ → Bool
begins_with s [] = true
begins_with [] (d ∷ t) = false
begins_with (c ∷ s) (d ∷ t) = c == d && begins_with s t

-- `strings.Contains`.
unfoldable pub contains : List ℕ → List ℕ → Bool
unfolding begins_with
contains [] t = begins_with [] t
contains (c ∷ s) t = begins_with (c ∷ s) t || contains s t

pub codes-append : (a b : String) → codes (a <> b) ≡ codes a ++ codes b
codes-append String.[] b = ap codes (nil-append b)
codes-append (String.◌∷◌ c a) b = rw (cons-append c a b) (ap (λ l. code c ∷ l) (codes-append a b))

-- Texts that start with different characters differ.
pub append-differs :
    (a b s : String) (x y : ℕ) (xs ys : List ℕ)
    → codes a ≡ x ∷ xs
    → codes b ≡ y ∷ ys
    → (x == y) ≡ false
    → str_eq (a <> s) b ≡ false
append-differs a b s x y xs ys ha hb h = elim (Bool-cases (str_eq (a <> s) b)) [
  | inl e ↦ absurd (ground (arith, codes-append a s, ap codes ((eq_iff (a <> s) b).0 e)))
  | inr e ↦ e
]

begins_with-append : (d r : List ℕ) → begins_with (d ++ r) d ≡ true
unfolding begins_with
begins_with-append [] [] = refl
begins_with-append [] (x ∷ r) = refl
begins_with-append (x ∷ d) r = ground (arith, begins_with-append d r)

contains-begins_with : (s d : List ℕ) → begins_with s d ≡ true → contains s d ≡ true
unfolding contains
contains-begins_with [] d h = h
contains-begins_with (x ∷ s) d h = ground (arith, h)

-- A text is found in what it stands in.
pub contains-append : (xs d r : List ℕ) → contains (xs ++ (d ++ r)) d ≡ true
unfolding contains
contains-append [] d r = contains-begins_with (d ++ r) d (begins_with-append d r)
contains-append (x ∷ xs) d r = ground (arith, contains-append xs d r)
