-- ===== src/Node/Parity/Counts.antt =====
-- What parseErrorCount of node-agent/pkg/parity/parity.go counts in the output of SnapRAID.
use kube_nas.Base.{
  ℕ, ◌+◌, ◌*◌, ◌-◌, ◌^◌, ◌<◌, String, ◌<>◌, true, false, some, List, [], ◌∷◌, ◌++◌, map, ◌≡◌, refl,
  ap, ◌∙◌, arith, ◌&&◌,
}
use kube_nas.Base.Int.{pos, add64, ◌+ℤ◌, wrap64}
use kube_nas.Base.Text.{
  decimal, codes, lower, contains, join, codes-append, contains-append, is_empty,
}
use kube_nas.Base.ParseInt.{digits_onto}
use kube_nas.Base.Fields.{is_space}
use kube_nas.Base.Fields.Split.{lacks}
use kube_nas.Base.Fields.Lines.{AllLines, split_lines-join, lacks-append, lacks-decimal}
use kube_nas.Base.Text.Decimal.{digits_onto-decimal, is_empty-decimal}
use kube_nas.Node.Parity.{
  after, skip_spaces, after_spaces, digits_then, signed, number_then, scan_found, found_in,
  count_lines, parse_error_count,
}
use Prim.Native.Char.{code}

-- The digits of a text are in lower case.
map-append : (a b : List ℕ) → map lower (a ++ b) ≡ map lower a ++ map lower b
map-append [] b = refl
map-append (c ∷ a) b = ap (λ l. lower c ∷ l) (map-append a b)

lower-digits : (m k : ℕ) (s : String) → digits_onto m s ≡ some k → map lower (codes s) ≡ codes s
unfolding digits_onto lower
lower-digits m k String.[] h = refl
lower-digits m k (String.◌∷◌ c s) h = ground (arith, h, lower-digits (m * 10 + (code c - 48)) k s)

-- `%d` reads the digits up to what is none.
digits_then-digits :
    (m k : ℕ) (s : String) (r : List ℕ)
    → digits_onto m s ≡ some k
    → digits_then (some m) (codes s ++ (32 ∷ r)) ≡ some (k, 32 ∷ r)
unfolding digits_onto digits_then
digits_then-digits m k String.[] r h = ground (arith, h)
digits_then-digits m k (String.◌∷◌ c s) r h =
    ground (arith, h, digits_then-digits (m * 10 + (code c - 48)) k s r)

number_then-digits :
    (n : ℕ) (s : String) (r : List ℕ)
    → is_empty s ≡ false
    → digits_onto 0 s ≡ some n
    → n < 2 ^ 63
    → number_then (skip_spaces (codes s ++ (32 ∷ r))) ≡ some (pos n, 32 ∷ r)
unfolding digits_onto digits_then number_then skip_spaces signed is_empty is_space
number_then-digits n String.[] r e h small = cc
number_then-digits n (String.◌∷◌ c s) r e h small =
    ground (arith, h, digits_then-digits (code c - 48) n s r)

-- A line that reports errors.
unfoldable pub found_line : ℕ → String
found_line n = "found " <> (decimal n <> " errors")

-- The characters of such a line in lower case.
codes-found_line :
    (n : ℕ)
    → map lower (codes (found_line n))
      ≡ (codes "found" ++ (32 ∷ [])) ++ (codes (decimal n) ++ (32 ∷ codes "errors"))
unfolding found_line lower
codes-found_line n =
    ap (map lower) (
      codes-append "found " (decimal n <> " errors")
      ∙ ap (λ l. codes "found " ++ l) (codes-append (decimal n) " errors"))
    ∙ ap (λ l. codes "found " ++ l)
        (map-append (codes (decimal n)) (codes " errors")
          ∙ ap (λ l. l ++ codes " errors") (lower-digits 0 n (decimal n) (digits_onto-decimal n)))

scan_found-found_line :
    (n : ℕ) → n < 2 ^ 63 → scan_found (map lower (codes (found_line n))) ≡ some (pos n)
unfolding scan_found after after_spaces is_space skip_spaces
scan_found-found_line n small =
    rw
      (
        codes-found_line n,
        scan_found,
        number_then-digits n (decimal n) (codes "errors") (is_empty-decimal n)
            (digits_onto-decimal n) small,
      )
      refl

contains-behind : (xs t d : List ℕ) → contains t d ≡ true → contains (xs ++ t) d ≡ true
unfolding contains
contains-behind [] t d h = h
contains-behind (x ∷ xs) t d h = ground (arith, h, contains-behind xs t d)

found_in-found_line : (n : ℕ) → n < 2 ^ 63 → found_in (map lower (codes (found_line n))) ≡ pos n
unfolding found_in
found_in-found_line n small =
    rw
      (
        scan_found-found_line n small,
        codes-found_line n,
        contains-append [] (codes "found")
            ((32 ∷ []) ++ (codes (decimal n) ++ (32 ∷ codes "errors"))),
        contains-behind (codes "found " ++ codes (decimal n)) (32 ∷ codes "errors") (codes "error")
            (contains-append (32 ∷ []) (codes "error") (codes "s")),
      )
      refl

-- A line of the output: one that reports a number of errors, or any other.
pub data OutputLine : Type 0 where
  found : ℕ → OutputLine
  other : String → OutputLine

abbrev pub text_of : OutputLine → String
text_of (found n) = found_line n
text_of (other s) = s

-- The texts of the lines.
abbrev pub texts_of : List OutputLine → List String
texts_of [] = []
texts_of (l ∷ ls) = text_of l ∷ texts_of ls

abbrev pub errors_of : OutputLine → ℕ
errors_of (found n) = n
errors_of (other s) = 0

abbrev pub total : List OutputLine → ℕ
total [] = 0
total (l ∷ ls) = errors_of l + total ls

-- A line that is not such a report does not have both words, and is one line.
abbrev pub IsPlain : OutputLine → Type 0
IsPlain (found n) = Unit
IsPlain (other s) =
    (lacks 10 s ≡ true)
    × ((contains (map lower (codes s)) (codes "error")
          && contains (map lower (codes s)) (codes "found"))
        ≡ false)

abbrev pub AllPlain : List OutputLine → Type 0
AllPlain [] = Unit
AllPlain (l ∷ ls) = IsPlain l × AllPlain ls

lacks-found_line : (n : ℕ) → lacks 10 (found_line n) ≡ true
unfolding found_line lacks
lacks-found_line n =
    lacks-append "found " (decimal n <> " errors") refl
      (lacks-append (decimal n) " errors" (lacks-decimal n) refl)

AllPlain-AllLines : (ls : List OutputLine) → AllPlain ls → AllLines (texts_of ls)
AllPlain-AllLines [] h = tt
AllPlain-AllLines (found n ∷ ls) (h, rest) = (lacks-found_line n, AllPlain-AllLines ls rest)
AllPlain-AllLines (other s ∷ ls) (h, rest) = (h.0, AllPlain-AllLines ls rest)

found_in-text_of :
    (l : OutputLine)
    → IsPlain l
    → errors_of l < 2 ^ 63
    → found_in (map lower (codes (text_of l))) ≡ pos (errors_of l)
unfolding found_in
found_in-text_of (found n) h small = found_in-found_line n small
found_in-text_of (other s) h small = rw h.1 refl

add64-pos : (a b : ℕ) → a + b < 2 ^ 63 → add64 (pos a) (pos b) ≡ pos (a + b)
unfolding ◌+ℤ◌ wrap64
add64-pos a b small = ground arith

count_lines-total :
    (ls : List OutputLine) (count : ℕ)
    → AllPlain ls
    → count + total ls < 2 ^ 63
    → count_lines (pos count) (texts_of ls) ≡ pos (count + total ls)
unfolding count_lines
count_lines-total [] count h small = ap pos (omega arith)
count_lines-total (l ∷ ls) count (h, rest) small =
    ap (λ c. count_lines c (texts_of ls))
      (ap (add64 (pos count)) (found_in-text_of l h (omega (arith, small)))
        ∙ add64-pos count (errors_of l) (omega (arith, small)))
    ∙ count_lines-total ls (count + errors_of l) rest (omega (arith, small))
    ∙ ap pos (omega arith)

-- Of an output whose lines are reports `found N errors` and lines that do not have both the word found
-- and the word error, the count is the sum of the numbers that are reported, if an int64 holds it.
pub parse_error_count-total :
    (l : OutputLine) (ls : List OutputLine)
    → AllPlain (l ∷ ls)
    → total (l ∷ ls) < 2 ^ 63
    → parse_error_count (join (texts_of (l ∷ ls)) "\n") ≡ pos (total (l ∷ ls))
unfolding parse_error_count
parse_error_count-total l ls h small =
    ap (count_lines (pos 0))
      (split_lines-join (text_of l) (texts_of ls) (AllPlain-AllLines (l ∷ ls) h))
    ∙ count_lines-total (l ∷ ls) 0 h (omega (arith, small))
    ∙ ap pos (omega arith)
