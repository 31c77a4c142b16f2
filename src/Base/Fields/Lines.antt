-- ===== src/Base/Fields/Lines.antt =====
-- The lines of a text that is joined of lines.
use Prim.Native.Nat.{ℕ, ◌+◌, ◌-◌, ◌*◌}
use Prim.Native.Char.{Char, char, code}
use mathlib.Core.Option.{some}
use Prim.Native.String.{String, ◌++◌ as ◌<>◌}
use mathlib.Core.Path.{◌≡◌, refl, ap, sym, ◌∙◌}
use mathlib.Core.Bool.{true}
use mathlib.Core.List.{List, [], ◌∷◌, ◌++◌}
use native.Mathlib.Omega.{arith}
use text.Mathlib.TextLemmas.{nil-append, cons-append, append-nil, append_assoc}
use kube_nas.Base.Lists.{append_list_assoc}
use kube_nas.Base.Text.{join, decimal}
use kube_nas.Base.Text.Decimal.{digits_onto-decimal}
use kube_nas.Base.ParseInt.{digits_onto}
use kube_nas.Base.Fields.{split_onto, split_lines}
use kube_nas.Base.Fields.Split.{lacks, split_onto-append, split_onto-lacks}

abbrev newline : Char
newline = char 10 tt

newline-append : (s : String) → "\n" <> s ≡ String.◌∷◌ newline s
newline-append s = cons-append newline "" s ∙ ap (String.◌∷◌ newline) (nil-append s)

-- None of the texts has a newline.
abbrev pub AllLines : List String → Type 0
AllLines [] = Unit
AllLines (s ∷ ss) = (lacks 10 s ≡ true) × AllLines ss

pub split_lines-newline :
    (a b : String) → split_lines (a <> ("\n" <> b)) ≡ split_lines a ++ split_lines b
unfolding split_lines
split_lines-newline a b =
    ap (λ s. split_onto 10 "" (a <> s)) (newline-append b)
    ∙ split_onto-append 10 newline refl a b ""

pub split_lines-lacks : (s : String) → lacks 10 s ≡ true → split_lines s ≡ s ∷ []
unfolding split_lines
split_lines-lacks s h = split_onto-lacks 10 s "" h ∙ ap (λ w. w ∷ []) (nil-append s)

-- Lines that are joined by newlines are the lines of the text.
pub split_lines-join :
    (s : String) (ss : List String) → AllLines (s ∷ ss) → split_lines (join (s ∷ ss) "\n") ≡ s ∷ ss
unfolding join
split_lines-join s [] (h, rest) = split_lines-lacks s h
split_lines-join s (s' ∷ ss) (h, rest) =
    split_lines-newline s (join (s' ∷ ss) "\n")
    ∙ ap (λ l. l ++ split_lines (join (s' ∷ ss) "\n")) (split_lines-lacks s h)
    ∙ ap (λ l. s ∷ l) (split_lines-join s' ss rest)

pub lacks-append : (a b : String) → lacks 10 a ≡ true → lacks 10 b ≡ true → lacks 10 (a <> b) ≡ true
unfolding lacks
lacks-append String.[] b ha hb = rw (nil-append b) hb
lacks-append (String.◌∷◌ c a) b ha hb =
    rw (cons-append c a b) (ground (arith, ha, hb, lacks-append a b))

-- The text consists of the lines, each with its newline, so that what follows begins a line.
pub record IsLines (text : String) (ls : List String) : Type 0 where
  pub reads : (s : String) → split_lines (text <> s) ≡ ls ++ split_lines s

pub empty-IsLines : IsLines "" []
empty-IsLines = record { reads = λ s. ap split_lines (nil-append s) }

-- A further line.
pub append-IsLines :
    (text line : String) (ls : List String)
    → lacks 10 line ≡ true
    → IsLines text ls
    → IsLines (text <> (line <> "\n")) (ls ++ (line ∷ []))
append-IsLines text line ls h read = record {
  reads = λ s.
      ap split_lines
        (append_assoc text (line <> "\n") s ∙ ap (λ r. text <> r) (append_assoc line "\n" s))
      ∙ read.reads (line <> ("\n" <> s))
      ∙ ap (λ l. ls ++ l)
          (split_lines-newline line s ∙ ap (λ l. l ++ split_lines s) (split_lines-lacks line h))
      ∙ sym (append_list_assoc ls (line ∷ []) (split_lines s));
}

pub split_lines-IsLines :
    (text : String) (ls : List String) → IsLines text ls → split_lines text ≡ ls ++ ("" ∷ [])
unfolding lacks
split_lines-IsLines text ls read =
    ap split_lines (sym (append-nil text))
    ∙ read.reads ""
    ∙ ap (λ l. ls ++ l) (split_lines-lacks "" refl)

lacks-digits : (m k : ℕ) (s : String) → digits_onto m s ≡ some k → lacks 10 s ≡ true
unfolding digits_onto lacks
lacks-digits m k String.[] h = refl
lacks-digits m k (String.◌∷◌ c s) h = ground (arith, h, lacks-digits (m * 10 + (code c - 48)) k s)

pub lacks-decimal : (n : ℕ) → lacks 10 (decimal n) ≡ true
lacks-decimal n = lacks-digits 0 n (decimal n) (digits_onto-decimal n)
