-- ===== src/Base/Fields.antt =====
-- `strings.Fields`, `strings.TrimSpace`, `strings.TrimPrefix` and `strings.Split` at one character.
pub mod Split
pub mod Lines
use Prim.Native.Nat.{ℕ}
use Prim.Native.Char.{Char, code}
use Prim.Native.String.{String, ◌++◌ as ◌<>◌}
use mathlib.Core.Bool.{Bool, true, false, ◌&&◌, ◌||◌}
use mathlib.Core.List.{List, [], ◌∷◌}
use kube_nas.Base.Tests.{leb, ◌==◌, if◌then◌else◌}
use kube_nas.Base.Text.{is_empty}

-- `unicode.IsSpace`.
unfoldable pub is_space : ℕ → Bool
is_space c =
    (leb 9 c && leb c 13)
    || (c == 32)
    || (c == 0x85)
    || (c == 0xa0)
    || (c == 0x1680)
    || (leb 0x2000 c && leb c 0x200a)
    || (c == 0x2028)
    || (c == 0x2029)
    || (c == 0x202f)
    || (c == 0x205f)
    || (c == 0x3000)

abbrev pub one : Char → String
one c = String.◌∷◌ c ""

-- `word` is what was read of the field at hand.
unfoldable pub fields_onto : String → String → List String
fields_onto word String.[] = if is_empty word then [] else word ∷ []
fields_onto word (String.◌∷◌ c s) =
    let rest = fields_onto "" s in
    let longer = fields_onto (word <> one c) s in
    if is_space (code c) then (if is_empty word then rest else word ∷ rest) else longer

unfoldable pub fields : String → List String
fields = fields_onto ""

unfoldable pub trim_left : String → String
trim_left String.[] = ""
trim_left (String.◌∷◌ c s) =
    let rest = trim_left s in if is_space (code c) then rest else String.◌∷◌ c s

unfoldable pub is_blank : String → Bool
is_blank String.[] = true
is_blank (String.◌∷◌ c s) = is_space (code c) && is_blank s

unfoldable pub trim_right : String → String
trim_right String.[] = ""
trim_right (String.◌∷◌ c s) =
    let rest = trim_right s in if is_blank (String.◌∷◌ c s) then "" else String.◌∷◌ c rest

unfoldable pub trim_space : String → String
trim_space s = trim_right (trim_left s)

-- The pieces between the characters whose code is `at`.
unfoldable pub split_onto : ℕ → String → String → List String
split_onto at word String.[] = word ∷ []
split_onto at word (String.◌∷◌ c s) =
    let rest = split_onto at "" s in
    let longer = split_onto at (word <> one c) s in if code c == at then word ∷ rest else longer

-- `strings.Split(s, "\n")`.
unfoldable pub split_lines : String → List String
split_lines = split_onto 10 ""

-- `prefix` is taken off as often as its characters are there: none or all.
unfoldable pub drop_prefix : String → String → Bool × String
drop_prefix String.[] s = (true, s)
drop_prefix (String.◌∷◌ p ps) String.[] = (false, "")
drop_prefix (String.◌∷◌ p ps) (String.◌∷◌ c s) =
    let rest = drop_prefix ps s in if code p == code c then rest else (false, "")

unfoldable pub trim_prefix : String → String → String
trim_prefix s prefix = let (there, rest) = drop_prefix prefix s in if there then rest else s

unfoldable pub has_prefix : String → String → Bool
has_prefix s prefix = (drop_prefix prefix s).0
