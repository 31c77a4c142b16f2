-- ===== src/Base/ParseInt.antt =====
-- The value that `strconv.ParseInt(s, 10, 64)` returns beside its error: 0 for what is not a number,
-- and the nearest `int64` for a number that is out of range.
use Prim.Native.Nat.{ℕ, ◌+◌, ◌-◌, ◌*◌, ◌^◌}
use Prim.Native.Char.{code}
use Prim.Native.String.{String}
use mathlib.Core.Bool.{Bool, true, false, ◌&&◌}
use mathlib.Core.Option.{Option, none, some}
use native.Mathlib.Omega.{arith}
use kube_nas.Base.Tests.{ltb, leb, ◌==◌, if◌then◌else◌}
use kube_nas.Base.Int.{ℤ, pos, negsuc, IsInt64}
use kube_nas.Base.Text.{is_empty}

unfoldable pub digits_onto : ℕ → String → Option ℕ
digits_onto n String.[] = some n
digits_onto n (String.◌∷◌ c s) =
    let rest = digits_onto (n * 10 + (code c - 48)) s in
    if leb 48 (code c) && leb (code c) 57 then rest else none

unfoldable pub parse_digits : String → Option ℕ
parse_digits s = if is_empty s then none else digits_onto 0 s

unfoldable pub clamped : Bool → Option ℕ → ℤ
clamped negative none = pos 0
clamped false (some n) = if ltb n (2 ^ 63) then pos n else pos (2 ^ 63 - 1)
clamped true (some n) =
    if leb n 0 then pos 0 else if leb n (2 ^ 63) then negsuc (n - 1) else negsuc (2 ^ 63 - 1)

unfoldable pub parse_int : String → ℤ
parse_int String.[] = pos 0
parse_int (String.◌∷◌ c s) =
    if code c == 45
    then clamped true (parse_digits s)
    else if code c == 43
    then clamped false (parse_digits s)
    else clamped false (parse_digits (String.◌∷◌ c s))

clamped-IsInt64 : (negative : Bool) (o : Option ℕ) → IsInt64 (clamped negative o)
unfolding clamped
clamped-IsInt64 negative none = ground arith
clamped-IsInt64 false (some n) = ground arith
clamped-IsInt64 true (some n) = ground arith

pub parse_int-IsInt64 : (s : String) → IsInt64 (parse_int s)
unfolding parse_int
parse_int-IsInt64 String.[] = ground arith
parse_int-IsInt64 (String.◌∷◌ c s) = ground (
  arith,
  clamped-IsInt64 true (parse_digits s),
  clamped-IsInt64 false (parse_digits s),
  clamped-IsInt64 false (parse_digits (String.◌∷◌ c s)),
)
