-- ===== src/Base/Dict.antt =====
-- Go's `map[string]string` as the list of its entries.
use Prim.Native.String.{String}
use mathlib.Core.Path.{◌≡◌, refl}
use mathlib.Core.List.{List, [], ◌∷◌}
use mathlib.Core.Option.{Option, none, some}
use native.Mathlib.Omega.{arith}
use text.Mathlib.Text.{◌==◌ as str_eq}
use text.Mathlib.TextEquality.{eq_iff}
use kube_nas.Base.Tests.{if◌then◌else◌}

-- `m[key]` with its second result.
unfoldable pub entry : List (String × String) → String → Option String
entry [] key = none
entry ((k, v) ∷ m) key = if str_eq k key then some v else entry m key

-- `m[key]` alone: the empty text if the key is missing.
unfoldable pub entry_or_empty : List (String × String) → String → String
unfolding entry
entry_or_empty m key = elim (entry m key) [ none ↦ "" | some v ↦ v ]

-- `m[key] = value` on a map that was made.
unfoldable pub set_entry : List (String × String) → String → String → List (String × String)
set_entry [] key value = (key, value) ∷ []
set_entry ((k, v) ∷ m) key value =
    let rest = set_entry m key value in if str_eq k key then (k, value) ∷ m else (k, v) ∷ rest

-- After an assignment the key has the value, and every other key what it had.
pub entry-set_entry :
    (m : List (String × String)) (key value other : String)
    → entry (set_entry m key value) other ≡ (if str_eq key other then some value else entry m other)
unfolding entry set_entry
entry-set_entry [] key value other = refl
entry-set_entry ((k, v) ∷ m) key value other =
    ground
      (arith, entry-set_entry m key value other, eq_iff k key, eq_iff k other, eq_iff key other)

pub entry_or_empty-set_entry :
    (m : List (String × String)) (key value other : String)
    → entry_or_empty (set_entry m key value) other
      ≡ (if str_eq key other then value else entry_or_empty m other)
unfolding entry_or_empty
entry_or_empty-set_entry m key value other = ground (arith, entry-set_entry m key value other)
