-- ===== src/Base/Path.antt =====
-- `filepath.Join` and `filepath.Clean` of Go on a system whose separator is the slash.
pub mod Below
use Prim.Native.String.{String, ◌++◌ as ◌<>◌}
use Prim.Native.Char.{code}
use mathlib.Core.Bool.{Bool, true, false, ◌&&◌, ◌||◌, not}
use mathlib.Core.List.{List, [], ◌∷◌, ◌++◌}
use text.Mathlib.Text.{◌==◌ as str_eq}
use kube_nas.Base.Tests.{◌==◌, if◌then◌else◌}
use kube_nas.Base.Text.{is_empty, join}
use kube_nas.Base.Fields.{split_onto}

unfoldable pub is_rooted : String → Bool
is_rooted String.[] = false
is_rooted (String.◌∷◌ c s) = code c == 47

abbrev pub pieces : String → List String
pieces path = split_onto 47 "" path

-- A piece that names nothing: the empty one, and the directory itself.
abbrev pub is_void : String → Bool
is_void p = is_empty p || str_eq p "."

unfoldable pub without_last : List String → List String
without_last [] = []
without_last (p ∷ []) = []
without_last (p ∷ q ∷ ps) = p ∷ without_last (q ∷ ps)

-- Whether there is a last piece that is a name, from which `..` leads back.
unfoldable pub ends_in_name : List String → Bool
ends_in_name [] = false
ends_in_name (p ∷ []) = not (str_eq p "..")
ends_in_name (p ∷ q ∷ ps) = ends_in_name (q ∷ ps)

-- What `..` makes of the pieces so far: a path without a root keeps those that lead above its start.
unfoldable pub back : Bool → List String → List String
back rooted out =
    if ends_in_name out then without_last out else if rooted then out else out ++ (".." ∷ [])

-- The loop of `Clean` over the pieces, with what it has written so far.
unfoldable pub clean_onto : Bool → List String → List String → List String
clean_onto rooted out [] = out
clean_onto rooted out (p ∷ ps) =
    let same = clean_onto rooted out ps in
    let up = clean_onto rooted (back rooted out) ps in
    let down = clean_onto rooted (out ++ (p ∷ [])) ps in
    if is_void p then same else if str_eq p ".." then up else down

abbrev pub absolute : List String → String
absolute ps = "/" <> join ps "/"

unfoldable pub relative : List String → String
relative [] = "."
relative (p ∷ ps) = join (p ∷ ps) "/"

unfoldable pub clean : String → String
clean path =
    if is_rooted path
    then absolute (clean_onto true [] (pieces path))
    else relative (clean_onto false [] (pieces path))

-- The empty elements at the front are left out.
unfoldable pub join_path : List String → String
join_path [] = ""
join_path (e ∷ es) =
    let rest = join_path es in if is_empty e then rest else clean (join (e ∷ es) "/")
