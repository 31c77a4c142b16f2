-- ===== src/Base/Path/Below.antt =====
-- A path that is joined of a root and of elements without `..` lies below the root.
use Prim.Native.String.{String, ◌++◌ as ◌<>◌}
use Prim.Native.Char.{Char, char}
use mathlib.Core.Path.{◌≡◌, refl, ap, ◌∙◌, sym}
use mathlib.Core.Bool.{Bool, true, false}
use mathlib.Core.List.{List, [], ◌∷◌, ◌++◌}
use native.Mathlib.Omega.{arith}
use text.Mathlib.Text.{◌==◌ as str_eq}
use text.Mathlib.TextLemmas.{nil-append, cons-append}
use kube_nas.Base.Tests.{if◌then◌else◌}
use kube_nas.Base.Lists.{append_list_assoc, append_list-nil}
use kube_nas.Base.Text.{is_empty, join}
use kube_nas.Base.Fields.Split.{split_onto-append}
use kube_nas.Base.Path.{is_rooted, pieces, is_void, back, clean_onto, absolute, clean, join_path}

-- No piece leads back.
unfoldable pub stays : List String → Bool
stays [] = true
stays (p ∷ ps) = if str_eq p ".." then false else stays ps

-- The pieces that name something.
unfoldable pub named : List String → List String
named [] = []
named (p ∷ ps) = let rest = named ps in if is_void p then rest else p ∷ rest

clean_onto-append :
    (rooted : Bool) (a b out : List String)
    → clean_onto rooted out (a ++ b) ≡ clean_onto rooted (clean_onto rooted out a) b
unfolding clean_onto
clean_onto-append rooted [] b out = refl
clean_onto-append rooted (p ∷ a) b out = ground (
  arith,
  clean_onto-append rooted a b out,
  clean_onto-append rooted a b (out ++ (p ∷ [])),
  clean_onto-append rooted a b (back rooted out),
)

clean_onto-stays :
    (rooted : Bool) (ps out : List String)
    → stays ps ≡ true
    → clean_onto rooted out ps ≡ out ++ named ps
unfolding clean_onto stays named
clean_onto-stays rooted [] out h = sym (append_list-nil out)
clean_onto-stays rooted (p ∷ ps) out h = ground (
  arith,
  h,
  clean_onto-stays rooted ps out,
  clean_onto-stays rooted ps (out ++ (p ∷ [])),
  append_list_assoc out (p ∷ []) (named ps),
)

abbrev slash : Char
slash = char 47 tt

slash-append : (s : String) → "/" <> s ≡ String.◌∷◌ slash s
slash-append s = cons-append slash "" s ∙ ap (String.◌∷◌ slash) (nil-append s)

pieces-slash : (a b : String) → pieces (a <> ("/" <> b)) ≡ pieces a ++ pieces b
pieces-slash a b =
    ap (λ s. pieces (a <> s)) (slash-append b) ∙ split_onto-append 47 slash refl a b ""

pieces-join :
    (root a b : String)
    → pieces (join (root ∷ a ∷ b ∷ []) "/") ≡ pieces root ++ (pieces a ++ pieces b)
unfolding join
pieces-join root a b =
    pieces-slash root (a <> ("/" <> b)) ∙ ap (λ ps. pieces root ++ ps) (pieces-slash a b)

is_rooted-append : (root s : String) → is_rooted root ≡ true → is_rooted (root <> s) ≡ true
unfolding is_rooted
is_rooted-append String.[] s h = cc
is_rooted-append (String.◌∷◌ c root) s h = rw (cons-append c root s) h

join_path-rooted :
    (root a b : String)
    → is_rooted root ≡ true
    → join_path (root ∷ a ∷ b ∷ [])
      ≡ absolute (clean_onto true [] (pieces (join (root ∷ a ∷ b ∷ []) "/")))
unfolding join_path is_empty clean join is_rooted
join_path-rooted String.[] a b h = cc
join_path-rooted (String.◌∷◌ c root) a b h =
    ground (arith, is_rooted-append (String.◌∷◌ c root) ("/" <> (a <> ("/" <> b))) h)

-- The path is the cleaned root, and then the names of the two elements.
pub join_path-Below :
    (root a b : String)
    → is_rooted root ≡ true
    → stays (pieces a) ≡ true
    → stays (pieces b) ≡ true
    → join_path (root ∷ a ∷ b ∷ [])
      ≡ absolute ((clean_onto true [] (pieces root) ++ named (pieces a)) ++ named (pieces b))
join_path-Below root a b rooted ha hb =
    join_path-rooted root a b rooted
    ∙ ap absolute (
        ap (clean_onto true []) (pieces-join root a b)
        ∙ clean_onto-append true (pieces root) (pieces a ++ pieces b) []
        ∙ clean_onto-append true (pieces a) (pieces b) (clean_onto true [] (pieces root))
        ∙ clean_onto-stays true (pieces b) _ hb
        ∙ ap (λ ps. ps ++ named (pieces b)) (clean_onto-stays true (pieces a) _ ha))
