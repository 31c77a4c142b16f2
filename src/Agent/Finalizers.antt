-- ===== src/Agent/Finalizers.antt =====
-- `containsString` and `removeString` of controllers/agent_client.go as operations on a set of texts.
use kube_nas.Base.{
  String, true, false, List, [], ◌∷◌, ◌++◌, ◌≡◌, refl, not, ◌&&◌, arith, str_eq, eq_iff,
}
use kube_nas.Agent.Helpers.{contains_string, remove_string}

pub contains_string-append_self :
    (xs : List String) (s : String) → contains_string (xs ++ (s ∷ [])) s ≡ true
unfolding contains_string
contains_string-append_self [] s = ground (arith, eq_iff s s)
contains_string-append_self (x ∷ xs) s = ground (arith, contains_string-append_self xs s)

-- Removing `s` takes every copy of it, and leaves all else.
pub contains_string-remove_string :
    (xs : List String) (s x : String)
    → contains_string (remove_string xs s) x ≡ (not (str_eq s x) && contains_string xs x)
unfolding contains_string remove_string
contains_string-remove_string [] s x = ground arith
contains_string-remove_string (y ∷ xs) s x =
    ground (arith, contains_string-remove_string xs s x, eq_iff y s, eq_iff s x, eq_iff y x)

pub remove_string-append :
    (xs ys : List String) (s : String)
    → remove_string (xs ++ ys) s ≡ remove_string xs s ++ remove_string ys s
unfolding remove_string
remove_string-append [] ys s = refl
remove_string-append (x ∷ xs) ys s = ground (arith, remove_string-append xs ys s)

-- Taking a finalizer out that was not there changes nothing.
pub remove_string_absent :
    (xs : List String) (s : String) → contains_string xs s ≡ false → remove_string xs s ≡ xs
unfolding contains_string remove_string
remove_string_absent [] s h = refl
remove_string_absent (x ∷ xs) s h = ground (arith, remove_string_absent xs s)

-- Adding a finalizer at the end, as `Reconcile` does, and removing it gives the list back.
pub remove_string-append_self :
    (xs : List String) (s : String)
    → contains_string xs s ≡ false
    → remove_string (xs ++ (s ∷ [])) s ≡ xs
unfolding contains_string remove_string
remove_string-append_self [] s h = ground (arith, eq_iff s s)
remove_string-append_self (x ∷ xs) s h = ground (arith, remove_string-append_self xs s)
