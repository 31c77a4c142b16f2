-- ===== src/Agent/Conditions.antt =====
-- `setCondition` of controllers/agent_client.go keeps a map from types to conditions, and the write to
-- the last entry that follows it in three controllers.
use kube_nas.Base.{
  String, true, false, Option, none, some, List, [], ◌∷◌, ◌++◌, map, ◌≡◌, refl, arith, str_eq,
  eq_iff, if◌then◌else◌, Bool-cases, inl, inr,
}
use mathlib.Core.List.{append_assoc}
use kube_nas.Api.Meta.{Condition}
use kube_nas.Agent.Helpers.{set_condition, fail_last, contains_string}

-- The condition that a reader of the map finds under a type.
unfoldable pub find_condition : List Condition → String → Option Condition
find_condition [] type = none
find_condition (c ∷ cs) type = if str_eq c.type type then some c else find_condition cs type

abbrev pub types : List Condition → List String
types = map (λ c. c.type)

-- After `set_condition` the new condition is found under its type, and every other type is found as it
-- was before.
pub find_condition-set_condition :
    (cs : List Condition) (new : Condition) (type : String)
    → find_condition (set_condition cs new) type
      ≡ (if str_eq new.type type then some new else find_condition cs type)
unfolding find_condition set_condition
find_condition-set_condition [] new type = refl
find_condition-set_condition (c ∷ cs) new type = ground (
  arith,
  find_condition-set_condition cs new type,
  eq_iff c.type new.type,
  eq_iff c.type type,
  eq_iff new.type type,
)

-- The types stay as they are and in their order, but for a new one, which comes last. So types that
-- are distinct stay distinct.
pub types-set_condition :
    (cs : List Condition) (new : Condition)
    → types (set_condition cs new)
      ≡ (if contains_string (types cs) new.type then types cs else types cs ++ (new.type ∷ []))
unfolding contains_string set_condition
types-set_condition [] new = refl
types-set_condition (c ∷ cs) new =
    ground (arith, types-set_condition cs new, eq_iff c.type new.type)

-- The list of conditions as a map, after a condition was set: it is found under its type, and every
-- other type is found as it was before; the types are what they were, in their order, with a new one at
-- the end. So types that are distinct stay distinct.
pub set_condition_lem :
    (cs : List Condition) (new : Condition)
    → ((type : String)
        → find_condition (set_condition cs new) type
          ≡ (if str_eq new.type type then some new else find_condition cs type))
      × (types (set_condition cs new)
          ≡ (if contains_string (types cs) new.type then types cs else types cs ++ (new.type ∷ [])))
set_condition_lem cs new = (find_condition-set_condition cs new, types-set_condition cs new)

fail_last-append :
    (cs : List Condition) (c : Condition)
    → fail_last (cs ++ (c ∷ [])) ≡ cs ++ (record c { status = false } ∷ [])
unfolding fail_last
fail_last-append [] c = refl
fail_last-append (d ∷ []) c = refl
fail_last-append (d ∷ e ∷ cs) c = ground (arith, fail_last-append (e ∷ cs) c)

set_condition-append :
    (cs ds : List Condition) (new : Condition)
    → contains_string (types cs) new.type ≡ true
    → set_condition (cs ++ ds) new ≡ set_condition cs new ++ ds
unfolding set_condition contains_string
set_condition-append [] ds new h = cc
set_condition-append (c ∷ cs) ds new h = ground (arith, set_condition-append cs ds new)

set_condition-append_absent :
    (cs ds : List Condition) (new : Condition)
    → contains_string (types cs) new.type ≡ false
    → set_condition (cs ++ ds) new ≡ cs ++ set_condition ds new
unfolding set_condition contains_string
set_condition-append_absent [] ds new h = refl
set_condition-append_absent (c ∷ cs) ds new h =
    ground (arith, set_condition-append_absent cs ds new)

find_condition-append :
    (cs ds : List Condition) (type : String)
    → find_condition (cs ++ ds) type
      ≡ (if contains_string (types cs) type then find_condition cs type else find_condition ds type)
unfolding find_condition contains_string
find_condition-append [] ds type = refl
find_condition-append (c ∷ cs) ds type = ground (arith, find_condition-append cs ds type)

fail_last-set_condition_found :
    (cs : List Condition) (d new : Condition)
    → contains_string (types cs) new.type ≡ true
    → find_condition (fail_last (set_condition (cs ++ (d ∷ [])) new)) new.type ≡ some new
fail_last-set_condition_found cs d new h =
    rw (set_condition-append cs (d ∷ []) new h, fail_last-append, find_condition-append)
      (ground (
        arith,
        types-set_condition cs new,
        find_condition-set_condition cs new new.type,
        eq_iff new.type new.type,
      ))

fail_last-set_condition_last :
    (cs : List Condition) (d new : Condition)
    → contains_string (types cs) new.type ≡ false
    → find_condition (fail_last (set_condition (cs ++ (d ∷ [])) new)) new.type
      ≡ some (record new { status = false })
unfolding set_condition find_condition contains_string
fail_last-set_condition_last cs d new h =
    rw (set_condition-append_absent cs (d ∷ []) new h) (elim (Bool-cases (str_eq d.type new.type)) [
      | inl same ↦
          rw same (
            rw (fail_last-append, find_condition-append) (ground (arith, eq_iff new.type new.type)))
      | inr other ↦ rw other (
          rw (← append_assoc cs (d ∷ []) (new ∷ [])) (
            rw (fail_last-append (cs ++ (d ∷ [])) new, append_assoc, find_condition-append)
              (ground (arith, eq_iff new.type new.type))))
    ])

-- What the code does when it sets a condition to true and then writes false to the last entry of the
-- list, where some list came before an entry `d`: the condition ends false exactly if no entry ahead of
-- the last has its type. If one has, the condition stays as it was set.
pub fail_last-set_condition :
    (cs : List Condition) (d new : Condition)
    → find_condition (fail_last (set_condition (cs ++ (d ∷ [])) new)) new.type
      ≡ some (if contains_string (types cs) new.type then new else record new { status = false })
fail_last-set_condition cs d new = elim (Bool-cases (contains_string (types cs) new.type)) [
  | inl found ↦ rw found (fail_last-set_condition_found cs d new found)
  | inr absent ↦ rw absent (fail_last-set_condition_last cs d new absent)
]
