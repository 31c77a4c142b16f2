-- ===== src/Agent/Helpers.antt =====
-- `setCondition`, `containsString` and `removeString` of controllers/agent_client.go.
use kube_nas.Base.{String, Bool, false, List, [], ◌∷◌, str_eq, if◌then◌else◌, ◌||◌}
use kube_nas.Api.Meta.{Condition}

-- The first condition of the new one's type is replaced; if there is none, the new one comes last.
unfoldable pub set_condition : List Condition → Condition → List Condition
set_condition [] new = new ∷ []
set_condition (c ∷ cs) new = if str_eq c.type new.type then new ∷ cs else c ∷ set_condition cs new

-- `(*conditions)[len(*conditions)-1].Status = metav1.ConditionFalse`, after an append.
unfoldable pub fail_last : List Condition → List Condition
fail_last [] = []
fail_last (c ∷ []) = record c { status = false } ∷ []
fail_last (c ∷ d ∷ cs) = c ∷ fail_last (d ∷ cs)

unfoldable pub contains_string : List String → String → Bool
contains_string [] s = false
contains_string (item ∷ slice) s = str_eq item s || contains_string slice s

unfoldable pub remove_string : List String → String → List String
remove_string [] s = []
remove_string (item ∷ slice) s =
    let result = remove_string slice s in if str_eq item s then result else item ∷ result
