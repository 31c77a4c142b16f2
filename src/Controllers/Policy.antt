-- ===== src/Controllers/Policy.antt =====
-- controllers/placementpolicy_controller.go. `marshal` is `json.Marshal`, whose error is dropped.
pub mod Laws
use kube_nas.Base.{
  ℕ, String, ◌<>◌, Bool, true, false, Option, none, some, List, [], ◌∷◌, is_nil, if◌then◌else◌,
  str_eq,
}
use kube_nas.Base.Dict.{set_entry}
use kube_nas.Base.Outcome.{Error, Result, ok, err, is_not_found}
use kube_nas.Api.Meta.{Key}
use kube_nas.Api.Placement.{PlacementPolicy, PlacementPolicySpec}
use kube_nas.Cluster.{
  ConfigMap, Object, Kind, Call, Cluster, Trace, Action, pure, ◌>>=◌, fetch, send, Reconciled,
  finished,
}
use kube_nas.Controllers.Failure.{new_meta}

abbrev pub policy_key : String → Key
policy_key namespace = record { name = "kubenas-placement-policy"; namespace = namespace }

module _ {F : Type 0} (C : Cluster F) (marshal : PlacementPolicySpec F → String) where
  -- `return ctrl.Result{}, err`.
  abbrev returned : Option Error → Option Reconciled
  returned none = some finished
  returned (some x) = some (err x)

  -- What follows the fetch. Any error of the second read counts as `not found`. `none` is the panic of
  -- the assignment to a map that was never made, which is what a ConfigMap without data has.
  unfoldable pub publish_policy : String → PlacementPolicy F → Action F (Option Reconciled)
  publish_policy namespace policy = do
    found ← fetch Kind.config_maps C.config_map (policy_key namespace)
    elim found [
      | err x ↦
          send C (
            Call.create (
              Object.config_map (record {
                meta = new_meta "kubenas-placement-policy" namespace;
                entries = ("policy", marshal policy.spec) ∷ ("generation", "1") ∷ [];
              })))
          >>= λ e. pure (returned e)
      | ok cm ↦
          if is_nil cm.entries
          then pure none
          else (send C (
                Call.update (
                  Object.config_map
                    (record cm { entries = set_entry cm.entries "policy" (marshal policy.spec) })))
              >>= λ e. pure (returned e))
    ]

  unfoldable pub reconcile : Key → Action F (Option Reconciled)
  reconcile key = do
    found ← fetch Kind.placement_policies C.placement_policy key
    elim found [
      | err x ↦ pure (some (if is_not_found x then finished else err x))
      | ok policy ↦ publish_policy key.namespace policy
    ]
