-- ===== src/Controllers/Policy/Laws.antt =====
-- The ConfigMap that a PlacementPolicy is published in (controllers/placementpolicy_controller.go).
use kube_nas.Base.{
  String, true, none, some, [], ◌∷◌, is_nil, str_eq, ◌≡◌, refl, arith, inl, inr, ◌⊎◌, Bool-cases,
}
use kube_nas.Base.Outcome.{Error, ok, err, Result-cases}
use kube_nas.Api.Placement.{PlacementPolicy, PlacementPolicySpec}
use kube_nas.Cluster.{ConfigMap, Object, Kind, Call, Cluster, Trace}
use kube_nas.Base.Dict.{entry, set_entry, entry-set_entry}
use kube_nas.Controllers.Failure.{new_meta}
use kube_nas.Controllers.Policy.{policy_key, publish_policy}

module _ {F : Type 0} (C : Cluster F) (marshal : PlacementPolicySpec F → String) where
  -- Whatever the second read answers, unless it is a ConfigMap without data, one ConfigMap is written
  -- last, and it has the policy's text under `policy`. If the ConfigMap was there, its other entries
  -- and its metadata stay.
  pub publish_policy_writes :
      (namespace : String) (policy : PlacementPolicy F) (t : Trace F) (other : String)
      → ((x : Error) × (C.config_map t (policy_key namespace) ≡ err x)
          × (cm : ConfigMap) × ((publish_policy C marshal namespace policy t).1
              ≡ Call.create (Object.config_map cm)
                ∷ Call.read Kind.config_maps (policy_key namespace)
                ∷ t)
          × (entry cm.entries "policy" ≡ some (marshal policy.spec)))
        ⊎ ((old : ConfigMap) × (C.config_map t (policy_key namespace) ≡ ok old)
            × (((is_nil old.entries ≡ true)
                  × ((publish_policy C marshal namespace policy t).0 ≡ none))
                ⊎ ((cm : ConfigMap) × ((publish_policy C marshal namespace policy t).1
                      ≡ Call.update (Object.config_map cm)
                        ∷ Call.read Kind.config_maps (policy_key namespace)
                        ∷ t)
                    × (entry cm.entries "policy" ≡ some (marshal policy.spec))
                    × (cm.meta ≡ old.meta)
                    × ((str_eq "policy" other ≡ true)
                        ⊎ (entry cm.entries other ≡ entry old.entries other)))))
  unfolding publish_policy entry
  publish_policy_writes namespace policy t other =
      elim (Result-cases (C.config_map t (policy_key namespace))) [
        | inl (x, e) ↦ inl (
          x,
          e,
          record {
            meta = new_meta "kubenas-placement-policy" namespace;
            entries = ("policy", marshal policy.spec) ∷ ("generation", "1") ∷ [];
          },
          ground arith,
          refl,
        )
        | inr (old, e) ↦ inr (
          old,
          e,
          elim (Bool-cases (is_nil old.entries)) [
            | inl bare ↦ inl (bare, ground arith)
            | inr made ↦ inr (
              record old { entries = set_entry old.entries "policy" (marshal policy.spec) },
              ground arith,
              entry-set_entry old.entries "policy" (marshal policy.spec) "policy",
              refl,
              (elim (Bool-cases (str_eq "policy" other)) [
                | inl same ↦ inl same
                | inr differs ↦ inr (
                    ground
                      (arith, entry-set_entry old.entries "policy" (marshal policy.spec) other))
              ]),
            )
          ],
        )
      ]
