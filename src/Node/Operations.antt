-- ===== src/Node/Operations.antt =====
-- The operations that the node agent executes (node-agent/cmd/kubenas-node-agent/main.go).
pub mod Outcome
pub mod Conflict
use kube_nas.Base.{
  ℕ, String, ◌<>◌, Bool, true, false, Option, none, some, List, [], ◌∷◌, if◌then◌else◌, str_eq,
}
use kube_nas.Base.Dict.{entry_or_empty, set_entry}
use kube_nas.Base.Text.{is_empty}
use kube_nas.Base.Outcome.{Error, Result, ok, err, errorf}
use kube_nas.Cluster.{ConfigMap, Object, Kind, Call, Cluster, Action, pure, ◌>>=◌, send, clock}
use kube_nas.Node.Host.{Host}
use kube_nas.Node.Disk.{mount_device, unmount_device, ensure_fstab_entry, mount_mergerfs}
use kube_nas.Node.Agent.{MountRequest, Json, NodeAgent}

-- The second result of `processedOperations[opID]`.
unfoldable pub has_seen : List (String × ℕ) → String → Bool
has_seen [] id = false
has_seen ((k, at) ∷ seen) id = if str_eq k id then true else has_seen seen id

unfoldable pub operation_id : ConfigMap → String
operation_id cm =
    let given = entry_or_empty cm.entries "operationID" in
    if is_empty given then cm.meta.name else given

abbrev pub with_state : String → String → ConfigMap → ConfigMap
with_state state message cm = record cm {
  entries = set_entry (set_entry cm.entries "status.state" state) "status.message" message;
}

unfoldable pub running : ConfigMap → ConfigMap
running cm = with_state "Running" "operation in progress" cm

unfoldable pub ended : Option Error → ConfigMap → ConfigMap
ended (some x) cm = with_state "Failed" x.message cm
ended none cm = with_state "Success" "completed" cm

-- `err` of a payload that cannot be read, else what its operation returns.
abbrev pub with_payload :
    {F A : Type 0} → Result A → (A → Action F (Option Error)) → Action F (Option Error)
with_payload (err x) act = pure (some x)
with_payload (ok a) act = act a

module _ {F : Type 0} (H : Host F) where
  unfoldable pub perform_mount : MountRequest → Action F (Option Error)
  perform_mount q = mount_device H q.device_path q.mount_point q.filesystem >>= λ e. elim e [
    | some x ↦ pure (some x)
    | none ↦ ensure_fstab_entry H q.device_path q.mount_point q.filesystem "defaults"
  ]

module _ {F : Type 0} (H : Host F) (json : Json F) where
  -- The switch over the type of the operation.
  unfoldable pub perform : String → String → Action F (Option Error)
  perform op_type payload =
      if str_eq op_type "mount"
      then with_payload (json.read_mount payload) (perform_mount H)
      else if str_eq op_type "unmount"
      then with_payload (json.read_unmount payload) (λ q. unmount_device H q.mount_point)
      else if str_eq op_type "mergerfs-mount"
      then with_payload (json.read_mergerfs payload) (λ q.
        mount_mergerfs H q.branches q.mount_point q.category_create q.min_free_space
          q.extra_options)
      else pure (some (errorf ("unknown operation type " <> op_type)))

  module _ (C : Cluster F) where
    -- An operation that was not seen. The errors of both writes are dropped.
    unfoldable pub execute_new : NodeAgent → ConfigMap → Action F NodeAgent
    execute_new a cm = do
      let op_type = entry_or_empty cm.entries "operation"
      let started = running cm
      first ← send C (Call.update (Object.config_map started))
      e ← perform op_type (entry_or_empty started.entries "payload")
      at ← clock C
      second ← send C (Call.update (Object.config_map (ended e started)))
      pure (record a { processed_operations = (operation_id cm, at) ∷ a.processed_operations })

    -- An assignment to the `Data` of a ConfigMap that has none panics.
    unfoldable pub execute_operation : NodeAgent → ConfigMap → Action F (Option NodeAgent)
    execute_operation a cm =
        if has_seen a.processed_operations (operation_id cm)
        then pure (some a)
        else elim cm.entries [ [] ↦ pure none | e ∷ es ↦ execute_new a cm >>= λ a'. pure (some a') ]

    unfoldable pub execute_all : NodeAgent → List ConfigMap → Action F (Option NodeAgent)
    execute_all a [] = pure (some a)
    execute_all a (cm ∷ cms) =
        execute_operation a cm >>= λ r. elim r [ none ↦ pure none | some a' ↦ execute_all a' cms ]

    unfoldable pub process_operation_requests : NodeAgent → Action F (Option NodeAgent)
    process_operation_requests a t =
        let labels = ("kubenas.io/agent-op", "true") ∷ ("kubenas.io/node", a.node_name) ∷ [] in
        let t' = Call.list Kind.config_maps a.namespace labels ∷ t in
        elim (C.config_maps t a.namespace labels) [
          | err x ↦ (some a, t')
          | ok cms ↦ execute_all a cms t'
        ]
