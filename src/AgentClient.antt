-- ===== src/AgentClient.antt =====
-- controllers/kubernetes_agent_client.go: the agent's interface over ConfigMaps. `namespace` is the
-- result of `operatorNamespace()`. The JSON of encoding/json is the parameter `Codec`.
pub mod Snapraid
pub mod Keeps
pub mod Waiting
pub mod Acknowledged
use kube_nas.Base.{
  ℕ, zero, suc, ◌/◌, ◌^◌, String, ◌<>◌, Bool, true, false, Option, none, some, List, [], ◌∷◌,
  if◌then◌else◌, str_eq,
}
use kube_nas.Base.Int.{pos}
use kube_nas.Base.Float.{Float64}
use kube_nas.Base.Dict.{entry, entry_or_empty}
use kube_nas.Base.Text.{decimal, replace_char}
use kube_nas.Base.Outcome.{Error, Result, ok, err, errorf, is_not_found}
use kube_nas.Api.Meta.{Key, ObjectMeta}
use kube_nas.Cluster.{ConfigMap}
use kube_nas.Cluster.{Object, Kind, Call, Cluster, Action, pure, ◌>>=◌, ◌>>◌, fetch, send, clock}
use kube_nas.Agent.{
  NodeAgentClient, DiskAgentStatus, DiskIoStats, MountDiskRequest, MergerfsMountRequest,
  SnapraidConfig, AgentOperationStatus,
}
use kube_nas.Controllers.Failure.{new_meta}
use kube_nas.AgentClient.Snapraid.{render_snapraid_conf}

-- What is posted as the payload of an operation.
pub data Payload : Type 0 where
  mount : MountDiskRequest → Payload
  unmount : String → Payload
  mergerfs : MergerfsMountRequest → Payload
  nothing : Payload

pub record Codec (F : Type 0) : Type 0 where
  pub marshal : Payload → Result String
  pub read_status : String → Result (DiskAgentStatus F)
  pub read_io_stats : String → Result DiskIoStats

unfoldable pub sanitize_device_path : String → String
sanitize_device_path path = replace_char path "/" "_"

abbrev pub labelled : String → String → List (String × String) → ObjectMeta
labelled name namespace labels = record (new_meta name namespace) { labels = labels }

abbrev pub no_io_stats : DiskIoStats
no_io_stats = record {
  reads_completed = pos 0;
  writes_completed = pos 0;
  read_bytes = pos 0;
  write_bytes = pos 0;
  io_in_progress = pos 0;
  io_time_ms = pos 0;
}

module _ {F : Type 0} (fl : Float64 F) where
  abbrev pub unknown_status : String → DiskAgentStatus F
  unknown_status path = record {
    device_path = path;
    capacity_bytes = pos 0;
    available_bytes = pos 0;
    health_score = fl.literal 10 1;
    smart_summary = "";
    serial_number = "";
    model = "";
    rotational = false;
    mounted = false;
    smart_failed = false;
    io_errors = pos 0;
    last_checked = 0;
  }

abbrev pub status_of : String → ConfigMap → AgentOperationStatus
status_of name cm = record {
  operation_id = name;
  state = entry_or_empty cm.entries "status.state";
  message = entry_or_empty cm.entries "status.message";
}

unfoldable pub operation_map : String → String → String → String → String → ConfigMap
operation_map namespace name node op_type text = record {
  meta = labelled name namespace (
      ("kubenas.io/agent-op", "true")
      ∷ ("kubenas.io/node", node)
      ∷ ("kubenas.io/op-type", op_type)
      ∷ []);
  entries =
      ("operationID", name)
      ∷ ("operation", op_type)
      ∷ ("node", node)
      ∷ ("payload", text)
      ∷ ("status.state", "Pending")
      ∷ ("status.message", "queued")
      ∷ [];
}

abbrev pub error_of : {A : Type 0} → Result A → Option Error
error_of (ok a) = none
error_of (err x) = some x

module _ {F : Type 0} (C : Cluster F) (namespace : String) where
  abbrev pub config_map_at : String → Action F (Result ConfigMap)
  config_map_at name =
      fetch Kind.config_maps C.config_map (record { name = name; namespace = namespace })

  -- The `select` after a round: two seconds, unless the context is done.
  unfoldable pub pause : Action F (Option Error)
  pause t = let t' = Call.sleep 2 ∷ t in (C.done t', t')

  -- `n` rounds are left.
  unfoldable pub wait_rounds : ℕ → String → Action F (Result AgentOperationStatus)
  wait_rounds zero name = pure (err (errorf ("operation " <> (name <> " timed out"))))
  wait_rounds (suc n) name =
      let next : Action F (Result AgentOperationStatus) =
        pause >>= λ e. elim e [ some x ↦ pure (err x) | none ↦ wait_rounds n name ] in
      config_map_at name >>= λ found. elim found [
        | err x ↦ if is_not_found x then next else pure (err x)
        | ok cm ↦
            let st = status_of name cm in
            if str_eq st.state "Success"
            then pure (ok st)
            else if str_eq st.state "Failed"
            then pure (err (errorf ("operation " <> (name <> (" failed: " <> st.message)))))
            else next
      ]

  unfoldable pub wait_for_operation_state : String → Action F (Result AgentOperationStatus)
  wait_for_operation_state name = wait_rounds 24 name

  unfoldable pub apply_snapraid_config : String → SnapraidConfig → Action F (Option Error)
  apply_snapraid_config node cfg =
      let name = "kubenas-snapraid-" <> node in
      let entries = ("snapraid.conf", render_snapraid_conf cfg) ∷ [] in
      config_map_at name >>= λ found. elim found [
        | err x ↦
            if is_not_found x
            then send C (
                Call.create (
                  Object.config_map (record {
                    meta =
                        labelled name namespace
                          (("kubenas.io/snapraid-config", "true") ∷ ("kubenas.io/node", node) ∷ []);
                    entries = entries;
                  })))
            else pure (some x)
        | ok existing ↦
            send C (Call.update (Object.config_map (record existing { entries = entries })))
      ]

module _ {F : Type 0} (C : Cluster F) (codec : Codec F) (namespace : String) where
  unfoldable pub get_disk_status :
      Float64 F → String → String → Action F (Result (DiskAgentStatus F))
  get_disk_status fl node path = do
    found ← config_map_at C namespace ("kubenas-diskstatus-" <> node)
    pure (elim found [
      | err x ↦ if is_not_found x then ok (unknown_status fl path) else err x
      | ok cm ↦ elim (entry cm.entries (sanitize_device_path path)) [
        | none ↦ ok (unknown_status fl path)
        | some text ↦ codec.read_status text
      ]
    ])

  unfoldable pub get_disk_io_stats : String → String → Action F (Result DiskIoStats)
  get_disk_io_stats node path = do
    found ← config_map_at C namespace ("kubenas-diskstatus-" <> (node <> "-io"))
    pure (elim found [
      | err x ↦ ok no_io_stats
      | ok cm ↦ elim (entry cm.entries (sanitize_device_path path)) [
        | none ↦ ok no_io_stats
        | some text ↦ elim (codec.read_io_stats text) [ err x ↦ ok no_io_stats | ok s ↦ ok s ]
      ]
    ])

  -- The name holds the milliseconds of the clock.
  unfoldable pub post_agent_op : String → String → Payload → Action F (Result String)
  post_agent_op node op_type payload = elim (codec.marshal payload) [
    | err x ↦ pure (err x)
    | ok text ↦ do
      at ← clock C
      let name = "kubenas-agentop-" <> (node <> ("-" <> decimal (at / 10 ^ 6)))
      e ← send C (Call.create (Object.config_map (operation_map namespace name node op_type text)))
      pure (elim e [ some x ↦ err x | none ↦ ok name ])
  ]

  -- An operation that is posted and waited for.
  unfoldable pub run_operation : String → String → Payload → Action F (Result AgentOperationStatus)
  run_operation node op_type payload = do
    posted ← post_agent_op node op_type payload
    elim posted [ err x ↦ pure (err x) | ok name ↦ wait_for_operation_state C namespace name ]

  unfoldable pub mount_disk : String → MountDiskRequest → Action F (Option Error)
  mount_disk node q = do r ← run_operation node "mount" (mount q); pure (error_of r)

  unfoldable pub unmount_disk : String → String → Action F (Option Error)
  unmount_disk node mount_point = do
    r ← run_operation node "unmount" (unmount mount_point)
    pure (error_of r)

  unfoldable pub run_parity_operation : String → String → Action F (Option Error)
  run_parity_operation node operation = do
    r ← run_operation node ("parity-" <> operation) nothing
    pure (error_of r)

  unfoldable pub ensure_mergerfs_mount : String → MergerfsMountRequest → Action F (Result Bool)
  ensure_mergerfs_mount node q = do
    r ← run_operation node "mergerfs-mount" (mergerfs q)
    pure (elim r [ err x ↦ err x | ok st ↦ ok (str_eq st.state "Success") ])

  -- `NewKubernetesAgentClient`.
  unfoldable pub kubernetes_agent_client : Float64 F → NodeAgentClient F
  kubernetes_agent_client fl = record {
    get_disk_status = get_disk_status fl;
    mount_disk = mount_disk;
    unmount_disk = unmount_disk;
    apply_snapraid_config = apply_snapraid_config C namespace;
    ensure_mergerfs_mount = ensure_mergerfs_mount;
    run_parity_operation = run_parity_operation;
    get_disk_io_stats = get_disk_io_stats;
    wait_for_operation = wait_for_operation_state C namespace;
  }
