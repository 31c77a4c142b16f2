-- ===== src/Node/Discovery.antt =====
-- The reports of the node agent (node-agent/cmd/kubenas-node-agent/main.go).
use kube_nas.Base.{String, ◌<>◌, false, Option, List, [], ◌∷◌, not, ◌||◌, if◌then◌else◌}
use kube_nas.Base.Int.{ℤ, pos}
use kube_nas.Base.Float.{Float64}
use kube_nas.Base.Dict.{set_entry}
use kube_nas.Base.Text.{is_empty, decimal_ℤ, replace_char}
use kube_nas.Base.Fields.{trim_prefix}
use kube_nas.Base.Outcome.{Error, ok, err}
use kube_nas.Api.V1
use kube_nas.Cluster.{Object, Kind, Call, Cluster, Action, pure, ◌>>=◌, ◌>>◌, fetch, send}
use kube_nas.Controllers.Failure.{new_meta}
use kube_nas.Node.Host.{Host}
use kube_nas.Node.Disk.{Device, discover_devices, get_disk_usage}
use kube_nas.Node.Smart.{DiskHealth, is_smart_available, query_disk, format_smart_summary}
use kube_nas.Node.Agent.{AgentDiskStatus, Json, NodeAgent, sanitize_key}

-- The object that is written for a device.
unfoldable pub disk_resource : Device → V1.Disk
disk_resource d = record {
  meta = new_meta ("disk-" <> trim_prefix (replace_char d.device_path "/" "-") "-dev-") "";
  spec = record {
    device = d.device_path;
    size = decimal_ℤ d.size_bytes;
    rotational = d.rotational;
    filesystem = d.filesystem;
    labels = [];
    health = "Healthy";
    state = V1.DiskLifecycleState.detected;
  };
  status = record { state = V1.DiskLifecycleState.unset; health = "" };
}

module _ {F : Type 0} (C : Cluster F) where
  -- The error that is logged.
  unfoldable pub upsert_config_map :
      NodeAgent → String → List (String × String) → Action F (Option Error)
  upsert_config_map a name entries =
      fetch Kind.config_maps C.config_map (record { name = name; namespace = a.namespace })
      >>= λ found. elim found [
        | err x ↦ send C (
            Call.create (
              Object.config_map (record {
                meta = record (new_meta name a.namespace) {
                  labels =
                      ("kubenas.io/agent-status", "true") ∷ ("kubenas.io/node", a.node_name) ∷ [];
                };
                entries = entries;
              })))
        | ok existing ↦
            send C (Call.update (Object.config_map (record existing { entries = entries })))
      ]

  unfoldable pub upsert_disk_crs : List Device → Action F Unit
  upsert_disk_crs [] = pure tt
  upsert_disk_crs (d ∷ ds) =
      let resource = disk_resource d in
      fetch Kind.disks_v1 C.disk_v1 (record { name = resource.meta.name; namespace = "" })
      >>= λ found.
          send C (elim found [
            | ok present ↦ Call.update (Object.disk_v1 resource)
            | err x ↦ Call.create (Object.disk_v1 resource)
          ])
          >> upsert_disk_crs ds

module _ {F : Type 0} where
  unfoldable pub status_of_device : Device → DiskHealth F → ℤ → AgentDiskStatus F
  status_of_device d health available = record {
    device_path = d.device_path;
    capacity_bytes = d.size_bytes;
    available_bytes = available;
    rotational = d.rotational;
    model = d.model;
    serial_number = d.serial;
    filesystem = d.filesystem;
    mount_point = d.mount_point;
    mounted = not (is_empty d.mount_point);
    health_score = health.health_score;
    smart_summary = format_smart_summary health;
    smart_failed = health.smart_failed;
    io_errors = pos 0;
  }

  unfoldable pub available_on : Host F → Device → Action F ℤ
  available_on H d =
      if is_empty d.mount_point
      then pure (pos 0)
      else (get_disk_usage H d.mount_point >>= λ r.
          pure (elim r [ err x ↦ pos 0 | ok (used, available) ↦ available ]))

  -- A text that could not be made is the empty one.
  unfoldable pub encoded : Json F → AgentDiskStatus F → String
  encoded json s = elim (json.write_status s) [ err x ↦ "" | ok text ↦ text ]

module _ {F : Type 0} (fl : Float64 F) (H : Host F) (json : Json F) where
  -- What is known of a disk that could not be queried.
  unfoldable pub unknown_health : Device → DiskHealth F
  unknown_health d = record {
    device_path = d.device_path;
    model = d.model;
    serial_number = d.serial;
    firmware_version = "";
    overall_health = "UNKNOWN";
    temperature = pos 0;
    power_on_hours = pos 0;
    rotational = d.rotational;
    smart_failed = false;
    io_errors = pos 0;
    reallocated_sectors = pos 0;
    pending_sectors = pos 0;
    uncorrectable_errors = pos 0;
    spin_retry_count = pos 0;
    command_timeout = pos 0;
    nvme_available_spare_percent = pos 0;
    nvme_percent_used = pos 0;
    nvme_media_errors = pos 0;
    health_score = fl.literal 10 1;
  }

  unfoldable pub health_of_device : Device → Action F (DiskHealth F)
  health_of_device d = is_smart_available H >>= λ available.
      if available
      then (query_disk fl H json.read_smartctl d.device_path >>= λ r.
          pure (elim r [ err x ↦ unknown_health d | ok h ↦ h ]))
      else pure (unknown_health d)

  -- The loop that fills `statusData`.
  unfoldable pub status_data :
      List (String × String) → List Device → Action F (List (String × String))
  status_data found [] = pure found
  status_data found (d ∷ ds) = health_of_device d >>= λ health. available_on H d >>= λ available.
      status_data
        (set_entry found (sanitize_key d.device_path)
          (encoded json (status_of_device d health available)))
        ds

  unfoldable pub run_discovery : Cluster F → NodeAgent → Action F Unit
  run_discovery C a = discover_devices H json.read_lsblk >>= λ r. elim r [
    | err x ↦ pure tt
    | ok devices ↦ status_data [] devices >>= λ found.
        upsert_config_map C a ("kubenas-diskstatus-" <> a.node_name) found
        >> upsert_disk_crs C devices
  ]

  -- Which devices of the list are logged as degraded.
  unfoldable pub degraded_devices : List Device → Action F (List String)
  degraded_devices [] = pure []
  degraded_devices (d ∷ ds) = query_disk fl H json.read_smartctl d.device_path >>= λ r.
      degraded_devices ds >>= λ rest. pure (elim r [
        | err x ↦ rest
        | ok h ↦
            if h.smart_failed || fl.lt h.health_score (fl.literal 5 1)
            then d.device_path ∷ rest
            else rest
      ])

  unfoldable pub run_smart_checks : Action F (List String)
  run_smart_checks = is_smart_available H >>= λ available.
      if not available
      then pure []
      else (discover_devices H json.read_lsblk >>= λ r. elim r [
        | err x ↦ pure []
        | ok devices ↦ degraded_devices devices
      ])
