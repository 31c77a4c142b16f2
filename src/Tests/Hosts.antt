-- ===== src/Tests/Hosts.antt =====
-- Concrete hosts, requests and an API with versions, for the tests of the node agent.
use kube_nas.Base.{
  arith, leb, if◌then◌else◌, ℕ, leb, if◌then◌else◌, ◌≤◌, String, true, false, none, some, [], ◌∷◌,
  refl,
}
use kube_nas.Base.Int.{pos}
use kube_nas.Base.Outcome.{ok, err, errorf}
use kube_nas.Cluster.{Cluster, ConfigMap}
use kube_nas.Agent.{MountDiskRequest}
use kube_nas.AgentClient
use kube_nas.Controllers.Failure.{new_meta}
use kube_nas.Node.Host.{Host}
use kube_nas.Node.Disk
use kube_nas.Node.Agent.{Json, NodeAgent}
use kube_nas.Node.Operations
use kube_nas.Node.Operations.Outcome
use kube_nas.Node.Operations.Conflict
use kube_nas.Node.Starts.{tally, tally_mono, map_of}
use kube_nas.Node.Protocol
use kube_nas.Tests.Samples.{thousandths, cluster_with, not_found, calm_cluster}
use kube_nas.Node.Smart.{SmartctlOutput}
use kube_nas.Node.Smart.Score.{MinMax}
use kube_nas.Base.{ltb, Bool-cases, inl, inr}

-- A host on which every command ends well and prints nothing.
abbrev pub calm_host : Host ℕ
calm_host = record {
  ended = λ t name args. record {
    error = none;
    stdout = "";
    stderr = "";
    combined = "";
    exit_code = some (pos 0);
  };
  made = λ t path. none;
  absolute = λ t path. ok path;
  lines = λ t path. ok [];
  contents = λ t path. ok "";
  opened = λ t path. none;
  truncated = λ t path. none;
  written = λ t path text. none;
  found = λ t name. true;
  removed = λ t path. none;
}

abbrev pub listed_device : Disk.LsblkDevice
listed_device = record {
  name = "sda";
  size = "1000";
  rota = true;
  model = "M1 ";
  serial = "S1";
  fstype = "xfs";
  mountpoint = "/mnt/a";
}

abbrev pub one_mount : MountDiskRequest
one_mount = record {
  device_path = "/dev/sda";
  mount_point = "/mnt/a";
  filesystem = "xfs";
  format_if_empty = false;
}

-- Every text is read as the same value.
abbrev pub constant_json : Json ℕ
constant_json = record {
  write_status = λ s. ok s.device_path;
  read_mount = λ s. ok (record {
    device_path = "/dev/sda";
    mount_point = "/mnt/a";
    filesystem = "xfs";
    format_if_empty = false;
  });
  read_unmount = λ s. ok (record { mount_point = "/mnt/a" });
  read_mergerfs = λ s. ok (record {
    branches = "/mnt/disks/a" ∷ [];
    mount_point = "/mnt/pool";
    category_create = "epmfs";
    min_free_space = "20G";
    extra_options = "";
  });
  read_lsblk = λ s. ok (record { blockdevices = listed_device ∷ [] });
  read_smartctl = λ s. err not_found;
}

abbrev pub new_node : NodeAgent
new_node = record {
  node_name = "node-a";
  host_dev_path = "/host/dev";
  namespace = "nas";
  processed_operations = [];
}

abbrev pub posted_name : String
posted_name = "kubenas-agentop-node-a-0"

abbrev pub posted : String → ConfigMap
posted op_type = AgentClient.operation_map "nas" posted_name "node-a" op_type ""

-- An API that holds what the agent wrote when it executed an operation of the given type.
abbrev pub answering : String → Cluster ℕ
answering op_type = cluster_with (
    Operations.ended (Outcome.performed calm_host constant_json (posted op_type) []).0
      (Operations.running (posted op_type)))

-- An API that refuses an update of a ConfigMap whose version was sent in an update before.
abbrev pub versioned_cluster : Cluster ℕ
versioned_cluster = record calm_cluster {
  respond = λ t c. elim (map_of c) [
    | none ↦ none
    | some cm ↦
        if leb 1 (tally (λ t' sent. Conflict.same_version cm.meta sent) t)
        then some (errorf "the object has been modified")
        else none
  ];
}

pub versioned_cluster-Versioned : Conflict.Versioned versioned_cluster
versioned_cluster-Versioned t cm version taken =
    let sent : 1 ≤ tally (λ t' sent. Conflict.same_version cm.meta sent) t = ground (
      arith,
      taken,
      tally_mono (Conflict.took versioned_cluster cm.meta)
          (λ t' sent. Conflict.same_version cm.meta sent) (λ t' sent h. ground arith) t,
    ) in
    (errorf "the object has been modified", ground (arith, sent))

-- The same API, which answers a read by the entries that it stored.
abbrev pub serving_cluster : Cluster ℕ
serving_cluster = record versioned_cluster {
  config_map = λ t key. elim (Protocol.stored versioned_cluster.respond key t) [
    | none ↦ err not_found
    | some es ↦ ok (record { meta = new_meta key.name key.namespace; entries = es })
  ];
}

pub serving_cluster-Serves : Protocol.Serves serving_cluster
serving_cluster-Serves t key es h = (
  record { meta = new_meta key.name key.namespace; entries = es },
  rw (serving_cluster, h) refl,
  refl,
)

-- A disk that SMART has failed.
abbrev pub failed_output : SmartctlOutput
failed_output = record {
  model_name = "M1";
  serial_number = "S1";
  firmware_version = "1";
  rotation_rate = pos 7200;
  passed = false;
  temperature = pos 60;
  power_on_hours = pos 10;
  table = record { id = pos 5; raw_value = pos 50 } ∷ [];
  available_spare = pos 0;
  percentage_used = pos 0;
  media_errors = pos 0;
  num_err_log_entries = pos 0;
}

pub thousandths-MinMax : MinMax thousandths
thousandths-MinMax = record {
  min_at_most = λ a b. ground arith;
  max_at_least = λ a b. ground arith;
  max_cases = λ a b. elim (Bool-cases (ltb a b)) [
    | inl e ↦ inr (ground (arith, e))
    | inr e ↦ inl (ground (arith, e))
  ];
  zero_one = refl;
}
