-- ===== src/Tests/Samples.antt =====
-- Concrete numbers, resources, an API and an agent for the tests.
use kube_nas.Base.{
  some, ℕ, ◌+◌, ◌-◌, ◌*◌, ◌/◌, ◌^◌, String, Bool, true, false, none, List, [], ◌∷◌, refl, ltb,
  length, str_eq, if◌then◌else◌,
}
use kube_nas.Base.Int.{pos, pos_part}
use kube_nas.Base.Float.{Float64}
use kube_nas.Base.Outcome.{Error, Reason, ok, err}
use kube_nas.Api.Meta.{Key, Condition}
use kube_nas.Api.Disk.{Disk, DiskPhase, DiskRole}
use kube_nas.Api.Array.{Array, ArrayPhase}
use kube_nas.Api.Pool.{Pool}
use kube_nas.Api.Share.{Share, ShareProtocol}
use kube_nas.Api.Parity.{ParitySchedule}
use kube_nas.Api.Placement.{PlacementPolicy, PlacementStrategy}
use kube_nas.Api.Rebalance.{RebalanceJob, RebalanceJobPhase}
use kube_nas.Api.Failure.{DiskFailure, DiskFailureSeverity}
use kube_nas.Cluster.{Cluster, ConfigMap, Pod, RestartPolicy}
use kube_nas.Cluster.{pure}
use kube_nas.Agent.{NodeAgentClient, DiskAgentStatus, AgentOperationStatus, MergerfsMountRequest}
use kube_nas.AgentClient.{Codec}
use kube_nas.Controllers.Disk.{disk_finalizer}
use kube_nas.Agent.Laws.{KeepsObjects}
use kube_nas.Controllers.Failure.{new_meta, new_failure}

-- Numbers in thousandths, none below zero.
abbrev pub thousandths : Float64 ℕ
thousandths = record {
  literal = λ m k. m * 1000 / (10 ^ k);
  of_int = λ a. pos_part a * 1000;
  add = λ a b. a + b;
  sub = λ a b. a - b;
  mul = λ a b. a * b / 1000;
  div = λ a b. a * 1000 / b;
  lt = ltb;
  abs = λ a. a;
  min = λ a b. if ltb b a then b else a;
  max = λ a b. if ltb a b then b else a;
}

abbrev pub not_found : Error
not_found = record { reason = Reason.not_found; message = "not found" }

abbrev pub disk_at : DiskPhase → String → ℕ → Bool → Disk ℕ
disk_at phase name available rotational = record {
  meta = new_meta name "";
  spec = record {
    node_name = "node-a";
    device_path = "/dev/sda";
    filesystem = "xfs";
    mount_point = "/mnt/disks/a";
    role = DiskRole.data_role;
    spin_down = none;
  };
  status = record {
    phase = phase;
    capacity_bytes = pos 1000;
    available_bytes = pos available;
    health_score = 900;
    smart_summary = "PASSED";
    serial_number = "S1";
    model = "M1";
    rotational = rotational;
    mounted = true;
    last_smart_check_time = none;
    conditions = [];
  };
}

abbrev pub spinning_disk : Disk ℕ
spinning_disk = disk_at DiskPhase.ready "spinning" 400 true

abbrev pub solid_disk : Disk ℕ
solid_disk = disk_at DiskPhase.ready "solid" 100 false

abbrev pub full_disk : Disk ℕ
full_disk = disk_at DiskPhase.ready "full" 10 true

abbrev pub broken_disk : Disk ℕ
broken_disk = disk_at DiskPhase.failed "broken" 900 true

abbrev pub three_disks : List (Disk ℕ)
three_disks = full_disk ∷ solid_disk ∷ spinning_disk ∷ []

abbrev pub ready_condition_of : String → Condition
ready_condition_of type = record {
  type = type;
  status = true;
  reason = "Before";
  message = "";
  last_transition_time = 1;
}

abbrev pub one_array : Array ℕ
one_array = record {
  meta = new_meta "array" "";
  spec = record {
    data_disks = "spinning" ∷ [];
    parity_disks = "solid" ∷ [];
    snapraid_config = none;
  };
  status = record {
    phase = ArrayPhase.ready;
    parity_healthy = true;
    parity_drift_percent = 0;
    degraded_disks = [];
    last_sync_time = none;
    last_check_time = none;
    conditions = ready_condition_of "Ready" ∷ ready_condition_of "Synced" ∷ [];
  };
}

abbrev pub one_pool : Pool
one_pool = record {
  meta = new_meta "pool" "nas";
  spec = record { array_ref = "array"; mount_point = "/mnt/pool"; mergerfs = none };
  status = record {
    phase = "Ready";
    mounted = true;
    total_bytes = pos 0;
    available_bytes = pos 0;
    member_disks = "spinning" ∷ "solid" ∷ [];
    conditions = [];
  };
}

abbrev pub one_share : Share
one_share = record {
  meta = new_meta "media" "nas";
  spec = record {
    pool_ref = "pool";
    path = "/media";
    protocol = ShareProtocol.nfs;
    authz = none;
    smb = none;
    nfs = none;
  };
  status = record {
    phase = "";
    published = false;
    effective_subjects = [];
    pod_name = "";
    service_name = "";
    conditions = [];
  };
}

abbrev pub one_schedule : ParitySchedule
one_schedule = record {
  meta = new_meta "nightly" "nas";
  spec = record {
    array_ref = "array";
    sync_cron = "0 2 * * *";
    check_cron = "0 3 * * 0";
    scrub_cron = "0 4 1 * *";
    scrub_percentage = pos 12;
  };
  status = record {
    last_sync_time = none;
    last_check_time = none;
    last_scrub_time = none;
    last_sync_result = "";
  };
}

abbrev pub policy_of : PlacementStrategy → PlacementPolicy ℕ
policy_of strategy = record {
  meta = new_meta "policy" "nas";
  spec = record { strategy = strategy; weights = none; min_free_space = "" };
}

abbrev pub one_job : RebalanceJob
one_job = record {
  meta = new_meta "job" "nas";
  spec = record {
    pool_ref = "pool";
    placement_policy_ref = "policy";
    max_concurrent_moves = pos 1;
    dry_run = false;
    imbalance_threshold_percent = pos 10;
  };
  status = record {
    phase = RebalanceJobPhase.pending;
    planned_moves = pos 0;
    completed_moves = pos 0;
    bytes_moved = pos 0;
    start_time = none;
    completion_time = none;
  };
}

abbrev pub open_disk_failure : DiskFailure
open_disk_failure =
    new_failure "nas" broken_disk
      (record { severity = DiskFailureSeverity.warning; reason = "DISK_DEGRADED"; action = "" })

abbrev pub one_pod : Pod
one_pod = record {
  meta = new_meta "kubenas-nfs-media" "nas";
  spec = record { restart_policy = RestartPolicy.unset; containers = []; volumes = [] };
}

abbrev pub operation_in : String → ConfigMap
operation_in state = record {
  meta = new_meta "op" "nas";
  entries = ("status.state", state) ∷ ("status.message", "") ∷ [];
}

-- The same answers at any time: what is asked for is there, save what is not found.
abbrev pub cluster_with : ConfigMap → Cluster ℕ
cluster_with operation = record {
  disk = λ t key. if str_eq key.name "solid" then ok solid_disk else ok spinning_disk;
  array = λ t key. ok one_array;
  pool = λ t key. ok one_pool;
  share = λ t key. ok one_share;
  parity_schedule = λ t key. ok one_schedule;
  placement_policy = λ t key. ok (policy_of PlacementStrategy.balanced);
  rebalance_job = λ t key. ok one_job;
  disk_failure =
      λ t key. if str_eq key.name "broken-failure" then ok open_disk_failure else err not_found;
  cache_pool = λ t key. err not_found;
  config_map = λ t key. ok operation;
  pod = λ t key. ok one_pod;
  service = λ t key. err not_found;
  cron_job = λ t key. err not_found;
  disk_v1 = λ t key. err not_found;
  disk_claim = λ t key. err not_found;
  unassigned_disk = λ t key. err not_found;
  storage_pool = λ t key. err not_found;
  filesystem = λ t key. err not_found;
  share_v1 = λ t key. err not_found;
  volume = λ t key. err not_found;
  tier_policy = λ t key. err not_found;
  config_maps = λ t namespace labels. ok (operation ∷ []);
  respond = λ t c. none;
  time = λ t. length t;
  done = λ t. none;
}

abbrev pub calm_cluster : Cluster ℕ
calm_cluster = cluster_with (operation_in "Success")

-- While an operation runs.
abbrev pub idle_cluster : Cluster ℕ
idle_cluster = cluster_with (operation_in "Running")

-- An API in which a disk has the finalizer as soon as something was called, and is being deleted
-- as soon as something more was.
abbrev pub finalizing_cluster : Cluster ℕ
finalizing_cluster = record calm_cluster {
  disk = λ t key. elim t [
    | [] ↦ ok spinning_disk
    | _ ∷ [] ↦ ok (record spinning_disk {
      meta = record (spinning_disk.meta) { finalizers = disk_finalizer ∷ [] };
    })
    | _ ∷ _ ∷ _ ↦ ok (record spinning_disk {
      meta = record (spinning_disk.meta) {
        finalizers = disk_finalizer ∷ [];
        deletion_timestamp = some 7;
      };
    })
  ];
}

abbrev pub sample_key : Key
sample_key = record { name = "spinning"; namespace = "" }

abbrev pub finished_operation : AgentOperationStatus
finished_operation = record { operation_id = "op"; state = "Success"; message = "" }

abbrev pub mute_codec : Codec ℕ
mute_codec = record {
  marshal = λ p. ok "";
  read_status = λ s. err not_found;
  read_io_stats = λ s. err not_found;
}

abbrev pub healthy_status : DiskAgentStatus ℕ
healthy_status = record {
  device_path = "/dev/sda";
  capacity_bytes = pos 1000;
  available_bytes = pos 400;
  health_score = 900;
  smart_summary = "PASSED";
  serial_number = "S1";
  model = "M1";
  rotational = true;
  mounted = false;
  smart_failed = false;
  io_errors = pos 0;
  last_checked = 7;
}

-- An agent that does all it is asked, without a call.
abbrev pub willing_agent : NodeAgentClient ℕ
willing_agent = record {
  get_disk_status = λ node path. pure (ok healthy_status);
  mount_disk = λ node q. pure none;
  unmount_disk = λ node path. pure none;
  apply_snapraid_config = λ node cfg. pure none;
  ensure_mergerfs_mount = λ node q. pure (ok true);
  run_parity_operation = λ node op. pure none;
  get_disk_io_stats = λ node path. pure (err not_found);
  wait_for_operation = λ id. pure (err not_found);
}

pub willing_agent-KeepsObjects : KeepsObjects willing_agent
willing_agent-KeepsObjects = record {
  get_disk_status-keeps = λ node path t. refl;
  mount_disk-keeps = λ node q t. refl;
  unmount_disk-keeps = λ node path t. refl;
  apply_snapraid_config-keeps = λ node cfg t. refl;
  ensure_mergerfs_mount-keeps = λ node q t. refl;
  run_parity_operation-keeps = λ node op t. refl;
  get_disk_io_stats-keeps = λ node path t. refl;
  wait_for_operation-keeps = λ id t. refl;
}

abbrev pub one_request : MergerfsMountRequest
one_request = record {
  branches = "/mnt/disks/a" ∷ [];
  mount_point = "/mnt/pool";
  category_create = "epmfs";
  min_free_space = "20G";
  extra_options = "";
}

abbrev pub planned_job : RebalanceJob
planned_job = record one_job {
  status = record (one_job.status) { phase = RebalanceJobPhase.planning };
}
