-- ===== src/Agent.antt =====
-- controllers/agent_client.go: the interface by which the controllers reach a node's agent, the values
-- that cross it, and the small helpers of that file.
pub mod Helpers
pub mod Laws
pub mod Finalizers
pub mod Conditions
use kube_nas.Base.{ℕ, String, Bool, Option, List}
use kube_nas.Base.Int.{ℤ}
use kube_nas.Base.Outcome.{Error, Result}
use kube_nas.Cluster.{Action}

pub record DiskAgentStatus (F : Type 0) : Type 0 where
  pub device_path : String
  pub capacity_bytes : ℤ
  pub available_bytes : ℤ
  pub health_score : F
  pub smart_summary : String
  pub serial_number : String
  pub model : String
  pub rotational : Bool
  pub mounted : Bool
  pub smart_failed : Bool
  pub io_errors : ℤ
  pub last_checked : ℕ

pub record DiskIoStats : Type 0 where
  pub reads_completed : ℤ
  pub writes_completed : ℤ
  pub read_bytes : ℤ
  pub write_bytes : ℤ
  pub io_in_progress : ℤ
  pub io_time_ms : ℤ

pub record MountDiskRequest : Type 0 where
  pub device_path : String
  pub mount_point : String
  pub filesystem : String
  pub format_if_empty : Bool

pub record MergerfsMountRequest : Type 0 where
  pub branches : List String
  pub mount_point : String
  pub category_create : String
  pub min_free_space : String
  pub extra_options : String

pub record SnapraidParityEntry : Type 0 where
  pub index : ℕ
  pub device_path : String
  pub mount_point : String

pub record SnapraidDataEntry : Type 0 where
  pub label : String
  pub device_path : String
  pub mount_point : String

pub record SnapraidConfig : Type 0 where
  pub parity_entries : List SnapraidParityEntry
  pub data_entries : List SnapraidDataEntry
  pub content_files : List String
  pub exclude_patterns : List String

pub record AgentOperationStatus : Type 0 where
  pub operation_id : String
  pub state : String
  pub message : String

pub record NodeAgentClient (F : Type 0) : Type 0 where
  pub get_disk_status : String → String → Action F (Result (DiskAgentStatus F))
  pub mount_disk : String → MountDiskRequest → Action F (Option Error)
  pub unmount_disk : String → String → Action F (Option Error)
  pub apply_snapraid_config : String → SnapraidConfig → Action F (Option Error)
  pub ensure_mergerfs_mount : String → MergerfsMountRequest → Action F (Result Bool)
  pub run_parity_operation : String → String → Action F (Option Error)
  pub get_disk_io_stats : String → String → Action F (Result DiskIoStats)
  pub wait_for_operation : String → Action F (Result AgentOperationStatus)
