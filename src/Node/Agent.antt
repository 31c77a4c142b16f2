-- ===== src/Node/Agent.antt =====
-- node-agent/cmd/kubenas-node-agent/main.go: the agent that reports the disks of a node and executes
-- the operations that the operator posts as ConfigMaps. `Json` is encoding/json at the types of this
-- file. An action that returns `none` is a panic, which ends the process.
use kube_nas.Base.{ℕ, String, ◌<>◌, Bool, Option, none, some, List, [], if◌then◌else◌, str_eq}
use kube_nas.Base.Int.{ℤ}
use kube_nas.Base.Text.{is_empty}
use kube_nas.Base.Outcome.{Result}
use kube_nas.Node.Disk.{LsblkOutput}
use kube_nas.Node.Smart.{SmartctlOutput}

pub record AgentDiskStatus (F : Type 0) : Type 0 where
  pub device_path : String
  pub capacity_bytes : ℤ
  pub available_bytes : ℤ
  pub rotational : Bool
  pub model : String
  pub serial_number : String
  pub filesystem : String
  pub mount_point : String
  pub mounted : Bool
  pub health_score : F
  pub smart_summary : String
  pub smart_failed : Bool
  pub io_errors : ℤ

pub record MountRequest : Type 0 where
  pub device_path : String
  pub mount_point : String
  pub filesystem : String
  pub format_if_empty : Bool

pub record UnmountRequest : Type 0 where
  pub mount_point : String

pub record MergerfsMountRequest : Type 0 where
  pub branches : List String
  pub mount_point : String
  pub category_create : String
  pub min_free_space : String
  pub extra_options : String

pub record Json (F : Type 0) : Type 0 where
  pub write_status : AgentDiskStatus F → Result String
  pub read_mount : String → Result MountRequest
  pub read_unmount : String → Result UnmountRequest
  pub read_mergerfs : String → Result MergerfsMountRequest
  pub read_lsblk : String → Result LsblkOutput
  pub read_smartctl : String → Result SmartctlOutput

-- The operations that were processed, each with its time, live in the memory of the process.
pub record NodeAgent : Type 0 where
  pub node_name : String
  pub host_dev_path : String
  pub namespace : String
  pub processed_operations : List (String × ℕ)

-- The node's name, from the flag or else the environment; without one `main` exits.
unfoldable pub resolve_node_name : String → String → Option String
resolve_node_name node_flag node_env =
    let node_name = if is_empty node_flag then node_env else node_flag in
    if is_empty node_name then none else some node_name

-- The agent that `main` starts.
unfoldable pub new_agent : String → String → String → NodeAgent
new_agent node_name host_dev_path namespace_env = record {
  node_name = node_name;
  host_dev_path = host_dev_path;
  namespace = if is_empty namespace_env then "kubenas-system" else namespace_env;
  processed_operations = [];
}

unfoldable pub sanitize_key : String → String
sanitize_key String.[] = ""
sanitize_key (String.◌∷◌ c s) =
    let one = String.◌∷◌ c "" in (if str_eq one "/" then "_" else one) <> sanitize_key s
