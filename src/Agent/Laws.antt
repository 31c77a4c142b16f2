-- ===== src/Agent/Laws.antt =====
-- What the controllers rely on: an agent's operations go over ConfigMaps, so they write no other
-- object.
use kube_nas.Base.{String, Bool, true, false, [], ◌∷◌, ◌≡◌, if◌then◌else◌}
use kube_nas.Cluster.{Object, Call, Trace}
use kube_nas.Agent.{NodeAgentClient, MountDiskRequest, MergerfsMountRequest, SnapraidConfig}

abbrev is_config_map : {F : Type 0} → Object F → Bool
is_config_map (Object.config_map m) = true
is_config_map _ = false

abbrev pub is_effect : {F : Type 0} → Call F → Bool
is_effect (Call.create o) = if is_config_map o then false else true
is_effect (Call.update o) = if is_config_map o then false else true
is_effect (Call.update_status o) = true
is_effect (Call.delete o) = true
is_effect _ = false

-- The writes to anything but a ConfigMap, the newest first.
abbrev pub effects : {F : Type 0} → Trace F → Trace F
effects [] = []
effects (c ∷ t) = let rest = effects t in if is_effect c then c ∷ rest else rest

pub record KeepsObjects {F : Type 0} (agent : NodeAgentClient F) : Type 0 where
  pub get_disk_status-keeps :
      (node path : String) (t : Trace F) → effects (agent.get_disk_status node path t).1 ≡ effects t
  pub mount_disk-keeps :
      (node : String) (q : MountDiskRequest) (t : Trace F)
      → effects (agent.mount_disk node q t).1 ≡ effects t
  pub unmount_disk-keeps :
      (node path : String) (t : Trace F) → effects (agent.unmount_disk node path t).1 ≡ effects t
  pub apply_snapraid_config-keeps :
      (node : String) (cfg : SnapraidConfig) (t : Trace F)
      → effects (agent.apply_snapraid_config node cfg t).1 ≡ effects t
  pub ensure_mergerfs_mount-keeps :
      (node : String) (q : MergerfsMountRequest) (t : Trace F)
      → effects (agent.ensure_mergerfs_mount node q t).1 ≡ effects t
  pub run_parity_operation-keeps :
      (node operation : String) (t : Trace F)
      → effects (agent.run_parity_operation node operation t).1 ≡ effects t
  pub get_disk_io_stats-keeps :
      (node path : String) (t : Trace F)
      → effects (agent.get_disk_io_stats node path t).1 ≡ effects t
  pub wait_for_operation-keeps :
      (id : String) (t : Trace F) → effects (agent.wait_for_operation id t).1 ≡ effects t
