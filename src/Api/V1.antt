-- ===== src/Api/V1.antt =====
-- api/v1/types.go: the resources of storage.kubenas.io/v1. A map of texts is its list of entries.
pub mod Copies
use kube_nas.Base.{String, Bool, true, false, List}
use kube_nas.Base.Int.{ℤ}
use kube_nas.Api.Meta.{ObjectMeta}

-- `unset` is the empty text, `other` any text that has no name of its own.
pub data DiskLifecycleState : Type 0 where
  unset detected unmanaged unassigned claimed active : DiskLifecycleState
  degraded failed rebuilding recovered : DiskLifecycleState
  other : String → DiskLifecycleState

-- The test `state == ""`.
abbrev pub is_unset : DiskLifecycleState → Bool
is_unset DiskLifecycleState.unset = true
is_unset _ = false

unfoldable pub state_text : DiskLifecycleState → String
state_text unset = ""
state_text detected = "Detected"
state_text unmanaged = "Unmanaged"
state_text unassigned = "Unassigned"
state_text claimed = "Claimed"
state_text active = "Active"
state_text degraded = "Degraded"
state_text failed = "Failed"
state_text rebuilding = "Rebuilding"
state_text recovered = "Recovered"
state_text (other text) = text

pub record DiskSpec : Type 0 where
  pub device : String
  pub size : String
  pub rotational : Bool
  pub filesystem : String
  pub labels : List (String × String)
  pub health : String
  pub state : DiskLifecycleState

pub record DiskStatus : Type 0 where
  pub state : DiskLifecycleState
  pub health : String

pub record Disk : Type 0 where
  pub meta : ObjectMeta
  pub spec : DiskSpec
  pub status : DiskStatus

pub record DiskClaimSpec : Type 0 where
  pub disk : String
  pub pool : String

pub record DiskClaim : Type 0 where
  pub meta : ObjectMeta
  pub spec : DiskClaimSpec

pub record UnassignedDiskSpec : Type 0 where
  pub disk : String
  pub mount_point : String
  pub filesystem : String

pub record UnassignedDisk : Type 0 where
  pub meta : ObjectMeta
  pub spec : UnassignedDiskSpec

pub record StoragePoolSpec : Type 0 where
  pub disk_selector : List (String × String)
  pub parity_disks : List String
  pub split_level : ℤ

pub record StoragePool : Type 0 where
  pub meta : ObjectMeta
  pub spec : StoragePoolSpec

pub record FilesystemSpec : Type 0 where
  pub pool : String
  pub mountpoint : String

pub record Filesystem : Type 0 where
  pub meta : ObjectMeta
  pub spec : FilesystemSpec

pub record ShareSpec : Type 0 where
  pub filesystem : String
  pub path : String

pub record Share : Type 0 where
  pub meta : ObjectMeta
  pub spec : ShareSpec

pub record VolumeSpec : Type 0 where
  pub share : String
  pub path : String

pub record Volume : Type 0 where
  pub meta : ObjectMeta
  pub spec : VolumeSpec

pub record TierPolicySpec : Type 0 where
  pub source_pool : String
  pub target_pool : String
  pub move_after : String

pub record TierPolicy : Type 0 where
  pub meta : ObjectMeta
  pub spec : TierPolicySpec

pub record DiskLockSpec : Type 0 where
  pub disk : String
  pub reason : String

pub record DiskLock : Type 0 where
  pub meta : ObjectMeta
  pub spec : DiskLockSpec

pub record PoolHealthSpec : Type 0 where
  pub pool : String

pub record PoolHealth : Type 0 where
  pub meta : ObjectMeta
  pub spec : PoolHealthSpec

pub record FilesystemIntegritySpec : Type 0 where
  pub filesystem : String

pub record FilesystemIntegrity : Type 0 where
  pub meta : ObjectMeta
  pub spec : FilesystemIntegritySpec
