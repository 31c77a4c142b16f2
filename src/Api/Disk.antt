-- ===== src/Api/Disk.antt =====
-- api/v1alpha1/disk_types.go. `F` is the type of a `float64`.
use kube_nas.Base.{ℕ, String, Bool, true, false, Option, List}
use kube_nas.Base.Int.{ℤ}
use kube_nas.Api.Meta.{ObjectMeta, Condition}

pub data DiskRole : Type 0 where
  data_role parity_role cache_role : DiskRole

-- `unset` is the empty text that a new resource has, also in the types below.
pub data DiskPhase : Type 0 where
  unset pending ready degraded failed : DiskPhase

pub record SpinDownConfig : Type 0 where
  pub enabled : Bool
  pub idle_minutes : ℕ

pub record DiskSpec : Type 0 where
  pub node_name : String
  pub device_path : String
  pub filesystem : String
  pub mount_point : String
  pub role : DiskRole
  pub spin_down : Option SpinDownConfig

pub record DiskStatus (F : Type 0) : Type 0 where
  pub phase : DiskPhase
  pub capacity_bytes : ℤ
  pub available_bytes : ℤ
  pub health_score : F
  pub smart_summary : String
  pub serial_number : String
  pub model : String
  pub rotational : Bool
  pub mounted : Bool
  pub last_smart_check_time : Option ℕ
  pub conditions : List Condition

pub record Disk (F : Type 0) : Type 0 where
  pub meta : ObjectMeta
  pub spec : DiskSpec
  pub status : DiskStatus F

-- The tests `phase == DiskPhaseReady` and `phase == DiskPhaseDegraded || phase == DiskPhaseFailed`.
abbrev pub is_ready : DiskPhase → Bool
is_ready DiskPhase.ready = true
is_ready _ = false

abbrev pub is_impaired : DiskPhase → Bool
is_impaired DiskPhase.degraded = true
is_impaired DiskPhase.failed = true
is_impaired _ = false

unfoldable pub phase_text : DiskPhase → String
phase_text unset = ""
phase_text pending = "Pending"
phase_text ready = "Ready"
phase_text degraded = "Degraded"
phase_text failed = "Failed"
