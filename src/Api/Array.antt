-- ===== src/Api/Array.antt =====
-- api/v1alpha1/array_types.go.
use kube_nas.Base.{ℕ, String, Bool, true, false, Option, List}
use kube_nas.Api.Meta.{ObjectMeta, Condition}

pub data ArrayPhase : Type 0 where
  unset pending ready degraded rebuilding failed : ArrayPhase

pub record SnapraidSettings : Type 0 where
  pub content_files : List String
  pub exclude_patterns : List String
  pub auto_sync_on_change : Bool

pub record ArraySpec : Type 0 where
  pub data_disks : List String
  pub parity_disks : List String
  pub snapraid_config : Option SnapraidSettings

pub record ArrayStatus (F : Type 0) : Type 0 where
  pub phase : ArrayPhase
  pub parity_healthy : Bool
  pub parity_drift_percent : F
  pub degraded_disks : List String
  pub last_sync_time : Option ℕ
  pub last_check_time : Option ℕ
  pub conditions : List Condition

pub record Array (F : Type 0) : Type 0 where
  pub meta : ObjectMeta
  pub spec : ArraySpec
  pub status : ArrayStatus F

abbrev pub is_ready : ArrayPhase → Bool
is_ready ArrayPhase.ready = true
is_ready _ = false

unfoldable pub phase_text : ArrayPhase → String
phase_text unset = ""
phase_text pending = "Pending"
phase_text ready = "Ready"
phase_text degraded = "Degraded"
phase_text rebuilding = "Rebuilding"
phase_text failed = "Failed"
