-- ===== src/Api/Failure.antt =====
-- The DiskFailure of api/v1alpha1/other_types.go.
use kube_nas.Base.{ℕ, String, Bool, true, false, Option}
use kube_nas.Api.Meta.{ObjectMeta}

pub data DiskFailureSeverity : Type 0 where
  warning critical : DiskFailureSeverity

pub data DiskFailurePhase : Type 0 where
  unset detected acknowledged rebuilding resolved : DiskFailurePhase

pub record DiskFailureSpec : Type 0 where
  pub disk_ref : String
  pub severity : DiskFailureSeverity
  pub reason : String
  pub recommended_action : String
  pub replacement_disk_ref : String

pub record DiskFailureStatus : Type 0 where
  pub phase : DiskFailurePhase
  pub resolved_at : Option ℕ
  pub message : String

pub record DiskFailure : Type 0 where
  pub meta : ObjectMeta
  pub spec : DiskFailureSpec
  pub status : DiskFailureStatus

abbrev pub is_resolved : DiskFailurePhase → Bool
is_resolved DiskFailurePhase.resolved = true
is_resolved _ = false

abbrev pub same_severity : DiskFailureSeverity → DiskFailureSeverity → Bool
same_severity warning warning = true
same_severity critical critical = true
same_severity _ _ = false
