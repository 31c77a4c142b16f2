-- ===== src/Api/Rebalance.antt =====
-- The RebalanceJob of api/v1alpha1/other_types.go.
use kube_nas.Base.{ℕ, String, Bool, true, false, Option}
use kube_nas.Base.Int.{ℤ}
use kube_nas.Api.Meta.{ObjectMeta}

pub data RebalanceJobPhase : Type 0 where
  unset pending planning running completed failed : RebalanceJobPhase

pub record RebalanceJobSpec : Type 0 where
  pub pool_ref : String
  pub placement_policy_ref : String
  pub max_concurrent_moves : ℤ
  pub dry_run : Bool
  pub imbalance_threshold_percent : ℤ

pub record RebalanceJobStatus : Type 0 where
  pub phase : RebalanceJobPhase
  pub planned_moves : ℤ
  pub completed_moves : ℤ
  pub bytes_moved : ℤ
  pub start_time : Option ℕ
  pub completion_time : Option ℕ

pub record RebalanceJob : Type 0 where
  pub meta : ObjectMeta
  pub spec : RebalanceJobSpec
  pub status : RebalanceJobStatus

-- The tests of the source on a phase.
abbrev pub is_terminal : RebalanceJobPhase → Bool
is_terminal RebalanceJobPhase.completed = true
is_terminal RebalanceJobPhase.failed = true
is_terminal _ = false

abbrev pub is_pending : RebalanceJobPhase → Bool
is_pending RebalanceJobPhase.pending = true
is_pending _ = false

abbrev pub is_running : RebalanceJobPhase → Bool
is_running RebalanceJobPhase.running = true
is_running _ = false
