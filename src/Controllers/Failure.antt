-- ===== src/Controllers/Failure.antt =====
-- The FailureReconciler of controllers/placement_failure_controllers.go. `namespace` is the result of
-- `operatorNamespace()`, which reads the environment.
pub mod Laws
use kube_nas.Base.{
  ℕ, String, ◌<>◌, Bool, true, false, Option, none, some, List, [], ◌∷◌, not, if◌then◌else◌,
}
use kube_nas.Base.Float.{Float64}
use kube_nas.Base.Outcome.{Error, Result, ok, err, wrap, is_not_found}
use kube_nas.Api.Meta.{Key, ObjectMeta}
use kube_nas.Api.Disk.{Disk, DiskPhase, is_impaired, phase_text}
use kube_nas.Api.Failure.{
  DiskFailure, DiskFailureSeverity, DiskFailurePhase, is_resolved, same_severity,
}
use kube_nas.Cluster.{
  Object, Kind, Call, Cluster, Action, pure, ◌>>=◌, ◌>>◌, check, fetch, send, clock, Reconciled,
  finished, again_after,
}

abbrev pub is_failed : DiskPhase → Bool
is_failed DiskPhase.failed = true
is_failed _ = false

abbrev pub new_meta : String → String → ObjectMeta
new_meta name namespace = record {
  name = name;
  namespace = namespace;
  uid = "";
  resource_version = "";
  labels = [];
  annotations = none;
  finalizers = [];
  owner_references = [];
  deletion_timestamp = none;
}

-- The severity, the reason and the recommended action.
pub record Assessment : Type 0 where
  pub severity : DiskFailureSeverity
  pub reason : String
  pub action : String

module _ {F : Type 0} where
  unfoldable pub assess : Float64 F → Disk F → Assessment
  assess fl disk =
      if is_failed disk.status.phase
      then record {
        severity = DiskFailureSeverity.critical;
        reason =
            if fl.lt disk.status.health_score (fl.literal 1 1)
            then "SMART_FAILURE"
            else "SMART_PREFAIL";
        action = "Replace disk immediately and initiate rebuild from parity";
      }
      else record {
        severity = DiskFailureSeverity.warning;
        reason = "DISK_DEGRADED";
        action = "Monitor disk health and prepare for replacement";
      }

  abbrev pub failure_key : String → Disk F → Key
  failure_key namespace disk = record { name = disk.meta.name <> "-failure"; namespace = namespace }

  abbrev pub new_failure : String → Disk F → Assessment → DiskFailure
  new_failure namespace disk a = record {
    meta = new_meta (disk.meta.name <> "-failure") namespace;
    spec = record {
      disk_ref = disk.meta.name;
      severity = a.severity;
      reason = a.reason;
      recommended_action = a.action;
      replacement_disk_ref = "";
    };
    status = record { phase = DiskFailurePhase.unset; resolved_at = none; message = "" };
  }

module _ {F : Type 0} (C : Cluster F) (namespace : String) where
  unfoldable pub resolve_open_failures : Disk F → Action F Reconciled
  resolve_open_failures disk = do
    found ← fetch Kind.disk_failures C.disk_failure (failure_key namespace disk)
    elim found [
      | err x ↦ pure finished
      | ok existing ↦
          if not (is_resolved existing.status.phase)
          then (clock C >>= λ at.
              let status = record (existing.status) {
                phase = DiskFailurePhase.resolved;
                resolved_at = some at;
                message =
                    "Disk "
                    <> (disk.meta.name <> (" recovered to phase " <> phase_text disk.status.phase));
              } in
              check
                (send C
                  (Call.update_status (Object.disk_failure (record existing { status = status }))))
                (wrap "resolving disk failure") (pure finished))
          else pure finished
    ]

  -- An error other than `not found` is dropped.
  unfoldable pub open_failure : Disk F → Assessment → Action F Reconciled
  open_failure disk a = do
    found ← fetch Kind.disk_failures C.disk_failure (failure_key namespace disk)
    elim found [
      | err x ↦
          if is_not_found x
          then check (send C (Call.create (Object.disk_failure (new_failure namespace disk a))))
              (wrap "creating disk failure") (pure (again_after 120))
          else pure (again_after 120)
      | ok existing ↦
          if not (same_severity existing.spec.severity a.severity)
          then (let spec = record (existing.spec) { severity = a.severity; reason = a.reason } in
              check (send C (Call.update (Object.disk_failure (record existing { spec = spec }))))
                (wrap "updating disk failure") (pure (again_after 120)))
          else pure (again_after 120)
    ]

  unfoldable pub reconcile_failure : Float64 F → Disk F → Action F Reconciled
  reconcile_failure fl disk =
      if not (is_impaired disk.status.phase)
      then resolve_open_failures disk
      else open_failure disk (assess fl disk)

  unfoldable pub reconcile : Float64 F → Key → Action F Reconciled
  reconcile fl key = do
    found ← fetch Kind.disks C.disk key
    elim found [
      | err x ↦ pure (if is_not_found x then finished else err x)
      | ok disk ↦ reconcile_failure fl disk
    ]
