-- ===== src/Controllers/Disk.antt =====
-- controllers/disk_controller.go.
pub mod Laws
use kube_nas.Base.{
  ℕ, String, Bool, true, false, Option, none, some, List, [], ◌∷◌, ◌++◌, not, if◌then◌else◌, ◌&&◌,
}
use kube_nas.Base.Int.{ℤ, pos, ltb_ℤ}
use kube_nas.Base.Float.{Float64}
use kube_nas.Base.Outcome.{Error, Result, ok, err, wrap, is_not_found}
use kube_nas.Api.Meta.{Key}
use kube_nas.Api.Disk.{Disk, DiskPhase, is_ready}
use kube_nas.Cluster.{
  Object, Kind, Call, Cluster, Action, pure, ◌>>=◌, ◌>>◌, check, fetch, send, clock, Requeue,
  Reconciled,
}
use kube_nas.Agent.{NodeAgentClient, DiskAgentStatus}
use kube_nas.Agent.Helpers.{set_condition, contains_string, remove_string}

abbrev pub disk_finalizer : String
disk_finalizer = "storage.kubenas.io/disk-protection"

module _ {F : Type 0} (fl : Float64 F) where
  unfoldable pub compute_phase : DiskAgentStatus F → DiskPhase
  compute_phase s =
      if s.smart_failed
      then DiskPhase.failed
      else if fl.lt s.health_score (fl.literal 3 1)
      then DiskPhase.degraded
      else if ltb_ℤ (pos 0) s.io_errors
      then DiskPhase.degraded
      else DiskPhase.ready

module _ {F : Type 0} (C : Cluster F) where
  -- The condition's status is `conditionStatusForPhase(phase)`.
  unfoldable pub set_phase : Disk F → DiskPhase → String → String → Action F Reconciled
  set_phase disk phase reason message = do
    at ← clock C
    let conditions = set_condition disk.status.conditions (record {
      type = "Ready";
      status = is_ready phase;
      reason = reason;
      message = message;
      last_transition_time = at;
    })
    let status = record (disk.status) { phase = phase; conditions = conditions }
    check (send C (Call.update_status (Object.disk (record disk { status = status }))))
        (wrap "updating disk status") (pure (ok (record { requeue = false; requeue_after = 30 })))

  module _ (agent : NodeAgentClient F) where
    -- The agent's answer about a mount does not change what is written of it: on success the disk is
    -- marked as mounted.
    mount_if_needed : Disk F → DiskAgentStatus F → DiskPhase → Action F Reconciled
    mount_if_needed disk s target =
        if not s.mounted && is_ready target
        then (agent.mount_disk disk.spec.node_name (record {
          device_path = disk.spec.device_path;
          mount_point = disk.spec.mount_point;
          filesystem = disk.spec.filesystem;
          format_if_empty = false;
        })
            >>= λ e. elim e [
              | some x ↦ set_phase disk DiskPhase.degraded "MountFailed" x.message
              | none ↦
                  let status = record (disk.status) { mounted = true } in
                  set_phase (record disk { status = status }) target "Reconciled"
                    "Disk reconciliation complete"
            ])
        else set_phase disk target "Reconciled" "Disk reconciliation complete"

    unfoldable pub reconcile_normal : Float64 F → Disk F → Action F Reconciled
    unfolding mount_if_needed
    reconcile_normal fl disk = do
      answer ← agent.get_disk_status disk.spec.node_name disk.spec.device_path
      elim answer [
        | err x ↦ set_phase disk DiskPhase.degraded "AgentUnavailable" x.message
        | ok s ↦ clock C >>= λ at.
            let status = record (disk.status) {
              capacity_bytes = s.capacity_bytes;
              available_bytes = s.available_bytes;
              health_score = s.health_score;
              smart_summary = s.smart_summary;
              serial_number = s.serial_number;
              model = s.model;
              rotational = s.rotational;
              mounted = s.mounted;
              last_smart_check_time = some at;
            } in
            mount_if_needed (record disk { status = status }) s (compute_phase fl s)
      ]

    remove_finalizer : Disk F → Action F Reconciled
    remove_finalizer disk =
        let meta = record (disk.meta) {
          finalizers = remove_string disk.meta.finalizers disk_finalizer;
        } in
        check (send C (Call.update (Object.disk (record disk { meta = meta }))))
          (wrap "removing finalizer") (pure (ok (record { requeue = false; requeue_after = 0 })))

    -- The error of a failed unmount is dropped.
    unfoldable pub reconcile_delete : Disk F → Action F Reconciled
    unfolding remove_finalizer
    reconcile_delete disk =
        if disk.status.mounted
        then agent.unmount_disk disk.spec.node_name disk.spec.mount_point >> remove_finalizer disk
        else remove_finalizer disk

    add_finalizer : Disk F → Action F Reconciled
    add_finalizer disk =
        let meta = record (disk.meta) {
          finalizers = disk.meta.finalizers ++ (disk_finalizer ∷ []);
        } in
        check (send C (Call.update (Object.disk (record disk { meta = meta }))))
          (wrap "adding finalizer") (pure (ok (record { requeue = true; requeue_after = 0 })))

    -- What follows the fetch.
    unfoldable pub reconcile_disk : Float64 F → Disk F → Action F Reconciled
    unfolding add_finalizer
    reconcile_disk fl disk = elim disk.meta.deletion_timestamp [
      | some at ↦ reconcile_delete disk
      | none ↦
          if contains_string disk.meta.finalizers disk_finalizer
          then reconcile_normal fl disk
          else add_finalizer disk
    ]

    unfoldable pub reconcile : Float64 F → Key → Action F Reconciled
    reconcile fl key = do
      found ← fetch Kind.disks C.disk key
      elim found [
        | err x ↦
            pure
              (if is_not_found x then ok (record { requeue = false; requeue_after = 0 }) else err x)
        | ok disk ↦ reconcile_disk fl disk
      ]
