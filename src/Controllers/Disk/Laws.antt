-- ===== src/Controllers/Disk/Laws.antt =====
-- What a reconciliation of a Disk writes, on every branch of controllers/disk_controller.go.
use kube_nas.Base.{
  ℕ, String, true, false, Option, none, some, [], ◌∷◌, ◌++◌, ◌≡◌, refl, ◌∙◌, inl, inr, arith,
  Bool-cases, Option-cases, eq_iff, not, ◌&&◌, ◌⊎◌, str_eq,
}
use kube_nas.Base.Int.{pos, ◌≤ℤ◌}
use kube_nas.Base.Float.{Float64}
use kube_nas.Base.Outcome.{Error, Result, ok, err, Result-cases}
use kube_nas.Api.Meta.{Key}
use kube_nas.Api.Disk.{Disk, DiskPhase, DiskStatus, is_ready}
use kube_nas.Cluster.{Object, Kind, Call, Cluster, Trace, ◌>>=◌}
use kube_nas.Agent.{NodeAgentClient, DiskAgentStatus, MountDiskRequest}
use kube_nas.Agent.Helpers.{set_condition, contains_string, remove_string}
use kube_nas.Agent.Finalizers.{
  contains_string-append_self, contains_string-remove_string, remove_string-append_self,
}
use kube_nas.Agent.Laws.{effects, KeepsObjects}
use kube_nas.Controllers.Disk.{
  disk_finalizer, compute_phase, set_phase, mount_if_needed, reconcile_normal, reconcile_delete,
  reconcile_disk, reconcile,
}

module _ {F : Type 0} where
  -- The Disk that `set_phase` sends.
  abbrev phased : Disk F → DiskPhase → String → String → ℕ → Disk F
  phased disk phase reason message at = record disk {
    status = record (disk.status) {
      phase = phase;
      conditions = set_condition disk.status.conditions (record {
        type = "Ready";
        status = is_ready phase;
        reason = reason;
        message = message;
        last_transition_time = at;
      });
    };
  }

  set_phase-trace :
      (C : Cluster F) (d : Disk F) (p : DiskPhase) (reason message : String) (t : Trace F)
      → (set_phase C d p reason message t).1
        ≡ Call.update_status (Object.disk (phased d p reason message (C.time t))) ∷ Call.now ∷ t
  unfolding set_phase
  set_phase-trace C d p reason message t = ground arith

  pub record IsHealthy (fl : Float64 F) (s : DiskAgentStatus F) : Type 0 where
    pub passed : s.smart_failed ≡ false
    pub scored : fl.lt s.health_score (fl.literal 3 1) ≡ false
    pub errorless : s.io_errors ≤ℤ pos 0

  compute_phase-eq-ready :
      (fl : Float64 F) (s : DiskAgentStatus F)
      → compute_phase fl s ≡ DiskPhase.ready
      → IsHealthy fl s
  unfolding compute_phase
  compute_phase-eq-ready fl s h = ground arith

  -- The mount that is asked of the agent.
  abbrev pub mount_request : Disk F → MountDiskRequest
  mount_request d = record {
    device_path = d.spec.device_path;
    mount_point = d.spec.mount_point;
    filesystem = d.spec.filesystem;
    format_if_empty = false;
  }

module _ {F : Type 0} (fl : Float64 F) (C : Cluster F) (agent : NodeAgentClient F) where
  -- The agent's answer about a Disk, and the calls with it.
  abbrev pub asked : Disk F → Trace F → Result (DiskAgentStatus F) × Trace F
  asked d = agent.get_disk_status d.spec.node_name d.spec.device_path

  -- The agent's answer to the mount of a Disk, and the calls with it.
  abbrev pub mounting : Disk F → Trace F → Option Error × Trace F
  mounting d = agent.mount_disk d.spec.node_name (mount_request d)

  -- What the written Disk `w` rests on in a reconciliation of `d` that starts at `t` and whose calls
  -- before the writing are `calls`.
  pub data Grounds (d w : Disk F) (t calls : Trace F) : Type 0 where
    unanswered :
        (x : Error)
        → (asked d t).0 ≡ err x
        → calls ≡ (asked d t).1
        → w.status.phase ≡ DiskPhase.degraded
        → Grounds d w t calls
    unhealthy :
        (s : DiskAgentStatus F)
        → (asked d t).0 ≡ ok s
        → calls ≡ Call.now ∷ (asked d t).1
        → w.status.phase ≡ compute_phase fl s
        → is_ready w.status.phase ≡ false
        → Grounds d w t calls
    unmounted :
        (s : DiskAgentStatus F) (x : Error)
        → (asked d t).0 ≡ ok s
        → (mounting d (Call.now ∷ (asked d t).1)).0 ≡ some x
        → calls ≡ (mounting d (Call.now ∷ (asked d t).1)).1
        → w.status.phase ≡ DiskPhase.degraded
        → Grounds d w t calls
    served :
        (s : DiskAgentStatus F)
        → (asked d t).0 ≡ ok s
        → IsHealthy fl s
        → ((s.mounted ≡ true) × (calls ≡ Call.now ∷ (asked d t).1))
          ⊎ ((s.mounted ≡ false)
              × ((mounting d (Call.now ∷ (asked d t).1)).0 ≡ none)
              × (calls ≡ (mounting d (Call.now ∷ (asked d t).1)).1))
        → w.status.mounted ≡ true
        → w.status.phase ≡ DiskPhase.ready
        → Grounds d w t calls

  -- What is written of a Disk: its status, after the calls that the writing rests on.
  abbrev pub Wrote : Disk F → Trace F → Trace F → Type 0
  Wrote d t t' =
      (w : Disk F) × (calls : Trace F) × (t'
        ≡ Call.update_status (Object.disk w) ∷ Call.now ∷ calls)
      × (effects calls ≡ effects t)
      × (w.spec ≡ d.spec)
      × (w.meta ≡ d.meta)
      × Grounds d w t calls

  mount_if_needed-Wrote :
      KeepsObjects agent
      → (d : Disk F) (status : DiskStatus F) (s : DiskAgentStatus F) (t : Trace F)
      → status.mounted ≡ s.mounted
      → (asked d t).0 ≡ ok s
      → effects (asked d t).1 ≡ effects t
      → Wrote d t
          (mount_if_needed C agent
            (record d { status = status })
            s
            (compute_phase fl s)
            (Call.now ∷ (asked d t).1)).1
  unfolding mount_if_needed
  mount_if_needed-Wrote keeps d status s t m answer e =
      elim (Bool-cases (not s.mounted && is_ready target)) [
        | inr skip ↦ (
          phased d' target "Reconciled" complete (C.time asked_at),
          asked_at,
          rw skip (set_phase-trace C d' target _ _ asked_at),
          e,
          refl,
          refl,
          elim (Bool-cases (is_ready target)) [
            | inr waits ↦ unhealthy s answer refl refl waits
            | inl good ↦
                let there : s.mounted ≡ true = ground arith in
                served s answer (compute_phase-eq-ready fl s (ground arith)) (inl (there, refl))
                  (m ∙ there) (ground arith)
          ],
        )
        | inl need ↦ elim (Option-cases (mounting d asked_at).0) [
          | inl done ↦ (
            phased mounted target "Reconciled" complete (C.time after),
            after,
            rw (need, done, ◌>>=◌) (set_phase-trace C mounted target _ _ after),
            kept,
            refl,
            refl,
            served s answer (compute_phase-eq-ready fl s (ground arith))
                (inr (ground arith, done, refl)) refl (ground arith),
          )
          | inr (x, failed) ↦ (
            phased d' DiskPhase.degraded "MountFailed" x.message (C.time after),
            after,
            rw (need, failed, ◌>>=◌) (set_phase-trace C d' _ _ _ after),
            kept,
            refl,
            refl,
            unmounted s x answer failed refl refl,
          )
        ]
      ]
    where
      d' : Disk F
      d' = record d { status = status }

      mounted : Disk F
      mounted = record d { status = record status { mounted = true } }

      complete : String
      complete = "Disk reconciliation complete"

      target : DiskPhase
      target = compute_phase fl s

      asked_at : Trace F
      asked_at = Call.now ∷ (asked d t).1

      after : Trace F
      after = (mounting d asked_at).1

      kept : effects after ≡ effects t
      kept = keeps.mount_disk-keeps d.spec.node_name (mount_request d) asked_at ∙ e

  -- A reconciliation of a Disk that is not being deleted writes its status, once and last, and no other
  -- object but ConfigMaps. Its metadata and its spec stay. The written phase is: Degraded if the agent
  -- did not answer, and then nothing more was asked of it; the phase of the agent's answer if that is
  -- not Ready, and again no mount was asked; Degraded if the agent was asked to mount the Disk and
  -- refused; and else Ready and marked as mounted. Then the answer has no SMART failure, a health score
  -- of at least 0.3 and no I/O error, and the disk was answered to be mounted, or the mount of it was
  -- asked and answered without an error.
  pub reconcile_normal_truthful :
      KeepsObjects agent
      → (d : Disk F) (t : Trace F) → Wrote d t (reconcile_normal C agent fl d t).1
  unfolding reconcile_normal
  reconcile_normal_truthful keeps d t = elim (Result-cases (asked d t).0) [
    | inl (x, e) ↦ (
      phased d DiskPhase.degraded "AgentUnavailable" x.message (C.time (asked d t).1),
      (asked d t).1,
      rw (e, ◌>>=◌) (set_phase-trace C d _ _ _ (asked d t).1),
      kept,
      refl,
      refl,
      unanswered x e refl refl,
    )
    | inr (s, e) ↦ rw (e, ◌>>=◌) (mount_if_needed-Wrote keeps d _ s t refl e kept)
  ]
    where
      kept : effects (asked d t).1 ≡ effects t
      kept = keeps.get_disk_status-keeps d.spec.node_name d.spec.device_path t

module _ {F : Type 0} (fl : Float64 F) (C : Cluster F) (agent : NodeAgentClient F)
    (keeps : KeepsObjects agent) where
  -- A Disk that is being deleted is written once, whatever the unmount returns. The written Disk has no
  -- copy of the protection finalizer, keeps every other finalizer, its spec and its status. Of
  -- objects other than ConfigMaps, nothing else is written.
  pub reconcile_delete_releases :
      (d : Disk F) (x : String) (t : Trace F)
      → (w : Disk F) × (effects (reconcile_delete C agent d t).1
          ≡ Call.update (Object.disk w) ∷ effects t)
        × (contains_string w.meta.finalizers disk_finalizer ≡ false)
        × (contains_string w.meta.finalizers x
            ≡ (not (str_eq disk_finalizer x) && contains_string d.meta.finalizers x))
        × (w.spec ≡ d.spec)
        × (w.status ≡ d.status)
  unfolding reconcile_delete
  reconcile_delete_releases d x t = (
    record d {
      meta = record (d.meta) { finalizers = remove_string d.meta.finalizers disk_finalizer };
    },
    ground (arith, keeps.unmount_disk-keeps d.spec.node_name d.spec.mount_point t),
    ground (
      arith,
      contains_string-remove_string d.meta.finalizers disk_finalizer disk_finalizer,
      eq_iff disk_finalizer disk_finalizer,
    ),
    contains_string-remove_string d.meta.finalizers disk_finalizer x,
    refl,
    refl,
  )

module _ {F : Type 0} (fl : Float64 F) (C : Cluster F) (agent : NodeAgentClient F) where
  abbrev pub with_finalizer : Disk F → Disk F
  with_finalizer d = record d {
    meta = record (d.meta) { finalizers = d.meta.finalizers ++ (disk_finalizer ∷ []) };
  }

  abbrev pub being_deleted : ℕ → Disk F → Disk F
  being_deleted at d = record d { meta = record (d.meta) { deletion_timestamp = some at } }

  -- A live Disk without the protection finalizer is only given it: the one call after the read is an
  -- update of the Disk, and no agent is asked. If a later reconciliation reads what was written, it
  -- goes on to the normal path. If one reads it with a time of deletion instead, its last call writes
  -- it with the finalizers that the Disk had at first.
  pub reconcile_finalizer_first :
      (d : Disk F) (key : Key) (at : ℕ) (t t' t'' : Trace F)
      → C.disk t key ≡ ok d
      → d.meta.deletion_timestamp ≡ none
      → contains_string d.meta.finalizers disk_finalizer ≡ false
      → C.disk t' key ≡ ok (with_finalizer d)
      → C.disk t'' key ≡ ok (being_deleted at (with_finalizer d))
      → ((reconcile C agent fl key t).1
          ≡ Call.update (Object.disk (with_finalizer d)) ∷ Call.read Kind.disks key ∷ t)
        × (reconcile C agent fl key t'
            ≡ reconcile_normal C agent fl (with_finalizer d) (Call.read Kind.disks key ∷ t'))
        × ((calls : Trace F) × ((reconcile C agent fl key t'').1
              ≡ Call.update (Object.disk (being_deleted at d)) ∷ calls))
  unfolding reconcile reconcile_disk reconcile_delete
  reconcile_finalizer_first d key at t t' t'' found live absent stored deleted = (
    ground arith,
    rw (stored, ◌>>=◌)
        (ground (arith, contains_string-append_self d.meta.finalizers disk_finalizer)),
    elim (Bool-cases d.status.mounted) [
      | inl there ↦ (
        (agent.unmount_disk d.spec.node_name d.spec.mount_point (Call.read Kind.disks key ∷ t'')).1,
        ground (arith, remove_string-append_self d.meta.finalizers disk_finalizer absent),
      )
      | inr away ↦ (
        Call.read Kind.disks key ∷ t'',
        ground (arith, remove_string-append_self d.meta.finalizers disk_finalizer absent),
      )
    ],
  )
