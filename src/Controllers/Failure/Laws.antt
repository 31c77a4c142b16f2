-- ===== src/Controllers/Failure/Laws.antt =====
-- The life of a DiskFailure (FailureReconciler in controllers/placement_failure_controllers.go).
use kube_nas.Base.{
  String, ◌<>◌, true, false, none, some, ◌∷◌, ◌≡◌, ◌≢◌, refl, arith, inl, inr, Bool-cases, ◌⊎◌,
}
use kube_nas.Base.Float.{Float64}
use kube_nas.Base.Outcome.{ok, err, is_not_found, Error, Result-cases}
use kube_nas.Api.Disk.{Disk, is_impaired, phase_text}
use kube_nas.Api.Failure.{
  DiskFailure, DiskFailurePhase, warning, critical, is_resolved, same_severity,
}
use kube_nas.Cluster.{Object, Kind, Call, Cluster, Trace}
use kube_nas.Agent.Laws.{effects}
use kube_nas.Controllers.Failure.{
  is_failed, assess, failure_key, new_failure, resolve_open_failures, open_failure,
  reconcile_failure,
}

module _ {F : Type 0} (fl : Float64 F) (C : Cluster F) (namespace : String) where
  -- The severity that the code must give.
  abbrev pub Fits : Disk F → DiskFailure → Type 0
  Fits disk w =
      ((is_failed disk.status.phase ≡ true) × (w.spec.severity ≡ critical))
      ⊎ ((is_failed disk.status.phase ≡ false) × (w.spec.severity ≡ warning))

  -- For an impaired disk that has a DiskFailure, a reconciliation either writes no object, and then
  -- the severity is already the one that fits the disk's phase, or updates that DiskFailure to the
  -- severity that fits. In both cases the status and the recommended action stay what they were, so a
  -- DiskFailure that was Resolved is not opened again.
  reconcile_failure_keeps_status :
      (disk : Disk F) (existing : DiskFailure) (t : Trace F)
      → is_impaired disk.status.phase ≡ true
      → C.disk_failure t (failure_key namespace disk) ≡ ok existing
      → ((effects (reconcile_failure C namespace fl disk t).1 ≡ effects t) × Fits disk existing)
        ⊎ ((w : DiskFailure) × (effects (reconcile_failure C namespace fl disk t).1
              ≡ Call.update (Object.disk_failure w) ∷ effects t)
            × Fits disk w
            × (w.status ≡ existing.status)
            × (w.spec.recommended_action ≡ existing.spec.recommended_action))
  unfolding reconcile_failure open_failure assess
  reconcile_failure_keeps_status disk existing t hurt found =
      elim (Bool-cases (same_severity existing.spec.severity (assess fl disk).severity)) [
        | inl same ↦ inl (ground arith, ground arith)
        | inr changed ↦ inr (
          record existing {
            spec = record (existing.spec) {
              severity = (assess fl disk).severity;
              reason = (assess fl disk).reason;
            };
          },
          ground arith,
          ground arith,
          refl,
          refl,
        )
      ]

  -- An impaired disk without a DiskFailure gets one, named after it, of the severity that fits.
  reconcile_failure_opens :
      (disk : Disk F) (x : Error) (t : Trace F)
      → is_impaired disk.status.phase ≡ true
      → C.disk_failure t (failure_key namespace disk) ≡ err x
      → is_not_found x ≡ true
      → (w : DiskFailure) × (effects (reconcile_failure C namespace fl disk t).1
          ≡ Call.create (Object.disk_failure w) ∷ effects t)
        × Fits disk w
        × (w.spec.disk_ref ≡ disk.meta.name)
        × (record { name = w.meta.name; namespace = w.meta.namespace } ≡ failure_key namespace disk)
  unfolding reconcile_failure open_failure assess
  reconcile_failure_opens disk x t hurt missing nf =
      (new_failure namespace disk (assess fl disk), ground arith, ground arith, refl, refl)

  -- A disk that is neither Degraded nor Failed has its open DiskFailure written as Resolved, with a
  -- time and its spec kept.
  reconcile_failure_resolves :
      (disk : Disk F) (existing : DiskFailure) (t : Trace F)
      → is_impaired disk.status.phase ≡ false
      → C.disk_failure t (failure_key namespace disk) ≡ ok existing
      → is_resolved existing.status.phase ≡ false
      → (w : DiskFailure) × (effects (reconcile_failure C namespace fl disk t).1
          ≡ Call.update_status (Object.disk_failure w) ∷ effects t)
        × (is_resolved w.status.phase ≡ true)
        × (w.status.resolved_at ≢ none)
        × (w.spec ≡ existing.spec)
  unfolding reconcile_failure resolve_open_failures
  reconcile_failure_resolves disk existing t well found unresolved = (
    record existing {
      status = record (existing.status) {
        phase = DiskFailurePhase.resolved;
        resolved_at = some (C.time (Call.read Kind.disk_failures (failure_key namespace disk) ∷ t));
        message =
            "Disk " <> (disk.meta.name <> (" recovered to phase " <> phase_text disk.status.phase));
      };
    },
    ground arith,
    refl,
    (λ e. cc),
    refl,
  )

  -- What a reconciliation of an impaired disk does to its DiskFailure.
  abbrev pub Tends : Disk F → Trace F → Trace F → Type 0
  Tends disk t after =
      ((existing : DiskFailure) × (C.disk_failure t (failure_key namespace disk) ≡ ok existing)
        × (((after ≡ effects t) × Fits disk existing)
            ⊎ ((w : DiskFailure) × (after ≡ Call.update (Object.disk_failure w) ∷ effects t)
                × Fits disk w
                × (w.status ≡ existing.status)
                × (w.spec.recommended_action ≡ existing.spec.recommended_action))))
      ⊎ ((x : Error) × (C.disk_failure t (failure_key namespace disk) ≡ err x)
          × (((is_not_found x ≡ false) × (after ≡ effects t))
              ⊎ ((w : DiskFailure) × (after ≡ Call.create (Object.disk_failure w) ∷ effects t)
                  × Fits disk w
                  × (w.spec.disk_ref ≡ disk.meta.name)
                  × (record { name = w.meta.name; namespace = w.meta.namespace }
                      ≡ failure_key namespace disk))))

  -- What one of a disk that is not impaired does.
  abbrev pub Closes : Disk F → Trace F → Trace F → Type 0
  Closes disk t after =
      ((existing : DiskFailure) × (C.disk_failure t (failure_key namespace disk) ≡ ok existing)
        × (((is_resolved existing.status.phase ≡ true) × (after ≡ effects t))
            ⊎ ((w : DiskFailure) × (after ≡ Call.update_status (Object.disk_failure w) ∷ effects t)
                × (is_resolved w.status.phase ≡ true)
                × (w.status.resolved_at ≢ none)
                × (w.spec ≡ existing.spec))))
      ⊎ ((x : Error) × (C.disk_failure t (failure_key namespace disk) ≡ err x)
          × (after ≡ effects t))

  tends :
      (disk : Disk F) (t : Trace F)
      → is_impaired disk.status.phase ≡ true
      → Tends disk t (effects (reconcile_failure C namespace fl disk t).1)
  unfolding reconcile_failure open_failure
  tends disk t hurt = elim (Result-cases (C.disk_failure t (failure_key namespace disk))) [
    | inr (existing, found) ↦
        inl (existing, found, reconcile_failure_keeps_status disk existing t hurt found)
    | inl (x, missing) ↦ elim (Bool-cases (is_not_found x)) [
      | inl nf ↦ inr (x, missing, inr (reconcile_failure_opens disk x t hurt missing nf))
      | inr e ↦ inr (x, missing, inl (e, ground arith))
    ]
  ]

  closes :
      (disk : Disk F) (t : Trace F)
      → is_impaired disk.status.phase ≡ false
      → Closes disk t (effects (reconcile_failure C namespace fl disk t).1)
  unfolding reconcile_failure resolve_open_failures
  closes disk t well = elim (Result-cases (C.disk_failure t (failure_key namespace disk))) [
    | inr (existing, found) ↦ elim (Bool-cases (is_resolved existing.status.phase)) [
      | inl e ↦ inl (existing, found, inl (e, ground arith))
      | inr e ↦ inl (existing, found, inr (reconcile_failure_resolves disk existing t well found e))
    ]
    | inl (x, missing) ↦ inr (x, missing, ground arith)
  ]

  -- A reconciliation of an impaired disk whose DiskFailure is there writes no object, if its severity
  -- fits the disk's phase already, or updates it to the severity that fits; the status and the
  -- recommended action stay what they were, so that one that was Resolved is not opened again. If
  -- there is none, one is created, named after the disk, of the severity that fits; if the read fails
  -- in another way, nothing is written. For a disk that is not impaired, an open DiskFailure is
  -- written as Resolved, with a time and its spec kept, and otherwise nothing is written.
  pub reconcile_failure_lem :
      (disk : Disk F) (t : Trace F)
      → ((is_impaired disk.status.phase ≡ true)
          × Tends disk t (effects (reconcile_failure C namespace fl disk t).1))
        ⊎ ((is_impaired disk.status.phase ≡ false)
            × Closes disk t (effects (reconcile_failure C namespace fl disk t).1))
  reconcile_failure_lem disk t = elim (Bool-cases (is_impaired disk.status.phase)) [
    | inl hurt ↦ inl (hurt, tends disk t hurt)
    | inr well ↦ inr (well, closes disk t well)
  ]
