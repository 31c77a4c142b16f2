-- ===== src/Controllers/Rebalance.antt =====
-- controllers/rebalance_controller.go.
pub mod Laws
pub mod Reach
pub mod Spread
use kube_nas.Base.{
  ℕ, String, Bool, true, false, Option, none, some, List, [], ◌∷◌, not, if◌then◌else◌, ◌&&◌, ◌||◌,
  length,
}
use kube_nas.Base.{ltb}
use kube_nas.Base.Int.{ℤ, pos, ltb_ℤ, sub64}
use kube_nas.Base.Float.{Float64}
use kube_nas.Base.Outcome.{Error, Result, ok, err, wrap, is_not_found}
use kube_nas.Api.Meta.{Key}
use kube_nas.Api.Disk.{Disk}
use kube_nas.Api.Rebalance.{RebalanceJob, RebalanceJobPhase, is_terminal, is_pending, is_running}
use kube_nas.Cluster.{
  Object, Kind, Call, Cluster, Action, pure, ◌>>=◌, ◌>>◌, check, fetch, send, clock, Reconciled,
  finished, again_after,
}

module _ {F : Type 0} (fl : Float64 F) where
  -- The percentage of every disk with a positive capacity.
  unfoldable pub utilizations : List (Disk F) → List F
  utilizations [] = []
  utilizations (d ∷ disks) =
      let rest = utilizations disks in
      let used = sub64 d.status.capacity_bytes d.status.available_bytes in
      if ltb_ℤ (pos 0) d.status.capacity_bytes
      then fl.mul (fl.div (fl.of_int used) (fl.of_int d.status.capacity_bytes)) (fl.literal 100 0)
        ∷ rest
      else rest

  -- The loop over the rest of the list, with its variables `min` and `max`.
  unfoldable pub extremes : F → F → List F → F × F
  extremes low high [] = (low, high)
  extremes low high (u ∷ us) =
      extremes (if fl.lt u low then u else low) (if fl.lt high u then u else high) us

  unfoldable pub spread_exceeds : List F → ℤ → Bool
  spread_exceeds [] threshold = false
  spread_exceeds (u ∷ []) threshold = false
  spread_exceeds (u ∷ v ∷ us) threshold =
      let (low, high) = extremes u u (v ∷ us) in
      fl.lt (fl.of_int threshold) (fl.abs (fl.sub high low))

  unfoldable pub is_imbalanced : List (Disk F) → ℤ → Bool
  is_imbalanced disks threshold =
      if ltb (length disks) 2 || not (ltb_ℤ (pos 0) threshold)
      then false
      else spread_exceeds (utilizations disks) threshold

module _ {F : Type 0} (C : Cluster F) where
  -- Member disks that cannot be fetched are left out.
  unfoldable pub gather : List String → Action F (List (Disk F))
  gather [] = pure []
  gather (name ∷ names) = do
    found ← fetch Kind.disks C.disk (record { name = name; namespace = "" })
    rest ← gather names
    pure (elim found [ err x ↦ rest | ok d ↦ d ∷ rest ])

  -- The two writes of times, each with a reading of the clock of its own.
  unfoldable pub stamp_start : RebalanceJob → Action F RebalanceJob
  stamp_start job = elim job.status.start_time [
    | some at ↦ pure job
    | none ↦
        if is_running job.status.phase
        then (clock C >>= λ at.
            let status = record (job.status) { start_time = some at } in
            pure (record job { status = status }))
        else pure job
  ]

  unfoldable pub stamp_completion : RebalanceJob → Action F RebalanceJob
  stamp_completion job =
      if is_terminal job.status.phase
      then (clock C >>= λ at.
          let status = record (job.status) { completion_time = some at } in
          pure (record job { status = status }))
      else pure job

  unfoldable pub set_job_phase : RebalanceJob → RebalanceJobPhase → Action F Reconciled
  unfolding stamp_start stamp_completion
  set_job_phase job₀ phase = do
    job₁ ← stamp_start (record job₀ { status = record (job₀.status) { phase = phase } })
    job ← stamp_completion job₁
    check (send C (Call.update_status (Object.rebalance_job job)))
        (wrap "updating rebalance job status")
        (pure (if is_running phase then again_after 10 else finished))

  -- What follows once the pool's member disks are gathered.
  unfoldable pub plan : Float64 F → RebalanceJob → List (Disk F) → Action F Reconciled
  plan fl job disks =
      if ltb (length disks) 2
      then set_job_phase job RebalanceJobPhase.completed
      else if not (is_imbalanced fl disks job.spec.imbalance_threshold_percent)
      then set_job_phase job RebalanceJobPhase.completed
      else if is_pending job.status.phase
      then set_job_phase job RebalanceJobPhase.planning
      else if job.spec.dry_run
      then set_job_phase job RebalanceJobPhase.completed
      else set_job_phase job RebalanceJobPhase.running

  -- What follows the fetch of the job. The placement policy is only looked for.
  unfoldable pub reconcile_job : Float64 F → RebalanceJob → Action F Reconciled
  reconcile_job fl job =
      if is_terminal job.status.phase
      then pure finished
      else (fetch Kind.pools C.pool
            (record { name = job.spec.pool_ref; namespace = job.meta.namespace })
          >>= λ found. elim found [
            | err x ↦ set_job_phase job RebalanceJobPhase.failed
            | ok pool ↦
                fetch Kind.placement_policies C.placement_policy
                  (record { name = job.spec.placement_policy_ref; namespace = job.meta.namespace })
                >>= λ policy. elim policy [
                  | err x ↦ set_job_phase job RebalanceJobPhase.failed
                  | ok p ↦ gather pool.status.member_disks >>= λ disks. plan fl job disks
                ]
          ])

  unfoldable pub reconcile : Float64 F → Key → Action F Reconciled
  reconcile fl key = do
    found ← fetch Kind.rebalance_jobs C.rebalance_job key
    elim found [
      | err x ↦ pure (if is_not_found x then finished else err x)
      | ok job ↦ reconcile_job fl job
    ]
