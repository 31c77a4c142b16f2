-- ===== src/Controllers/Rebalance/Laws.antt =====
-- The state machine of a RebalanceJob (controllers/rebalance_controller.go).
use kube_nas.Base.{
  String, true, false, none, List, [], ◌∷◌, ◌≡◌, ◌≢◌, refl, arith, inl, inr, Bool-cases, ◌⊎◌, ltb,
  length,
}
use kube_nas.Base.Float.{Float64}
use kube_nas.Base.Outcome.{Result-cases}
use kube_nas.Api.Disk.{Disk}
use kube_nas.Api.Rebalance.{
  RebalanceJob, RebalanceJobPhase, planning, running, completed, failed, is_terminal, is_pending,
  is_running,
}
use kube_nas.Api.Meta.{Key}
use kube_nas.Cluster.{Object, Kind, Call, Cluster, Trace, ◌>>=◌}
use kube_nas.Agent.Laws.{effects}
use kube_nas.Controllers.Rebalance.{
  is_imbalanced, gather, stamp_start, stamp_completion, set_job_phase, plan, reconcile_job,
}

-- The diagram of the phases that a reconciliation may write.
infix 40 ◌⟶◌
pub data ◌⟶◌ : RebalanceJobPhase → RebalanceJobPhase → Type 0 where
  give_up : {p : RebalanceJobPhase} → is_terminal p ≡ false → p ⟶ failed
  complete : {p : RebalanceJobPhase} → is_terminal p ≡ false → p ⟶ completed
  begin_plan : {p : RebalanceJobPhase} → is_pending p ≡ true → p ⟶ planning
  begin_moves : {p : RebalanceJobPhase} → is_terminal p ≡ false → is_pending p ≡ false → p ⟶ running

-- What the times of a written job are, by its phase and the times it had.
pub record IsStamped (job w : RebalanceJob) : Type 0 where
  pub started : (is_running w.status.phase ≡ false) ⊎ (w.status.start_time ≢ none)
  pub ended : (is_terminal w.status.phase ≡ false) ⊎ (w.status.completion_time ≢ none)
  pub start_kept : (job.status.start_time ≡ none) ⊎ (w.status.start_time ≡ job.status.start_time)
  pub completion_kept :
      (is_terminal w.status.phase ≡ true) ⊎ (w.status.completion_time ≡ job.status.completion_time)

abbrev moved : RebalanceJob → RebalanceJobPhase → RebalanceJob
moved job p = record job { status = record (job.status) { phase = p } }

module _ {F : Type 0} (C : Cluster F) where
  -- The job that `set_job_phase` sends.
  stamped : RebalanceJob → RebalanceJobPhase → Trace F → RebalanceJob
  stamped job p t = let (job₁, t₁) = stamp_start C (moved job p) t in (stamp_completion C job₁ t₁).0

  abbrev pub Wrote : RebalanceJob → Trace F → Trace F → Type 0
  Wrote job t t' =
      (w : RebalanceJob) × (effects t' ≡ Call.update_status (Object.rebalance_job w) ∷ effects t)
      × (w.spec ≡ job.spec)
      × (w.meta ≡ job.meta)
      × (job.status.phase ⟶ w.status.phase)
      × IsStamped job w

  set_job_phase-effects :
      (job : RebalanceJob) (p : RebalanceJobPhase) (t t₀ : Trace F)
      → effects t ≡ effects t₀
      → effects (set_job_phase C job p t).1
        ≡ Call.update_status (Object.rebalance_job (stamped job p t)) ∷ effects t₀
  unfolding set_job_phase stamped
  set_job_phase-effects job p t t₀ e = ground arith

  stamped-phase :
      (job : RebalanceJob) (p : RebalanceJobPhase) (t : Trace F)
      → ((stamped job p t).status.phase ≡ p)
        × ((stamped job p t).spec ≡ job.spec)
        × ((stamped job p t).meta ≡ job.meta)
  unfolding stamped set_job_phase
  stamped-phase job p t = ground arith

  stamped-IsStamped :
      (job : RebalanceJob) (p : RebalanceJobPhase) (t : Trace F) → IsStamped job (stamped job p t)
  unfolding stamped set_job_phase
  stamped-IsStamped job p t = ground arith

  set_job_phase-Wrote :
      (job : RebalanceJob) (p : RebalanceJobPhase) (t t₀ : Trace F)
      → job.status.phase ⟶ p
      → effects t ≡ effects t₀
      → Wrote job t₀ (set_job_phase C job p t).1
  set_job_phase-Wrote job p t t₀ step e =
      let (phase, spec, meta) = stamped-phase job p t in
      (
        stamped job p t,
        set_job_phase-effects job p t t₀ e,
        spec,
        meta,
        rw phase step,
        stamped-IsStamped job p t,
      )

  gather-keeps : (names : List String) (t : Trace F) → effects (gather C names t).1 ≡ effects t
  unfolding gather
  gather-keeps [] t = refl
  gather-keeps (name ∷ names) t = gather-keeps names _

  plan-Wrote :
      (fl : Float64 F) (job : RebalanceJob) (disks : List (Disk F)) (t t₀ : Trace F)
      → is_terminal job.status.phase ≡ false
      → effects t ≡ effects t₀
      → Wrote job t₀ (plan C fl job disks t).1
  unfolding plan
  plan-Wrote fl job disks t t₀ live e = elim (Bool-cases (ltb (length disks) 2)) [
    | inl few ↦ rw few (set_job_phase-Wrote job _ t t₀ (complete live) e)
    | inr enough ↦
        rw enough (elim (Bool-cases (is_imbalanced fl disks job.spec.imbalance_threshold_percent)) [
          | inr even ↦ rw even (set_job_phase-Wrote job _ t t₀ (complete live) e)
          | inl uneven ↦ rw uneven (elim (Bool-cases (is_pending job.status.phase)) [
            | inl new ↦ rw new (set_job_phase-Wrote job _ t t₀ (begin_plan new) e)
            | inr old ↦ rw old (elim (Bool-cases job.spec.dry_run) [
              | inl dry ↦ simp dry (set_job_phase-Wrote job _ t t₀ (complete live) e)
              | inr real ↦ simp real (set_job_phase-Wrote job _ t t₀ (begin_moves live old) e)
            ])
          ])
        ])
  ]

  -- A completed or failed job is left alone, without any call. A reconciliation of any other job
  -- writes its status once and no other object but ConfigMaps, keeps its spec, and moves its phase
  -- along the diagram. A written Running has a start time, a written Completed or Failed a completion
  -- time; a start time once set is kept, and a completion time changes only then.
  pub reconcile_job_steps :
      (fl : Float64 F) (job : RebalanceJob) (t : Trace F)
      → ((is_terminal job.status.phase ≡ true) × ((reconcile_job C fl job t).1 ≡ t))
        ⊎ ((is_terminal job.status.phase ≡ false) × Wrote job t (reconcile_job C fl job t).1)
  unfolding reconcile_job
  reconcile_job_steps fl job t = elim (Bool-cases (is_terminal job.status.phase)) [
    | inl over ↦ inl (over, rw over)
    | inr live ↦ inr (
      live,
      rw live (elim (Result-cases (C.pool t pool_key)) [
        | inl (x, e) ↦ rw (e, ◌>>=◌) (set_job_phase-Wrote job _ t₁ t (give_up live) refl)
        | inr (pool, e) ↦
            rw (e, ◌>>=◌)
              (elim (Result-cases (C.placement_policy t₁ policy_key)) [
                | inl (x, e') ↦ rw (e', ◌>>=◌) (set_job_phase-Wrote job _ t₂ t (give_up live) refl)
                | inr (policy, e') ↦
                    rw (e', ◌>>=◌)
                      (plan-Wrote fl job _ _ t live (gather-keeps pool.status.member_disks t₂))
              ])
      ]),
    )
  ]
    where
      pool_key : Key
      pool_key = record { name = job.spec.pool_ref; namespace = job.meta.namespace }

      t₁ : Trace F
      t₁ = Call.read Kind.pools pool_key ∷ t

      policy_key : Key
      policy_key = record { name = job.spec.placement_policy_ref; namespace = job.meta.namespace }

      t₂ : Trace F
      t₂ = Call.read Kind.placement_policies policy_key ∷ t₁
