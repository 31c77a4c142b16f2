-- ===== src/Controllers/Rebalance/Reach.antt =====
-- A rebalance job over many reconciliations (controllers/rebalance_controller.go), each of which reads
-- what the one before it wrote.
use kube_nas.Base.{
  ℕ, ◌≤◌, true, false, ◌∷◌, ◌≡◌, ◌≢◌, refl, sym, ap, subst, ◌∙◌, arith, inl, inr, ◌⊎◌, Bool-cases,
  length,
}
use kube_nas.Base.Float.{Float64}
use kube_nas.Api.Rebalance.{RebalanceJob, RebalanceJobPhase, is_terminal, is_pending}
use kube_nas.Cluster.{Object, Call, Cluster, Trace}
use kube_nas.Agent.Laws.{effects}
use kube_nas.Controllers.Rebalance.{reconcile_job}
use kube_nas.Controllers.Rebalance.Laws.{
  ◌⟶◌, give_up, complete, begin_plan, begin_moves, reconcile_job_steps,
}

-- How far a job is.
unfoldable pub rank : RebalanceJobPhase → ℕ
rank RebalanceJobPhase.unset = 0
rank RebalanceJobPhase.pending = 0
rank RebalanceJobPhase.planning = 1
rank RebalanceJobPhase.running = 2
rank RebalanceJobPhase.completed = 3
rank RebalanceJobPhase.failed = 3

rank_top : (p : RebalanceJobPhase) → rank p ≤ 3
unfolding rank
rank_top RebalanceJobPhase.unset = omega arith
rank_top RebalanceJobPhase.pending = omega arith
rank_top RebalanceJobPhase.planning = omega arith
rank_top RebalanceJobPhase.running = omega arith
rank_top RebalanceJobPhase.completed = omega arith
rank_top RebalanceJobPhase.failed = omega arith

rank_of_pending : (p : RebalanceJobPhase) → is_pending p ≡ true → rank p ≤ 1
unfolding rank
rank_of_pending RebalanceJobPhase.pending h = omega arith
rank_of_pending RebalanceJobPhase.unset h = omega arith
rank_of_pending RebalanceJobPhase.planning h = omega arith
rank_of_pending RebalanceJobPhase.running h = cc
rank_of_pending RebalanceJobPhase.completed h = cc
rank_of_pending RebalanceJobPhase.failed h = cc

rank_of_live : (p : RebalanceJobPhase) → is_terminal p ≡ false → rank p ≤ 2
unfolding rank
rank_of_live RebalanceJobPhase.unset h = omega arith
rank_of_live RebalanceJobPhase.pending h = omega arith
rank_of_live RebalanceJobPhase.planning h = omega arith
rank_of_live RebalanceJobPhase.running h = omega arith
rank_of_live RebalanceJobPhase.completed h = cc
rank_of_live RebalanceJobPhase.failed h = cc

rank-⟶ : {p q : RebalanceJobPhase} → p ⟶ q → rank p ≤ rank q
unfolding rank
rank-⟶ {p} (give_up live) = rank_top p
rank-⟶ {p} (complete live) = rank_top p
rank-⟶ {p} (begin_plan new) = rank_of_pending p new
rank-⟶ {p} (begin_moves live old) = rank_of_live p live

-- Planning is entered from Pending alone.
pending_of_planning :
    {p q : RebalanceJobPhase} → p ⟶ q → q ≡ RebalanceJobPhase.planning → is_pending p ≡ true
pending_of_planning (give_up live) e = cc
pending_of_planning (complete live) e = cc
pending_of_planning (begin_plan new) e = new
pending_of_planning (begin_moves live old) e = cc

-- Nothing leads back to Pending.
never_pending : {p q : RebalanceJobPhase} → p ⟶ q → is_pending q ≡ false
never_pending (give_up live) = refl
never_pending (complete live) = refl
never_pending (begin_plan new) = refl
never_pending (begin_moves live old) = refl

module _ {F : Type 0} (C : Cluster F) (fl : Float64 F) where
  -- The job that a sequence of reconciliations leaves. Between them anything else may be called.
  pub data Reaches : RebalanceJob → RebalanceJob → Type 0 where
    here : {job : RebalanceJob} → Reaches job job
    next :
        {job w v : RebalanceJob} (t : Trace F)
        → effects (reconcile_job C fl job t).1
          ≡ Call.update_status (Object.rebalance_job w) ∷ effects t
        → Reaches w v
        → Reaches job v

  written-⟶ :
      (job w : RebalanceJob) (t : Trace F)
      → effects (reconcile_job C fl job t).1
        ≡ Call.update_status (Object.rebalance_job w) ∷ effects t
      → job.status.phase ⟶ w.status.phase
  written-⟶ job w t e = elim (reconcile_job_steps C fl job t) [
    | inl (over, same) ↦ absurd (omega (arith, ap length (sym e ∙ ap effects same)))
    | inr (live, (w', e', spec, meta, step, times)) ↦
        let same : w' ≡ w = ground (arith, e, e') in
        subst (λ (v : RebalanceJob). job.status.phase ⟶ v.status.phase) same step
  ]

  -- Over any number of reconciliations, each of which reads the job that the one before it wrote, a job
  -- never falls back: not started, planned, running and ended are passed in this order. A job that does
  -- not begin as Pending, such as a new one, whose phase is not set, is never in Planning unless it was
  -- there at first.
  pub reach-rank :
      (job v : RebalanceJob)
      → Reaches job v
      → (rank job.status.phase ≤ rank v.status.phase)
        × ((is_pending job.status.phase ≡ true)
            ⊎ (v.status.phase ≡ job.status.phase)
            ⊎ (v.status.phase ≢ RebalanceJobPhase.planning) × (is_pending v.status.phase ≡ false))
  reach-rank job _ here = (omega arith, inr (inl refl))
  reach-rank job v (next {w = w} t e path) =
      let step = written-⟶ job w t e in
      let (later, rest) = reach-rank w v path in
      let first = rank-⟶ step in
      (
        omega arith,
        (elim (Bool-cases (is_pending job.status.phase)) [
          | inl new ↦ inl new
          | inr old ↦ inr (
              inr (elim rest [
                | inl again ↦ absurd (ground (arith, never_pending step))
                | inr (inl same) ↦ (
                  (λ p. ground (arith, pending_of_planning step (sym same ∙ p))),
                  ap is_pending same ∙ never_pending step,
                )
                | inr (inr kept) ↦ kept
              ]))
        ]),
      )
