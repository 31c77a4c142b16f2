-- ===== src/Controllers/Array/Laws.antt =====
-- What a reconciliation of an Array writes (controllers/array_controller.go).
use kube_nas.Base.{
  ℕ, String, true, false, none, some, List, [], ◌∷◌, ◌++◌, ◌≡◌, ◌≢◌, refl, ap, Option, ◌∙◌, inl,
  inr, arith, Bool-cases, Option-cases, ◌⊎◌, All, is_nil, if◌then◌else◌, ◌<>◌, length,
}
use mathlib.Core.List.{head?}
use kube_nas.Base.Outcome.{Error, Result, ok, err, Result-cases}
use kube_nas.Api.Meta.{Condition}
use kube_nas.Api.Disk.{Disk, is_impaired}
use kube_nas.Api.Array.{Array, ArrayPhase, is_ready}
use kube_nas.Cluster.{Object, Kind, Call, Cluster, Trace, ◌>>=◌}
use kube_nas.Agent.{NodeAgentClient}
use kube_nas.Base.Text.{decimal}
use kube_nas.Agent.Helpers.{set_condition, fail_last, contains_string}
use kube_nas.Agent.Conditions.{find_condition, types, fail_last-set_condition}
use kube_nas.Agent.Laws.{effects, KeepsObjects}
use kube_nas.Controllers.Array.{
  resolve_disk_refs, degraded_names, build_snapraid_config, set_array_phase, assemble,
  reconcile_array,
}

-- The condition that is set before the phase is looked at.
abbrev pub ready_condition : String → String → ℕ → Condition
ready_condition reason message at = record {
  type = "Ready";
  status = true;
  reason = reason;
  message = message;
  last_transition_time = at;
}

module _ {F : Type 0} where
  -- The Array that `set_array_phase` sends.
  abbrev pub phased : Array F → ArrayPhase → String → String → ℕ → Array F
  phased a phase reason message at =
      let set = set_condition a.status.conditions (ready_condition reason message at) in
      record a {
        status = record (a.status) {
          phase = phase;
          conditions = if is_ready phase then set else fail_last set;
        };
      }

  set_array_phase-trace :
      (C : Cluster F) (a : Array F) (p : ArrayPhase) (reason message : String) (t : Trace F)
      → (set_array_phase C a p reason message t).1
        ≡ Call.update_status (Object.array (phased a p reason message (C.time t))) ∷ Call.now ∷ t
  unfolding set_array_phase
  set_array_phase-trace C a p reason message t = ground arith

  resolve_disk_refs-keeps :
      (C : Cluster F) (names : List String) (t : Trace F)
      → effects (resolve_disk_refs C names t).1 ≡ effects t
  unfolding resolve_disk_refs
  resolve_disk_refs-keeps C [] t = refl
  resolve_disk_refs-keeps C (name ∷ names) t = ground (
    arith,
    resolve_disk_refs-keeps C names
        (Call.read Kind.disks (record { name = name; namespace = "" }) ∷ t),
  )

  degraded_names-eq-nil :
      (disks : List (Disk F))
      → is_nil (degraded_names disks) ≡ true
      → All (λ d. is_impaired d.status.phase ≡ false) disks
  unfolding degraded_names
  degraded_names-eq-nil [] h = tt
  degraded_names-eq-nil (d ∷ disks) h = ground (arith, degraded_names-eq-nil disks)

  -- The array and the message that `assemble` makes before it calls the agent.
  abbrev pub listing : Array F → List (Disk F) → Array F
  listing a disks = record a {
    status = record (a.status) { degraded_disks = degraded_names disks };
  }

  summary : List (Disk F) → List (Disk F) → String
  summary disks parity =
      "Array reconciled with "
      <> (decimal (length disks)
          <> (" data disks, " <> (decimal (length parity) <> " parity disks")))

  target : List (Disk F) → ArrayPhase
  target disks = if is_nil (degraded_names disks) then ArrayPhase.ready else ArrayPhase.degraded

module _ {F : Type 0} (C : Cluster F) (agent : NodeAgentClient F) where
  -- The data disks of an Array as they are read, and then its parity disks, each with the calls.
  abbrev pub data_read : Array F → Trace F → Result (List (Disk F)) × Trace F
  data_read a = resolve_disk_refs C a.spec.data_disks

  abbrev pub parity_read : Array F → Trace F → Result (List (Disk F)) × Trace F
  parity_read a t = resolve_disk_refs C a.spec.parity_disks (data_read a t).1

  -- The agent of the first data disk is sent the configuration of the disks that were read.
  abbrev pub pushed :
      Array F → List (Disk F) → List (Disk F) → Disk F → Trace F → Option Error × Trace F
  pushed a disks parity d t =
      agent.apply_snapraid_config d.spec.node_name
        (build_snapraid_config (listing a (disks ++ parity)) disks parity) (parity_read a t).1

  -- What the written Array `w` rests on in a reconciliation of `a` that starts at `t` and whose calls
  -- before the writing are `calls`.
  pub data IsWarranted (a w : Array F) (t calls : Trace F) : Type 0 where
    data_unresolved :
        (x : Error)
        → (data_read a t).0 ≡ err x
        → calls ≡ (data_read a t).1
        → w.status.phase ≡ ArrayPhase.pending
        → IsWarranted a w t calls
    parity_unresolved :
        (disks : List (Disk F)) (x : Error)
        → (data_read a t).0 ≡ ok disks
        → (parity_read a t).0 ≡ err x
        → calls ≡ (parity_read a t).1
        → w.status.phase ≡ ArrayPhase.pending
        → IsWarranted a w t calls
    refused :
        (disks parity : List (Disk F)) (d : Disk F) (x : Error)
        → (data_read a t).0 ≡ ok disks
        → (parity_read a t).0 ≡ ok parity
        → head? disks ≡ some d
        → (pushed a disks parity d t).0 ≡ some x
        → calls ≡ (pushed a disks parity d t).1
        → w.status.degraded_disks ≡ degraded_names (disks ++ parity)
        → w.status.phase ≡ ArrayPhase.degraded
        → IsWarranted a w t calls
    settled :
        (disks parity : List (Disk F))
        → (data_read a t).0 ≡ ok disks
        → (parity_read a t).0 ≡ ok parity
        → ((head? disks ≡ none) × (calls ≡ (parity_read a t).1))
          ⊎ ((d : Disk F) × (head? disks ≡ some d)
              × ((pushed a disks parity d t).0 ≡ none)
              × (calls ≡ (pushed a disks parity d t).1))
        → w.status.degraded_disks ≡ degraded_names (disks ++ parity)
        → ((w.status.phase ≡ ArrayPhase.ready)
            × All (λ d. is_impaired d.status.phase ≡ false) (disks ++ parity))
          ⊎ ((w.status.phase ≡ ArrayPhase.degraded) × (degraded_names (disks ++ parity) ≢ []))
        → IsWarranted a w t calls

  -- What is written of an Array: its status, after the calls that the writing rests on.
  abbrev pub Wrote : Array F → Trace F → Trace F → Type 0
  Wrote a t t' =
      (w : Array F) × (calls : Trace F) × (t'
        ≡ Call.update_status (Object.array w) ∷ Call.now ∷ calls)
      × (effects calls ≡ effects t)
      × (w.spec ≡ a.spec)
      × (w.meta ≡ a.meta)
      × IsWarranted a w t calls

  module _ (keeps : KeepsObjects agent) (a : Array F) (t : Trace F) where
    data-keeps : effects (data_read a t).1 ≡ effects t
    data-keeps = resolve_disk_refs-keeps C a.spec.data_disks t

    parity-keeps : effects (parity_read a t).1 ≡ effects t
    parity-keeps = resolve_disk_refs-keeps C a.spec.parity_disks (data_read a t).1 ∙ data-keeps

    module _ (disks parity : List (Disk F)) (r₁ : (data_read a t).0 ≡ ok disks)
        (r₂ : (parity_read a t).0 ≡ ok parity) where
      both : List (Disk F)
      both = disks ++ parity

      settled-Wrote :
          (calls : Trace F)
          → effects calls ≡ effects t
          → ((head? disks ≡ none) × (calls ≡ (parity_read a t).1))
            ⊎ ((d : Disk F) × (head? disks ≡ some d)
                × ((pushed a disks parity d t).0 ≡ none)
                × (calls ≡ (pushed a disks parity d t).1))
          → Wrote a t
              (set_array_phase C
                (listing a both)
                (target both)
                "Reconciled"
                (summary disks parity)
                calls).1
      unfolding target both
      settled-Wrote calls kept way = (
        phased (listing a both) (target both) "Reconciled" (summary disks parity) (C.time calls),
        calls,
        set_array_phase-trace C (listing a both) (target both) _ _ calls,
        kept,
        refl,
        refl,
        settled disks parity r₁ r₂ way refl (elim (Bool-cases (is_nil (degraded_names both))) [
          | inl none_listed ↦ inl (rw none_listed, degraded_names-eq-nil both none_listed)
          | inr listed ↦ inr (rw listed, λ z. cc)
        ]),
      )

      -- The last step of `Reconcile`, with what the agent answers.
      assemble-Wrote : Wrote a t (assemble C agent a disks parity (parity_read a t).1).1
      unfolding assemble target both summary
      assemble-Wrote = elim (Option-cases (head? disks)) [
        | inl empty ↦
            rw (empty, assemble)
              (settled-Wrote (parity_read a t).1 parity-keeps (inl (empty, refl)))
        | inr (d, first) ↦
            let kept : effects (pushed a disks parity d t).1 ≡ effects t =
              keeps.apply_snapraid_config-keeps d.spec.node_name _ (parity_read a t).1
              ∙ parity-keeps in
            elim (Option-cases (pushed a disks parity d t).0) [
              | inl done ↦
                  rw (first, assemble, done, ◌>>=◌)
                    (settled-Wrote (pushed a disks parity d t).1 kept (inr (d, first, done, refl)))
              | inr (x, no_push) ↦ (
                phased (listing a both) ArrayPhase.degraded "SnapraidConfigError" x.message
                    (C.time (pushed a disks parity d t).1),
                (pushed a disks parity d t).1,
                rw (first, assemble, no_push, ◌>>=◌)
                    (set_array_phase-trace C (listing a both) ArrayPhase.degraded _ _ _),
                kept,
                refl,
                refl,
                refused disks parity d x r₁ r₂ first no_push refl refl refl,
              )
            ]
      ]

    -- Every reconciliation of an Array writes its status once and last, and no other object but
    -- ConfigMaps, and keeps its metadata and spec. The phase is Pending, and no agent is called, if the
    -- data disks, or after them the parity disks, do not resolve. Else the list of degraded disks is
    -- that of the impaired disks, and the agent of the first data disk, if there is one, is sent the
    -- configuration of the disks that were read: the phase is Degraded if it refuses, and if it does
    -- not, Ready with no data or parity disk Degraded or Failed, or Degraded with some disk listed.
    pub reconcile_array_warranted : Wrote a t (reconcile_array C agent a t).1
    unfolding reconcile_array
    reconcile_array_warranted = elim (Result-cases (data_read a t).0) [
      | inl (x, e) ↦ (
        phased a ArrayPhase.pending "DiskRefError" x.message (C.time (data_read a t).1),
        (data_read a t).1,
        rw (e, ◌>>=◌) (set_array_phase-trace C a ArrayPhase.pending _ _ _),
        data-keeps,
        refl,
        refl,
        data_unresolved x e refl refl,
      )
      | inr (disks, e) ↦ elim (Result-cases (parity_read a t).0) [
        | inl (x, e') ↦ (
          phased a ArrayPhase.pending "ParityDiskRefError" x.message (C.time (parity_read a t).1),
          (parity_read a t).1,
          rw (e, ◌>>=◌, e') (set_array_phase-trace C a ArrayPhase.pending _ _ _),
          parity-keeps,
          refl,
          refl,
          parity_unresolved disks x e e' refl refl,
        )
        | inr (parity, e') ↦ rw (e, ◌>>=◌, e') (assemble-Wrote disks parity e e')
      ]
    ]

-- When an Array that has conditions is given a phase other than Ready, its Ready condition is written
-- with the new reason and message. Its status is false only if no condition ahead of the last one is
-- of type Ready: with a later condition behind it, Ready stays true beside a phase that is not Ready.
pub set_array_phase_condition :
    {F : Type 0} (C : Cluster F) (a : Array F) (p : ArrayPhase) (reason message : String)
    (cs : List Condition) (d : Condition) (t : Trace F)
    → a.status.conditions ≡ cs ++ (d ∷ [])
    → is_ready p ≡ false
    → (w : Array F) × (effects (set_array_phase C a p reason message t).1
        ≡ Call.update_status (Object.array w) ∷ effects t)
      × (w.status.phase ≡ p)
      × (find_condition w.status.conditions "Ready"
          ≡ some (record (ready_condition reason message (C.time t)) {
            status = contains_string (types cs) "Ready";
          }))
set_array_phase_condition C a p reason message cs d t had other = (
  phased a p reason message (C.time t),
  ap effects (set_array_phase-trace C a p reason message t),
  refl,
  rw (other, had)
      (fail_last-set_condition cs d (ready_condition reason message (C.time t)) ∙ ground arith),
)
