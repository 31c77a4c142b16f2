-- ===== src/AgentClient/Waiting.antt =====
-- The polling of an operation's ConfigMap (`waitForOperationState`).
pub mod Ends
use kube_nas.Base.{
  ℕ, zero, suc, ◌+◌, ◌≤◌, ◌*◌, String, true, some, ◌∷◌, ◌≡◌, sym, ap, ◌∙◌, arith, inl, inr,
  Bool-cases, str_eq, eq_iff, length, ◌⊎◌,
}
use kube_nas.Base.Dict.{entry_or_empty}
use kube_nas.Base.Outcome.{Error, Result, ok, is_not_found, Result-cases}
use kube_nas.Cluster.{ConfigMap, Kind, Call, Cluster, Trace}
use kube_nas.Agent.{AgentOperationStatus}
use kube_nas.AgentClient.{status_of, pause, wait_rounds, wait_for_operation_state}

module _ {F : Type 0} (C : Cluster F) (namespace : String) where
  abbrev pub config_maps_at : String → Trace F → Result ConfigMap
  config_maps_at name t = C.config_map t (record { name = name; namespace = namespace })

  -- The calls of the waiting: reads of the operation's ConfigMap, and pauses.
  wait_rounds-length :
      (n : ℕ) (name : String) (t : Trace F)
      → length (wait_rounds C namespace n name t).1 ≤ length t + 2 * n
  unfolding wait_rounds pause
  wait_rounds-length zero name t = omega arith
  wait_rounds-length (suc n) name t = ground (
    arith,
    wait_rounds-length n name (
        Call.sleep 2
        ∷ Call.read Kind.config_maps (record { name = name; namespace = namespace })
        ∷ t),
  )

  -- The calls of a round that goes on to the next.
  abbrev pub round : String → Trace F → Trace F
  round name t =
      Call.sleep 2 ∷ Call.read Kind.config_maps (record { name = name; namespace = namespace }) ∷ t

  -- What a success of the waiting rests on: a read that found the state Success.
  abbrev pub SawSuccess : String → AgentOperationStatus → Trace F → Type 0
  SawSuccess name st t =
      (cm : ConfigMap) × (config_maps_at name t ≡ ok cm)
      × (st ≡ status_of name cm)
      × (entry_or_empty cm.entries "status.state" ≡ "Success")

  -- The calls of `k` such rounds.
  abbrev pub rounds : ℕ → String → Trace F → Trace F
  rounds zero name t = t
  rounds (suc k) name t = rounds k name (round name t)

  abbrev pub read_map : String → Call F
  read_map name = Call.read Kind.config_maps (record { name = name; namespace = namespace })

  -- A success of a wait of `n` rounds from `t`, with its calls: after fewer than `n` rounds, the read
  -- that is its last call found the state Success.
  abbrev pub Succeeds : ℕ → String → AgentOperationStatus → Trace F → Trace F → Type 0
  Succeeds n name st t t' =
      (k : ℕ) × (suc k ≤ n)
      × SawSuccess name st (rounds k name t)
      × (t' ≡ read_map name ∷ rounds k name t)

  wait_rounds_step :
      (n : ℕ) (name : String) (t : Trace F) (st : AgentOperationStatus)
      → (wait_rounds C namespace (suc n) name t).0 ≡ ok st
      → (SawSuccess name st t × ((wait_rounds C namespace (suc n) name t).1 ≡ read_map name ∷ t))
        ⊎ (wait_rounds C namespace (suc n) name t ≡ wait_rounds C namespace n name (round name t))
  unfolding wait_rounds pause
  wait_rounds_step n name t st h = elim (Result-cases (config_maps_at name t)) [
    | inl (x, e) ↦ inr (ground arith)
    | inr (cm, e) ↦
        elim (Bool-cases (str_eq (entry_or_empty cm.entries "status.state") "Success")) [
          | inl done ↦ inl ((cm, e, ground arith, (eq_iff _ _).0 done), ground arith)
          | inr other ↦ inr (ground arith)
        ]
  ]

  wait_rounds_ok :
      (n : ℕ) (name : String) (t : Trace F) (st : AgentOperationStatus)
      → (wait_rounds C namespace n name t).0 ≡ ok st
      → Succeeds n name st t (wait_rounds C namespace n name t).1
  unfolding wait_rounds
  wait_rounds_ok zero name t st h = absurd (cc)
  wait_rounds_ok (suc n) name t st h = elim (wait_rounds_step n name t st h) [
    | inl (saw, calls) ↦ (0, omega arith, saw, calls)
    | inr next ↦
        let (k, few, saw, calls) =
          wait_rounds_ok n name (round name t) st (ap (λ r. r.0) (sym next) ∙ h) in
        (suc k, omega arith, saw, ap (λ r. r.1) next ∙ calls)
  ]

  -- A wait that returns without an error has read the operation's ConfigMap with the state Success
  -- after fewer than 24 rounds, as its last call, and returns what that ConfigMap says.
  pub wait_for_operation_state_success :
      (name : String) (t : Trace F) (st : AgentOperationStatus)
      → (wait_for_operation_state C namespace name t).0 ≡ ok st
      → Succeeds 24 name st t (wait_for_operation_state C namespace name t).1
  unfolding wait_for_operation_state
  wait_for_operation_state_success name t st h = wait_rounds_ok 24 name t st h

  -- Whatever the API answers, a wait makes at most 48 calls: a read and a pause in each of 24 rounds.
  pub wait_for_operation_state_bounded :
      (name : String) (t : Trace F)
      → length (wait_for_operation_state C namespace name t).1 ≤ length t + 48
  unfolding wait_for_operation_state
  wait_for_operation_state_bounded name t = wait_rounds-length 24 name t
