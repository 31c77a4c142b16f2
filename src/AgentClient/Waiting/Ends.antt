-- ===== src/AgentClient/Waiting/Ends.antt =====
-- How the polling of an operation's ConfigMap ends, on every branch (`waitForOperationState` of
-- controllers/kubernetes_agent_client.go).
use kube_nas.Base.{
  ℕ, zero, suc, ◌+◌, ◌≤◌, String, ◌<>◌, false, true, none, some, ◌∷◌, ◌≡◌, sym, ap, ◌∙◌, arith, inl,
  inr, str_eq, ◌⊎◌,
}
use kube_nas.Base.Dict.{entry_or_empty}
use kube_nas.Base.Outcome.{Error, Result, ok, err, errorf, is_not_found}
use kube_nas.Cluster.{ConfigMap, Cluster, Trace}
use kube_nas.Agent.{AgentOperationStatus}
use kube_nas.AgentClient.{status_of, pause, wait_rounds, wait_for_operation_state}
use kube_nas.AgentClient.Waiting.{config_maps_at, round, rounds, read_map}

module _ {F : Type 0} (C : Cluster F) (namespace : String) where
  -- A round at `t` that goes on: the operation was not found, or in a state that is no end.
  abbrev pub Idle : String → Trace F → Type 0
  Idle name t =
      ((x : Error) × (config_maps_at C namespace name t ≡ err x) × (is_not_found x ≡ true))
      ⊎ ((cm : ConfigMap) × (config_maps_at C namespace name t ≡ ok cm)
          × (str_eq (entry_or_empty cm.entries "status.state") "Success" ≡ false)
          × (str_eq (entry_or_empty cm.entries "status.state") "Failed" ≡ false))

  -- `k` rounds from `t` go on, and the context is not done after any of them.
  abbrev pub Goes : ℕ → String → Trace F → Type 0
  Goes zero name t = Unit
  Goes (suc k) name t =
      Idle name t
      × (C.done (round C namespace name t) ≡ none)
      × Goes k name (round C namespace name t)

  -- How the round at `t` ends the wait: with the result, and with calls up to `t'`.
  pub data Ends (name : String) (t : Trace F) (r : Result AgentOperationStatus) (t' : Trace F)
      : Type 0 where
    succeeded :
        (cm : ConfigMap)
        → config_maps_at C namespace name t ≡ ok cm
        → entry_or_empty cm.entries "status.state" ≡ "Success"
        → r ≡ ok (status_of name cm)
        → t' ≡ read_map C namespace name ∷ t
        → Ends name t r t'
    failed :
        (cm : ConfigMap)
        → config_maps_at C namespace name t ≡ ok cm
        → entry_or_empty cm.entries "status.state" ≡ "Failed"
        → r
          ≡ err (
              errorf (
                "operation "
                <> (name <> (" failed: " <> entry_or_empty cm.entries "status.message"))))
        → t' ≡ read_map C namespace name ∷ t
        → Ends name t r t'
    unreadable :
        (x : Error)
        → config_maps_at C namespace name t ≡ err x
        → is_not_found x ≡ false
        → r ≡ err x
        → t' ≡ read_map C namespace name ∷ t
        → Ends name t r t'
    cancelled :
        (x : Error)
        → Idle name t
        → C.done (round C namespace name t) ≡ some x
        → r ≡ err x
        → t' ≡ round C namespace name t
        → Ends name t r t'

  wait_rounds-Idle :
      (n : ℕ) (name : String) (t : Trace F)
      → Idle name t
      → wait_rounds C namespace (suc n) name t ≡ (elim (C.done (round C namespace name t)) [
        | some x ↦ (err x, round C namespace name t)
        | none ↦ wait_rounds C namespace n name (round C namespace name t)
      ])
  unfolding wait_rounds pause
  wait_rounds-Idle n name t (inl (x, e, nf)) = ground (arith, e, nf)
  wait_rounds-Idle n name t (inr (cm, e, no_success, no_failure)) =
      ground (arith, e, no_success, no_failure)

  wait_rounds-Goes :
      (n k : ℕ) (name : String) (t : Trace F)
      → Goes k name t
      → wait_rounds C namespace (k + n) name t
        ≡ wait_rounds C namespace n name (rounds C namespace k name t)
  wait_rounds-Goes n zero name t h =
      let same : 0 + n ≡ n = omega arith in ap (λ m. wait_rounds C namespace m name t) same
  wait_rounds-Goes n (suc k) name t (idle, live, h) =
      let same : suc k + n ≡ suc (k + n) = omega arith in
      ap (λ m. wait_rounds C namespace m name t) same
      ∙ wait_rounds-Idle (k + n) name t idle
      ∙ rw live (wait_rounds-Goes n k name (round C namespace name t) h)

  wait_rounds-Ends :
      (n : ℕ) (name : String) (t : Trace F) (r : Result AgentOperationStatus) (t' : Trace F)
      → Ends name t r t'
      → wait_rounds C namespace (suc n) name t ≡ (r, t')
  unfolding wait_rounds
  wait_rounds-Ends n name t r t' (succeeded cm e s same calls) =
      ground (arith, e, ap (λ w. str_eq w "Success") s, same, calls)
  wait_rounds-Ends n name t r t' (failed cm e s same calls) =
      ground (arith, e, ap (λ w. str_eq w "Success") s, ap (λ w. str_eq w "Failed") s, same, calls)
  wait_rounds-Ends n name t r t' (unreadable x e other same calls) =
      ground (arith, e, other, same, calls)
  wait_rounds-Ends n name t r t' (cancelled x idle over same calls) =
      wait_rounds-Idle n name t idle ∙ rw over (ground (arith, same, calls))

  -- A wait goes on for as long as reads find no operation, or a state that is neither Success nor
  -- Failed, and the context is not done. If fewer than 24 rounds do, the next one ends the wait, as its
  -- last: with what the ConfigMap says if the state is Success, with its message as an error if it is
  -- Failed, with the error of a read that fails otherwise, or with the context's error. If 24 rounds go
  -- on, the wait ends with the timeout error, after the calls of these rounds.
  pub wait_for_operation_state-Ends :
      (name : String) (k j : ℕ) (t : Trace F) (r : Result AgentOperationStatus) (t' : Trace F)
      → k + j ≡ 24
      → Goes k name t
      → ((1 ≤ j) × Ends name (rounds C namespace k name t) r t')
        ⊎ ((j ≡ 0)
            × (r ≡ err (errorf ("operation " <> (name <> " timed out"))))
            × (t' ≡ rounds C namespace k name t))
      → wait_for_operation_state C namespace name t ≡ (r, t')
  unfolding wait_for_operation_state wait_rounds
  wait_for_operation_state-Ends name k zero t r t' all goes (inl (few, ends)) = absurd (omega arith)
  wait_for_operation_state-Ends name k (suc j) t r t' all goes (inl (few, ends)) =
      ap (λ n. wait_rounds C namespace n name t) (sym all)
      ∙ (wait_rounds-Goes (suc j) k name t goes
          ∙ wait_rounds-Ends j name (rounds C namespace k name t) r t' ends)
  wait_for_operation_state-Ends name k (suc j) t r t' all goes (inr (over, same, calls)) =
      absurd (omega arith)
  wait_for_operation_state-Ends name k zero t r t' all goes (inr (over, same, calls)) =
      ap (λ n. wait_rounds C namespace n name t) (sym all)
      ∙ (wait_rounds-Goes 0 k name t goes ∙ ground (arith, same, calls))
