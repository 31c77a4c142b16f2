-- ===== src/Node/Loop/Once.antt =====
-- How often the node agent starts an operation (`Run` of node-agent/cmd/kubenas-node-agent/main.go).
use kube_nas.Base.{
  ℕ, ◌+◌, ◌≤◌, String, false, Option, none, some, List, [], ◌∷◌, inl, inr, Bool-cases, Option-cases,
  ◌≡◌, refl, arith, str_eq, if◌then◌else◌, eq_iff,
}
use kube_nas.Base.Dict.{entry_or_empty}
use kube_nas.Base.Outcome.{Error, Result-cases}
use kube_nas.Base.Float.{Float64}
use kube_nas.Cluster.{ConfigMap, Object, Kind, Call, Cluster, Trace, Action, pure, ◌>>=◌}
use kube_nas.Node.Host.{Host}
use kube_nas.Node.Agent.{Json, NodeAgent}
use kube_nas.Node.Discovery.{run_discovery}
use kube_nas.Node.Operations.{
  has_seen, operation_id, running, ended, perform, execute_new, execute_operation, execute_all,
  process_operation_requests,
}
use kube_nas.Node.Operations.Outcome.{entry-with_state, state_of-ended}
use kube_nas.Node.Loop.{Event, handle, loop, run_agent}
use kube_nas.Node.Loop.Quiet.{run_discovery-Quiet, run_smart_checks-Quiet}
use kube_nas.Node.Starts.{starts, start_step, scan_calls, is_running, perform-Quiet}

-- The starts that an agent has left for an operation; a process that panicked has none.
unfoldable pub left : String → NodeAgent → ℕ
left id a = if has_seen a.processed_operations id then 0 else 1

unfoldable pub left_of : String → Option NodeAgent → ℕ
left_of id none = 0
left_of id (some a) = left id a

operation_id-running : (cm : ConfigMap) → operation_id (running cm) ≡ operation_id cm
unfolding operation_id running
operation_id-running cm =
    rw (entry-with_state "Running" "operation in progress" "operationID" cm) refl

is_running-other :
    (id : String) (cm : ConfigMap)
    → str_eq (operation_id cm) id ≡ false
    → is_running id (running cm) ≡ false
unfolding is_running
is_running-other id cm h = rw (operation_id-running cm) (ground (arith, h))

is_running-ended :
    (id : String) (e : Option Error) (cm : ConfigMap) → is_running id (ended e cm) ≡ false
unfolding is_running
is_running-ended id none cm = rw (state_of-ended none cm) (ground arith)
is_running-ended id (some x) cm = rw (state_of-ended (some x) cm) (ground arith)

module _ {F : Type 0} (id : String) (fl : Float64 F) (H : Host F) (json : Json F)
    (C : Cluster F) where
  -- An action after which the starts so far and those left are no more than before.
  abbrev Spends : NodeAgent → Action F (Option NodeAgent) → Type 0
  Spends a m = (t : Trace F) → starts id (m t).1 + left_of id (m t).0 ≤ starts id t + left id a

  execute_new-Spends :
      (a : NodeAgent) (cm : ConfigMap) (t : Trace F)
      → has_seen a.processed_operations (operation_id cm) ≡ false
      → starts id (execute_new H json C a cm t).1 + left id (execute_new H json C a cm t).0
        ≤ starts id t + left id a
  unfolding execute_new left has_seen scan_calls
  execute_new-Spends a cm t new =
      let started = running cm in
      let t1 = Call.update (Object.config_map started) ∷ t in
      let (e, t2) =
        perform H json (entry_or_empty cm.entries "operation")
          (entry_or_empty started.entries "payload") t1 in
      elim (Bool-cases (str_eq (operation_id cm) id)) [
        | inl same ↦ ground (
          arith,
          same,
          new,
          (eq_iff (operation_id cm) id).0 same,
          is_running-ended id e started,
          perform-Quiet (start_step id) 0 H json (entry_or_empty cm.entries "operation")
              (entry_or_empty started.entries "payload") t1,
        )
        | inr other ↦ ground (
          arith,
          other,
          is_running-ended id e started,
          is_running-other id cm other,
          perform-Quiet (start_step id) 0 H json (entry_or_empty cm.entries "operation")
              (entry_or_empty started.entries "payload") t1,
        )
      ]

  execute_operation-Spends :
      (a : NodeAgent) (cm : ConfigMap) → Spends a (execute_operation H json C a cm)
  unfolding execute_operation left_of
  execute_operation-Spends a cm t =
      elim (Bool-cases (has_seen a.processed_operations (operation_id cm))) [
        | inl seen ↦ ground (arith, seen)
        | inr new ↦ ground (arith, new, execute_new-Spends a cm t new)
      ]

  -- A panic ends the process; otherwise the next action goes on with the agent that the first left.
  then-Spends :
      (a : NodeAgent) (m : Action F (Option NodeAgent))
      (k : NodeAgent → Action F (Option NodeAgent))
      → Spends a m
      → ((a' : NodeAgent) → Spends a' (k a'))
      → Spends a (m >>= λ r. elim r [ none ↦ pure none | some a' ↦ k a' ])
  unfolding left_of
  then-Spends a m k first next t = elim (Option-cases (m t).0) [
    | inl e ↦ ground (arith, e, first t)
    | inr (a', e) ↦ ground (arith, e, first t, next a' (m t).1)
  ]

  execute_all-Spends :
      (cms : List ConfigMap) (a : NodeAgent) → Spends a (execute_all H json C a cms)
  unfolding execute_all left_of
  execute_all-Spends [] a t = omega arith
  execute_all-Spends (cm ∷ cms) a t =
      then-Spends a (execute_operation H json C a cm) (λ a'. execute_all H json C a' cms)
        (execute_operation-Spends a cm) (execute_all-Spends cms) t

  process_operation_requests-Spends :
      (a : NodeAgent) → Spends a (process_operation_requests H json C a)
  unfolding process_operation_requests left_of scan_calls
  process_operation_requests-Spends a t =
      let labels : List (String × String) =
        ("kubenas.io/agent-op", "true") ∷ ("kubenas.io/node", a.node_name) ∷ [] in
      elim (Result-cases (C.config_maps t a.namespace labels)) [
        | inl (x, e) ↦ ground (arith, e)
        | inr (cms, e) ↦
            ground (
              arith,
              e,
              execute_all-Spends cms a (Call.list Kind.config_maps a.namespace labels ∷ t),
            )
      ]

  handle-Spends : (a : NodeAgent) (e : Event) → Spends a (handle fl H json C a e)
  unfolding handle left_of
  handle-Spends a Event.done t = omega arith
  handle-Spends a Event.discovery_tick t = ground (arith, run_discovery-Quiet id fl H json C a t)
  handle-Spends a Event.smart_tick t = ground (arith, run_smart_checks-Quiet id fl H json t)
  handle-Spends a Event.operations_tick t = process_operation_requests-Spends a t

  loop-Spends : (es : List Event) (a : NodeAgent) → Spends a (loop fl H json C a es)
  unfolding loop left_of
  loop-Spends [] a t = omega arith
  loop-Spends (Event.done ∷ es) a t = omega arith
  loop-Spends (Event.discovery_tick ∷ es) a t =
      then-Spends a (handle fl H json C a Event.discovery_tick) (λ a'. loop fl H json C a' es)
        (handle-Spends a Event.discovery_tick) (loop-Spends es) t
  loop-Spends (Event.smart_tick ∷ es) a t =
      then-Spends a (handle fl H json C a Event.smart_tick) (λ a'. loop fl H json C a' es)
        (handle-Spends a Event.smart_tick) (loop-Spends es) t
  loop-Spends (Event.operations_tick ∷ es) a t =
      then-Spends a (handle fl H json C a Event.operations_tick) (λ a'. loop fl H json C a' es)
        (handle-Spends a Event.operations_tick) (loop-Spends es) t

  -- In any sequence of ticks, and whatever the API and the host answer, a process of the agent starts
  -- an operation, that is, writes its ConfigMap with the state Running, at most once if it has not
  -- processed it yet, and not at all if it has.
  pub run_agent-once :
      (a : NodeAgent) (es : List Event) (t : Trace F)
      → starts id (run_agent fl H json C a es t).1 ≤ starts id t + left id a
  unfolding run_agent
  run_agent-once a es t = ground (
    arith,
    run_discovery-Quiet id fl H json C a t,
    loop-Spends es a (run_discovery fl H json C a t).1,
  )
