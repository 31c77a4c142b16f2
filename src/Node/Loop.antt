-- ===== src/Node/Loop.antt =====
-- `Run` of node-agent/cmd/kubenas-node-agent/main.go: the `select` takes one of the channels that are
-- ready, so the events are a list in any order.
pub mod Quiet
pub mod Once
use kube_nas.Base.{Option, none, some, List, [], ◌∷◌}
use kube_nas.Base.Float.{Float64}
use kube_nas.Cluster.{Cluster, Action, pure, ◌>>=◌, ◌>>◌}
use kube_nas.Node.Host.{Host}
use kube_nas.Node.Agent.{Json, NodeAgent}
use kube_nas.Node.Discovery.{run_discovery, run_smart_checks}
use kube_nas.Node.Operations.{process_operation_requests}

pub data Event : Type 0 where
  done discovery_tick smart_tick operations_tick : Event

module _ {F : Type 0} (fl : Float64 F) (H : Host F) (json : Json F) (C : Cluster F) where
  -- One pass of the loop at a tick.
  unfoldable pub handle : NodeAgent → Event → Action F (Option NodeAgent)
  handle a done = pure (some a)
  handle a discovery_tick = run_discovery fl H json C a >> pure (some a)
  handle a smart_tick = run_smart_checks fl H json >> pure (some a)
  handle a operations_tick = process_operation_requests H json C a

  -- The agent after the events so far, or after `done`, which ends the loop.
  unfoldable pub loop : NodeAgent → List Event → Action F (Option NodeAgent)
  loop a [] = pure (some a)
  loop a (done ∷ es) = pure (some a)
  loop a (e ∷ es) = handle a e >>= λ r. elim r [ none ↦ pure none | some a' ↦ loop a' es ]

  unfoldable pub run_agent : NodeAgent → List Event → Action F (Option NodeAgent)
  run_agent a es = run_discovery fl H json C a >> loop a es
