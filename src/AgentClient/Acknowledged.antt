-- ===== src/AgentClient/Acknowledged.antt =====
-- What a mount that is answered without an error rests on (EnsureMergerFSMount and postAgentOp of
-- controllers/kubernetes_agent_client.go).
use kube_nas.Base.{String, ◌<>◌, ◌/◌, ◌^◌, none, ◌∷◌, ◌≡◌, refl}
use kube_nas.Base.Text.{decimal}
use kube_nas.Base.Outcome.{ok}
use kube_nas.Cluster.{ConfigMap, Object, Call, Cluster, Trace, ◌>>=◌}
use kube_nas.Agent.{AgentOperationStatus}
use kube_nas.AgentClient.{
  Codec, Payload, operation_map, post_agent_op, run_operation, wait_for_operation_state,
}
use kube_nas.AgentClient.Waiting.{Succeeds}

module _ {F : Type 0} (C : Cluster F) (codec : Codec F) (namespace : String) where
  -- The name of an operation that is posted at a trace.
  abbrev pub operation_name : String → Trace F → String
  operation_name node t = "kubenas-agentop-" <> (node <> ("-" <> decimal (C.time t / 10 ^ 6)))

  -- The ConfigMap of the operation, with the text of its payload.
  abbrev pub operation_of : String → String → String → Trace F → ConfigMap
  operation_of node op_type text t =
      operation_map namespace (operation_name node t) node op_type text

  abbrev pub posting : String → String → String → Trace F → Trace F
  posting node op_type text t =
      Call.create (Object.config_map (operation_of node op_type text t)) ∷ Call.now ∷ t

  -- The payload was written as a text, the creation of the operation's ConfigMap with this text was
  -- sent and taken, and the wait that follows ends with a read that finds the state Success.
  abbrev pub Acknowledged :
      String → String → Payload → AgentOperationStatus → Trace F → Trace F → Type 0
  Acknowledged node op_type payload st t t' =
      (text : String) × (codec.marshal payload ≡ ok text)
      × (C.respond (Call.now ∷ t)
            (Call.create (Object.config_map (operation_of node op_type text t)))
          ≡ none)
      × Succeeds C namespace 24 (operation_name node t) st (posting node op_type text t) t'

  pub post_agent_op-posting :
      (node op_type text : String) (payload : Payload) (t : Trace F)
      → codec.marshal payload ≡ ok text
      → C.respond
          (Call.now ∷ t)
          (Call.create (Object.config_map (operation_of node op_type text t)))
        ≡ none
      → post_agent_op C codec namespace node op_type payload t
        ≡ (ok (operation_name node t), posting node op_type text t)
  unfolding post_agent_op
  post_agent_op-posting node op_type text payload t e taken =
      rw (e, post_agent_op, ◌>>=◌, taken) refl

  pub run_operation-wait :
      (node op_type text : String) (payload : Payload) (t : Trace F)
      → codec.marshal payload ≡ ok text
      → C.respond
          (Call.now ∷ t)
          (Call.create (Object.config_map (operation_of node op_type text t)))
        ≡ none
      → run_operation C codec namespace node op_type payload t
        ≡ wait_for_operation_state C namespace (operation_name node t) (posting node op_type text t)
  unfolding run_operation
  run_operation-wait node op_type text payload t e taken =
      rw (post_agent_op-posting node op_type text payload t e taken, ◌>>=◌) refl
