-- ===== src/Node/Protocol/Parity.antt =====
-- What becomes of a parity operation that the operator posts (RunParityOperation of
-- controllers/kubernetes_agent_client.go) when a node agent meets it (executeOperation of
-- node-agent/cmd/kubenas-node-agent/main.go).
use kube_nas.Base.{String, ◌<>◌, false, none, some, ◌∷◌, ◌≡◌, refl, ap, ◌∙◌}
use kube_nas.Base.Dict.{entry, entry_or_empty, set_entry}
use kube_nas.Base.Outcome.{ok, errorf}
use kube_nas.Base.Text.{append-differs}
use kube_nas.Cluster.{ConfigMap, Object, Call, Cluster, Trace, ◌>>=◌}
use kube_nas.AgentClient.{
  Codec, Payload, operation_map, wait_for_operation_state, run_parity_operation, error_of,
}
use kube_nas.AgentClient.Acknowledged.{operation_name, operation_of, posting, run_operation-wait}
use kube_nas.Node.Host.{Host}
use kube_nas.Node.Agent.{Json, NodeAgent}
use kube_nas.Node.Operations.{has_seen, running, ended, perform, execute_new, execute_operation}
use kube_nas.Node.Operations.Outcome.{execute_operation-new, state_of-ended, message_of-ended}
use kube_nas.Node.Protocol.{listed, operation_id-listed}

module _ {F : Type 0} (C : Cluster F) (codec : Codec F) (namespace : String) (H : Host F)
    (json : Json F) where
  parity-unknown :
      (operation text : String) (t : Trace F)
      → perform H json ("parity-" <> operation) text t
        ≡ (some (errorf ("unknown operation type " <> ("parity-" <> operation))), t)
  unfolding perform
  parity-unknown operation text t =
      rw
        (
          append-differs "parity-" "mount" operation 112 109 _ _ refl refl refl,
          append-differs "parity-" "unmount" operation 112 117 _ _ refl refl refl,
          append-differs "parity-" "mergerfs-mount" operation 112 109 _ _ refl refl refl,
        )
        refl

  -- How the operator's run of a parity operation starts, and how an agent that meets it at `t₁` ends
  -- it.
  abbrev pub FailsUnknown :
      NodeAgent → String → String → String → String → Trace F → Trace F → Type 0
  FailsUnknown a version node operation text t t₁ =
      let op_type = "parity-" <> operation in
      let name = operation_name C codec namespace node t in
      let cm = listed C codec namespace H json version name node op_type text in
      let (r, t₂) =
        wait_for_operation_state C namespace name (posting C codec namespace node op_type text t) in
      (run_parity_operation C codec namespace node operation t ≡ (error_of r, t₂))
      × ((a' : NodeAgent) × (last : ConfigMap) × (execute_operation H json C a cm t₁ ≡ (
        some a',
        Call.update (Object.config_map last)
            ∷ Call.now
            ∷ Call.update (Object.config_map (running cm))
            ∷ t₁,
      ))
          × (entry_or_empty last.entries "status.state" ≡ "Failed")
          × (entry_or_empty last.entries "status.message"
              ≡ "unknown operation type " <> ("parity-" <> operation)))

  -- A parity operation whose creation the API takes is posted with the type `parity-` and its name, and
  -- is waited for. An agent to which it is new asks nothing of its host for it, whatever operation it
  -- names: it writes the state Running, and then Failed with the text that the type is unknown.
  pub run_parity_operation-unknown :
      (a : NodeAgent) (version node operation text : String) (t t₁ : Trace F)
      → codec.marshal Payload.nothing ≡ ok text
      → C.respond (Call.now ∷ t) (
          Call.create (
            Object.config_map
              (operation_of C codec namespace node ("parity-" <> operation) text t)))
        ≡ none
      → has_seen a.processed_operations (operation_name C codec namespace node t) ≡ false
      → FailsUnknown a version node operation text t t₁
  unfolding run_parity_operation operation_map execute_new entry_or_empty entry running set_entry
  run_parity_operation-unknown a version node operation text t t₁ enc taken new =
      let op_type = "parity-" <> operation in
      let name = operation_name C codec namespace node t in
      let cm = listed C codec namespace H json version name node op_type text in
      let failed = some (errorf ("unknown operation type " <> op_type)) in
      (
        rw
            (
              run_operation-wait C codec namespace node op_type text Payload.nothing t enc taken,
              ◌>>=◌,
            )
            refl,
        (
          (execute_new H json C a cm t₁).0,
          ended failed (running cm),
          execute_operation-new H json C a cm t₁ _ _
                (ap (has_seen a.processed_operations)
                    (operation_id-listed C codec namespace H json version name node op_type text)
                  ∙ new)
                refl
              ∙ ap
                  (λ r. (
                    some (execute_new H json C a cm t₁).0,
                    Call.update (Object.config_map (ended r.0 (running cm))) ∷ Call.now ∷ r.1,
                  ))
                  (parity-unknown operation text
                    (Call.update (Object.config_map (running cm)) ∷ t₁)),
          state_of-ended failed (running cm),
          message_of-ended failed (running cm),
        ),
      )
