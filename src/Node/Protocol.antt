-- ===== src/Node/Protocol.antt =====
-- The operator's agent client (controllers/kubernetes_agent_client.go) and the node agent
-- (node-agent/cmd/kubenas-node-agent/main.go) together, over an API that stores what it takes and
-- refuses stale writes: what becomes of an operation that one posts and the other executes.
pub mod Parity
pub mod Requests
use kube_nas.Base.{
  ℕ, zero, suc, ◌/◌, ◌^◌, String, ◌<>◌, Bool, true, false, ◌&&◌, Option, none, some, List, ◌∷◌, ◌≡◌,
  refl, ap, ◌∙◌, arith, str_eq, eq_iff, if◌then◌else◌,
}
use kube_nas.Base.Dict.{entry, entry_or_empty, set_entry}
use kube_nas.Base.Outcome.{Error, ok, err, errorf}
use kube_nas.Base.Text.{is_empty, decimal}
use kube_nas.Api.Meta.{Key}
use kube_nas.Cluster.{ConfigMap, Object, Call, Cluster, Trace, ◌>>=◌}
use kube_nas.AgentClient.{Codec, Payload, operation_map, pause, wait_rounds, post_agent_op}
use kube_nas.AgentClient.Acknowledged.{operation_name, operation_of, posting, post_agent_op-posting}
use kube_nas.AgentClient.Waiting.{round, rounds}
use kube_nas.Node.Host.{Host}
use kube_nas.Node.Agent.{Json, NodeAgent}
use kube_nas.Node.Operations.{
  has_seen, operation_id, running, ended, perform, execute_new, execute_operation,
}
use kube_nas.Node.Operations.Outcome.{
  entry-with_state, execute_operation-new, meta-ended-running, state_of-ended, state_word,
  performed,
}
use kube_nas.Node.Operations.Conflict.{Versioned, is_none, ended-refused}
use kube_nas.Node.Starts.{scan_calls, perform-Quiet}

abbrev pub Entries : Type 0
Entries = List (String × String)

-- Whether a ConfigMap has the key.
abbrev pub is_at : Key → ConfigMap → Bool
is_at key cm = str_eq cm.meta.name key.name && str_eq cm.meta.namespace key.namespace

-- What a call would leave under the key, if it is about the key: the entries, or none after a deletion.
abbrev pub left_at : {F : Type 0} → Key → Call F → Option (Option Entries)
left_at key (Call.create (Object.config_map cm)) =
    if is_at key cm then some (some cm.entries) else none
left_at key (Call.update (Object.config_map cm)) =
    if is_at key cm then some (some cm.entries) else none
left_at key (Call.delete (Object.config_map cm)) = if is_at key cm then some none else none
left_at key _ = none

module _ {F : Type 0} (respond : Trace F → Call F → Option Error) where
  abbrev pub stored_step : Key → Trace F → Call F → Option Entries → Option Entries
  stored_step key t c before = elim (left_at key c) [
    | none ↦ before
    | some after ↦ if is_none (respond t c) then after else before
  ]

  -- The entries of the last ConfigMap under the key that the API took.
  abbrev pub stored : Key → Trace F → Option Entries
  stored key = scan_calls (stored_step key) none

-- What the Kubernetes API promises of reads: one of a ConfigMap that was stored finds what was stored
-- last.
abbrev pub Serves : {F : Type 0} → Cluster F → Type 0
Serves {F} C =
    (t : Trace F) (key : Key) (es : Entries)
    → stored C.respond key t ≡ some es
    → (cm : ConfigMap) × (C.config_map t key ≡ ok cm) × (cm.entries ≡ es)

module _ {F : Type 0} (C : Cluster F) (namespace : String) (serves : Serves C)
    (live : (t : Trace F) → C.done t ≡ none) where
  abbrev map_key : String → Key
  map_key name = record { name = name; namespace = namespace }

  -- While the stored state is Running, each round goes on to the next, and the wait times out.
  wait_rounds-running :
      (n : ℕ) (name : String) (cm : ConfigMap) (t : Trace F)
      → stored C.respond (map_key name) t ≡ some (running cm).entries
      → (wait_rounds C namespace n name t).0 ≡ err (errorf ("operation " <> (name <> " timed out")))
  unfolding wait_rounds pause running scan_calls
  wait_rounds-running zero name cm t held = refl
  wait_rounds-running (suc n) name cm t held =
      let (found, read, same) = serves t (map_key name) _ held in
      let state : entry_or_empty found.entries "status.state" ≡ "Running" =
        ap (λ es. entry_or_empty es "status.state") same
        ∙ entry-with_state "Running" "operation in progress" "status.state" cm in
      ground (
        arith,
        read,
        ap (λ s. str_eq s "Success") state,
        ap (λ s. str_eq s "Failed") state,
        live (round C namespace name t),
        wait_rounds-running n name cm (round C namespace name t) held,
      )

module _ {F : Type 0} (C : Cluster F) (codec : Codec F) (namespace : String) (H : Host F)
    (json : Json F) where
  -- The ConfigMap of a posted operation as it is listed: the API gave it a resource version.
  abbrev pub listed : String → String → String → String → String → ConfigMap
  listed version name node op_type text =
      let posted = operation_map namespace name node op_type text in
      record posted { meta = record (posted.meta) { resource_version = version } }

  pub operation_id-listed :
      (version name node op_type text : String)
      → operation_id (listed version name node op_type text) ≡ name
  unfolding operation_id operation_map entry_or_empty entry
  operation_id-listed version name node op_type text = ground arith

  -- What is stored after the agent executed the operation is what it wrote first.
  stored-execute :
      (version name node op_type text : String) (t : Trace F)
      → Versioned C
      → is_empty version ≡ false
      → C.respond t
          (Call.update (Object.config_map (running (listed version name node op_type text))))
        ≡ none
      → let cm = listed version name node op_type text in
        let (r, t₂) = performed H json cm t in
        stored C.respond
          (record { name = name; namespace = namespace })
          (Call.update (Object.config_map (ended r (running cm))) ∷ Call.now ∷ t₂)
        ≡ some (running cm).entries
  unfolding operation_map running scan_calls
  stored-execute version name node op_type text t promise full first =
      let cm = listed version name node op_type text in
      let (x, refused) = ended-refused H json C cm t promise full first in
      let key : Key = record { name = name; namespace = namespace } in
      ground (
        arith,
        refused,
        first,
        eq_iff name name,
        eq_iff namespace namespace,
        perform-Quiet (stored_step C.respond key) none H json
            (entry_or_empty cm.entries "operation") (entry_or_empty (running cm).entries "payload")
            (Call.update (Object.config_map (running cm)) ∷ t),
      )

  -- How an operation ends that is posted at `t`, and executed after `k` rounds of waiting.
  abbrev pub TimesOut :
      NodeAgent → String → String → String → String → Payload → ℕ → Trace F → Type 0
  TimesOut a version node op_type text payload k t =
      let name = operation_name C codec namespace node t in
      let cm = listed version name node op_type text in
      let t₁ = rounds C namespace k name (posting C codec namespace node op_type text t) in
      let start = Call.update (Object.config_map (running cm)) ∷ t₁ in
      let (r, t₂) = perform H json op_type text start in
      (post_agent_op C codec namespace node op_type payload t
        ≡ (ok name, posting C codec namespace node op_type text t))
      × ((a' : NodeAgent) × (last : ConfigMap) × (execute_operation H json C a cm t₁
            ≡ (some a', Call.update (Object.config_map last) ∷ Call.now ∷ t₂))
          × (has_seen a'.processed_operations name ≡ true)
          × (entry_or_empty last.entries "status.state" ≡ state_word r)
          × (last.meta ≡ cm.meta)
          × ((n : ℕ)
              → (wait_rounds C namespace n name
                  (Call.update (Object.config_map last) ∷ Call.now ∷ t₂)).0
                ≡ err (errorf ("operation " <> (name <> " timed out")))))

  -- The API stores what it takes and refuses a stale update, and the context is not done. The operator
  -- posts an operation, whose payload is written as a text, the API takes it, and after any rounds of
  -- waiting the agent, to which the operation is new, executes it as it is listed, with a resource
  -- version; the write of the state Running is taken. Then the operation's ConfigMap was created, and
  -- the agent performed just what was posted and counts the operation as processed; its last write is
  -- the result of it, with the same version. But however the operation ended, and however many rounds
  -- are left to the operator, the operator's answer is that the operation timed out.
  pub wait_rounds-execute_operation :
      (a : NodeAgent) (version node op_type text : String) (payload : Payload) (k : ℕ) (t : Trace F)
      → Versioned C
      → Serves C
      → ((t' : Trace F) → C.done t' ≡ none)
      → codec.marshal payload ≡ ok text
      → is_empty version ≡ false
      → let name = operation_name C codec namespace node t in
        let cm = listed version name node op_type text in
        let t₁ = rounds C namespace k name (posting C codec namespace node op_type text t) in
        C.respond
            (Call.now ∷ t)
            (Call.create (Object.config_map (operation_of C codec namespace node op_type text t)))
          ≡ none
        → has_seen a.processed_operations name ≡ false
        → C.respond t₁ (Call.update (Object.config_map (running cm))) ≡ none
        → TimesOut a version node op_type text payload k t
  unfolding operation_map execute_new entry_or_empty entry running set_entry has_seen
  wait_rounds-execute_operation a version node op_type text payload k t promise serves live enc full
        taken new first =
      let name = operation_name C codec namespace node t in
      let cm = listed version name node op_type text in
      let t₁ = rounds C namespace k name (posting C codec namespace node op_type text t) in
      let r = (performed H json cm t₁).0 in
      let id = operation_id-listed version name node op_type text in
      (
        post_agent_op-posting C codec namespace node op_type text payload t enc taken,
        (
          (execute_new H json C a cm t₁).0,
          ended r (running cm),
          execute_operation-new H json C a cm t₁ _ _ (ap (has_seen a.processed_operations) id ∙ new)
              refl,
          ground (arith, id, eq_iff name name),
          state_of-ended r (running cm),
          meta-ended-running r cm,
          λ n.
              wait_rounds-running C namespace serves live n name cm _
                (stored-execute version name node op_type text t₁ promise full first),
        ),
      )
