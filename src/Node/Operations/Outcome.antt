-- ===== src/Node/Operations/Outcome.antt =====
-- What becomes of one operation in the node agent (`executeOperation` of
-- node-agent/cmd/kubenas-node-agent/main.go).
use kube_nas.Base.{
  String, true, false, Option, none, some, List, [], ◌∷◌, ◌≡◌, refl, arith, str_eq, eq_iff, inl,
  inr, ◌⊎◌, List-cases, Bool-cases, ◌∙◌, if◌then◌else◌, ap,
}
use kube_nas.Base.Dict.{entry_or_empty, set_entry, entry_or_empty-set_entry}
use kube_nas.Base.Outcome.{Error}
use kube_nas.Cluster.{ConfigMap, Object, Call, Cluster, Trace}
use kube_nas.Node.Host.{Host}
use kube_nas.Node.Agent.{Json, NodeAgent}
use kube_nas.Node.Operations.{
  has_seen, operation_id, with_state, running, ended, perform, execute_new, execute_operation,
}

-- What a ConfigMap says under a key after its state was set.
pub entry-with_state :
    (state message key : String) (cm : ConfigMap)
    → entry_or_empty (with_state state message cm).entries key ≡ (
        if str_eq "status.message" key
        then message
        else if str_eq "status.state" key
        then state
        else entry_or_empty cm.entries key)
entry-with_state state message key cm =
    entry_or_empty-set_entry (set_entry cm.entries "status.state" state) "status.message" message
      key
    ∙ ap (λ v. if str_eq "status.message" key then message else v)
        (entry_or_empty-set_entry cm.entries "status.state" state key)

abbrev pub state_word : Option Error → String
state_word none = "Success"
state_word (some x) = "Failed"

-- A ConfigMap with a state, which is Failed with the text of the error or Success.
pub state_of-ended :
    (e : Option Error) (cm : ConfigMap)
    → entry_or_empty (ended e cm).entries "status.state" ≡ state_word e
unfolding ended
state_of-ended none cm = entry-with_state "Success" "completed" "status.state" cm
state_of-ended (some x) cm = entry-with_state "Failed" x.message "status.state" cm

abbrev pub message_word : Option Error → String
message_word none = "completed"
message_word (some x) = x.message

pub message_of-ended :
    (e : Option Error) (cm : ConfigMap)
    → entry_or_empty (ended e cm).entries "status.message" ≡ message_word e
unfolding ended
message_of-ended none cm = entry-with_state "Success" "completed" "status.message" cm
message_of-ended (some x) cm = entry-with_state "Failed" x.message "status.message" cm

pub meta-ended-running : (e : Option Error) (cm : ConfigMap) → (ended e (running cm)).meta ≡ cm.meta
unfolding ended running
meta-ended-running none cm = refl
meta-ended-running (some x) cm = refl

module _ {F : Type 0} where
  -- The trace in which an operation is performed, and what performing it gives.
  abbrev pub performed : Host F → Json F → ConfigMap → Trace F → Option Error × Trace F
  performed H json cm t =
      perform H json (entry_or_empty cm.entries "operation")
        (entry_or_empty (running cm).entries "payload")
        (Call.update (Object.config_map (running cm)) ∷ t)

module _ {F : Type 0} (H : Host F) (json : Json F) (C : Cluster F) where
  pub execute_operation-new :
      (a : NodeAgent) (cm : ConfigMap) (t : Trace F) (e : String × String)
      (es : List (String × String))
      → has_seen a.processed_operations (operation_id cm) ≡ false
      → cm.entries ≡ e ∷ es
      → execute_operation H json C a cm t
        ≡ (some (execute_new H json C a cm t).0, (execute_new H json C a cm t).1)
  unfolding execute_operation
  execute_operation-new a cm t e es new full = ground (arith, new, full)

  -- What the agent leaves of an operation that it performed: the agent with its identifier, and a last
  -- write, whose state and message are the result's and whose metadata is still that of the ConfigMap
  -- that was listed.
  abbrev pub Answered : ConfigMap → Trace F → NodeAgent → Trace F → Type 0
  Answered cm t a' t' =
      (last : ConfigMap) × (t'
        ≡ Call.update (Object.config_map last) ∷ Call.now ∷ (performed H json cm t).1)
      × (has_seen a'.processed_operations (operation_id cm) ≡ true)
      × (entry_or_empty last.entries "status.state" ≡ state_word (performed H json cm t).0)
      × (entry_or_empty last.entries "status.message" ≡ message_word (performed H json cm t).0)
      × (last.meta ≡ cm.meta)

  -- The three ways in which the agent meets the ConfigMap of an operation: it was processed, and
  -- nothing is done; it is new but has no entries, and the assignment to its state panics; or it is
  -- new, is performed, and counts as processed. Then the last call writes the ConfigMap with the state
  -- Success, or Failed with the text of the error, and with the metadata, so also the resource
  -- version, that it had when it was listed.
  pub execute_operation_lem :
      (a : NodeAgent) (cm : ConfigMap) (t : Trace F)
      → ((has_seen a.processed_operations (operation_id cm) ≡ true)
          × (execute_operation H json C a cm t ≡ (some a, t)))
        ⊎ ((has_seen a.processed_operations (operation_id cm) ≡ false)
            × (((cm.entries ≡ []) × (execute_operation H json C a cm t ≡ (none, t)))
                ⊎ ((a' : NodeAgent) × (t' : Trace F) × (execute_operation H json C a cm t
                      ≡ (some a', t'))
                    × Answered cm t a' t')))
  unfolding execute_operation execute_new has_seen
  execute_operation_lem a cm t =
      let (e, t₂) = performed H json cm t in
      elim (Bool-cases (has_seen a.processed_operations (operation_id cm))) [
        | inl seen ↦ inl (seen, ground (arith, seen))
        | inr new ↦ inr (
          new,
          elim (List-cases cm.entries) [
            | inl empty ↦ inl (empty, ground (arith, new, empty))
            | inr (x, xs, full) ↦ inr (
              record a {
                processed_operations = (operation_id cm, C.time t₂) ∷ a.processed_operations;
              },
              _,
              execute_operation-new a cm t x xs new full,
              (
                ended e (running cm),
                refl,
                ground (arith, eq_iff (operation_id cm) (operation_id cm)),
                state_of-ended e (running cm),
                message_of-ended e (running cm),
                meta-ended-running e cm,
              ),
            )
          ],
        )
      ]
