-- ===== src/Node/Protocol/Requests.antt =====
-- What becomes of the request of a mount, an unmount or a pool's mount that the operator posts
-- (MountDisk, UnmountDisk and EnsureMergerFSMount of controllers/kubernetes_agent_client.go) when a
-- node agent meets it (executeOperation of node-agent/cmd/kubenas-node-agent/main.go).
use kube_nas.Base.{String, Bool, str_eq, false, Option, none, some, ◌∷◌, ◌≡◌, refl, ap, ◌∙◌}
use kube_nas.Base.Dict.{entry, entry_or_empty, set_entry}
use kube_nas.Base.Outcome.{Error, Result, ok, err}
use kube_nas.Cluster.{ConfigMap, Object, Call, Cluster, Trace, ◌>>=◌}
use kube_nas.Agent
use kube_nas.Agent.{MountDiskRequest, AgentOperationStatus}
use kube_nas.AgentClient.{
  Codec, Payload, operation_map, wait_for_operation_state, mount_disk, unmount_disk,
  ensure_mergerfs_mount, error_of,
}
use kube_nas.AgentClient.Acknowledged.{operation_name, operation_of, posting, run_operation-wait}
use kube_nas.Node.Host.{Host}
use kube_nas.Node.Agent.{Json, NodeAgent}
use kube_nas.Node.Disk.{unmount_device, mount_mergerfs}
use kube_nas.Node.Operations.{
  has_seen, running, ended, perform, perform_mount, execute_new, execute_operation,
}
use kube_nas.Node.Operations.Outcome.{execute_operation-new, state_of-ended, state_word}
use kube_nas.Node.Protocol.{listed, operation_id-listed}

-- What the operator asks of an agent.
pub data Request : Type 0 where
  mount : MountDiskRequest → Request
  unmount : String → Request
  pool : Agent.MergerfsMountRequest → Request

abbrev pub op_type_of : Request → String
op_type_of (mount q) = "mount"
op_type_of (unmount path) = "unmount"
op_type_of (pool q) = "mergerfs-mount"

abbrev pub payload_of : Request → Payload
payload_of (mount q) = Payload.mount q
payload_of (unmount path) = Payload.unmount path
payload_of (pool q) = Payload.mergerfs q

-- The agent reads of the text, by its own types, what the operator asked.
abbrev pub Reads : {F : Type 0} → Json F → String → Request → Type 0
Reads json text (mount q) =
    json.read_mount text
    ≡ ok (record {
      device_path = q.device_path;
      mount_point = q.mount_point;
      filesystem = q.filesystem;
      format_if_empty = q.format_if_empty;
    })
Reads json text (unmount path) = json.read_unmount text ≡ ok (record { mount_point = path })
Reads json text (pool q) =
    json.read_mergerfs text
    ≡ ok (record {
      branches = q.branches;
      mount_point = q.mount_point;
      category_create = q.category_create;
      min_free_space = q.min_free_space;
      extra_options = q.extra_options;
    })

-- What the agent's host is asked for a request.
abbrev pub host_part : {F : Type 0} → Host F → Request → Trace F → Option Error × Trace F
host_part H (mount q) = perform_mount H (record {
  device_path = q.device_path;
  mount_point = q.mount_point;
  filesystem = q.filesystem;
  format_if_empty = q.format_if_empty;
})
host_part H (unmount path) = unmount_device H path
host_part H (pool q) =
    mount_mergerfs H q.branches q.mount_point q.category_create q.min_free_space q.extra_options

module _ {F : Type 0} (C : Cluster F) (codec : Codec F) (namespace : String) where
  -- The operator's call for a request, with the error of its answer.
  abbrev pub client_part : String → Request → Trace F → Option Error × Trace F
  client_part node (mount q) t = mount_disk C codec namespace node q t
  client_part node (unmount path) t = unmount_disk C codec namespace node path t
  client_part node (pool q) t =
      let (r, t') = ensure_mergerfs_mount C codec namespace node q t in (error_of r, t')

  client_part-wait :
      (node text : String) (q : Request) (t : Trace F)
      → codec.marshal (payload_of q) ≡ ok text
      → C.respond (Call.now ∷ t) (
          Call.create
            (Object.config_map (operation_of C codec namespace node (op_type_of q) text t)))
        ≡ none
      → let (r, t') =
          wait_for_operation_state C namespace
            (operation_name C codec namespace node t)
            (posting C codec namespace node (op_type_of q) text t) in
        client_part node q t ≡ (error_of r, t')
  unfolding mount_disk unmount_disk ensure_mergerfs_mount
  client_part-wait node text (mount q) t enc taken =
      rw
        (
          run_operation-wait C codec namespace node "mount" text (Payload.mount q) t enc taken,
          ◌>>=◌,
        )
        refl
  client_part-wait node text (unmount path) t enc taken =
      rw
        (
          run_operation-wait C codec namespace node "unmount" text (Payload.unmount path) t enc
              taken,
          ◌>>=◌,
        )
        refl
  client_part-wait node text (pool q) t enc taken =
      rw
        (
          run_operation-wait C codec namespace node "mergerfs-mount" text (Payload.mergerfs q) t enc
              taken,
          ◌>>=◌,
        )
        (ap
          (λ e. (
            e,
            (wait_for_operation_state C namespace (operation_name C codec namespace node t)
                (posting C codec namespace node "mergerfs-mount" text t)).1,
          ))
          (same _))
    where
      same :
          (r : Result AgentOperationStatus)
          → error_of (elim r as (λ s. Result Bool) [
            | err x ↦ err x
            | ok st ↦ ok (str_eq st.state "Success")
          ])
            ≡ error_of r
      same (err x) = refl
      same (ok st) = refl

  perform-host_part :
      (H : Host F) (json : Json F) (text : String) (q : Request) (t : Trace F)
      → Reads json text q
      → perform H json (op_type_of q) text t ≡ host_part H q t
  unfolding perform
  perform-host_part H json text (mount q) t dec = rw dec refl
  perform-host_part H json text (unmount path) t dec = rw dec refl
  perform-host_part H json text (pool q) t dec = rw dec refl

  module _ (H : Host F) (json : Json F) where
    -- How the operator's call for a request starts, and how an agent that meets it at `t₁` ends it.
    abbrev pub Carries : NodeAgent → String → String → String → Request → Trace F → Trace F → Type 0
    Carries a version node text q t t₁ =
        let name = operation_name C codec namespace node t in
        let cm = listed C codec namespace H json version name node (op_type_of q) text in
        let (r, t₂) =
          wait_for_operation_state C namespace name
            (posting C codec namespace node (op_type_of q) text t) in
        let (e, t₃) = host_part H q (Call.update (Object.config_map (running cm)) ∷ t₁) in
        (client_part node q t ≡ (error_of r, t₂))
        × ((a' : NodeAgent) × (last : ConfigMap) × (execute_operation H json C a cm t₁
              ≡ (some a', Call.update (Object.config_map last) ∷ Call.now ∷ t₃))
            × (entry_or_empty last.entries "status.state" ≡ state_word e))

    -- A mount, an unmount or a pool's mount whose creation the API takes is posted for its node and is
    -- waited for. Where the agent reads of the posted text just what the operator asked, an agent to
    -- which the operation is new writes the state Running, asks its host for just this request, and
    -- writes the state Success if that gives no error and Failed if it gives one.
    pub execute_operation-Carries :
        (a : NodeAgent) (version node text : String) (q : Request) (t t₁ : Trace F)
        → codec.marshal (payload_of q) ≡ ok text
        → Reads json text q
        → C.respond (Call.now ∷ t) (
            Call.create
              (Object.config_map (operation_of C codec namespace node (op_type_of q) text t)))
          ≡ none
        → has_seen a.processed_operations (operation_name C codec namespace node t) ≡ false
        → Carries a version node text q t t₁
    unfolding operation_map execute_new entry_or_empty entry running set_entry
    execute_operation-Carries a version node text q t t₁ enc dec taken new =
        let name = operation_name C codec namespace node t in
        let cm = listed C codec namespace H json version name node (op_type_of q) text in
        let start : Trace F = Call.update (Object.config_map (running cm)) ∷ t₁ in
        (
          client_part-wait node text q t enc taken,
          (
            (execute_new H json C a cm t₁).0,
            ended (host_part H q start).0 (running cm),
            execute_operation-new H json C a cm t₁ _ _
                  (ap (has_seen a.processed_operations) (
                      operation_id-listed C codec namespace H json version name node (op_type_of q)
                        text)
                    ∙ new)
                  refl
                ∙ ap
                    (λ r. (
                      some (execute_new H json C a cm t₁).0,
                      Call.update (Object.config_map (ended r.0 (running cm))) ∷ Call.now ∷ r.1,
                    ))
                    (perform-host_part H json text q start dec),
            state_of-ended (host_part H q start).0 (running cm),
          ),
        )
