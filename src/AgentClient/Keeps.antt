-- ===== src/AgentClient/Keeps.antt =====
-- The agent over ConfigMaps meets what the controllers rely on.
use kube_nas.Base.{◌<>◌, ℕ, zero, suc, String, ◌∷◌, ◌≡◌, refl, ◌∙◌, arith, inl, inr}
use kube_nas.Base.Float.{Float64}
use kube_nas.Base.Outcome.{Result-cases}
use kube_nas.Cluster.{Kind, Call, Cluster, Trace, ◌>>=◌}
use kube_nas.Agent.{SnapraidConfig}
use kube_nas.Agent.Laws.{effects, KeepsObjects}
use kube_nas.AgentClient.{
  Codec, Payload, get_disk_status, post_agent_op, pause, wait_rounds, wait_for_operation_state,
  run_operation, mount_disk, unmount_disk, ensure_mergerfs_mount, apply_snapraid_config,
  kubernetes_agent_client, run_parity_operation, get_disk_io_stats,
}

module _ {F : Type 0} (C : Cluster F) (codec : Codec F) (namespace : String) where
  post_agent_op-keeps :
      (node op_type : String) (payload : Payload) (t : Trace F)
      → effects (post_agent_op C codec namespace node op_type payload t).1 ≡ effects t
  unfolding post_agent_op
  post_agent_op-keeps node op_type payload t = ground arith

  wait_rounds-keeps :
      (n : ℕ) (name : String) (t : Trace F)
      → effects (wait_rounds C namespace n name t).1 ≡ effects t
  unfolding wait_rounds pause
  wait_rounds-keeps zero name t = refl
  wait_rounds-keeps (suc n) name t = ground (
    arith,
    wait_rounds-keeps n name (
        Call.sleep 2
        ∷ Call.read Kind.config_maps (record { name = name; namespace = namespace })
        ∷ t),
  )

  run_operation-keeps :
      (node op_type : String) (payload : Payload) (t : Trace F)
      → effects (run_operation C codec namespace node op_type payload t).1 ≡ effects t
  unfolding run_operation wait_for_operation_state
  run_operation-keeps node op_type payload t =
      elim (Result-cases (post_agent_op C codec namespace node op_type payload t).0) [
        | inl (x, e) ↦ rw (e, ◌>>=◌) (post_agent_op-keeps node op_type payload t)
        | inr (name, e) ↦
            rw (e, ◌>>=◌)
              (wait_rounds-keeps 24 name (post_agent_op C codec namespace node op_type payload t).1
                ∙ post_agent_op-keeps node op_type payload t)
      ]

  apply_snapraid_config-keeps_lem :
      (node : String) (cfg : SnapraidConfig) (t : Trace F)
      → effects (apply_snapraid_config C namespace node cfg t).1 ≡ effects t
  unfolding apply_snapraid_config
  apply_snapraid_config-keeps_lem node cfg t = ground arith

  -- Every operation of the agent client, on every answer of the API and at every round of its waiting,
  -- leaves alone all objects but ConfigMaps: the interface that the controllers' theorems assume is
  -- met.
  pub kubernetes_agent_client-KeepsObjects :
      (fl : Float64 F) → KeepsObjects (kubernetes_agent_client C codec namespace fl)
  unfolding kubernetes_agent_client get_disk_status mount_disk unmount_disk ensure_mergerfs_mount
      run_parity_operation get_disk_io_stats wait_for_operation_state
  kubernetes_agent_client-KeepsObjects fl = record {
    get_disk_status-keeps = λ node path t. refl;
    mount_disk-keeps = λ node q t. run_operation-keeps node "mount" (Payload.mount q) t;
    unmount_disk-keeps = λ node path t. run_operation-keeps node "unmount" (Payload.unmount path) t;
    apply_snapraid_config-keeps = apply_snapraid_config-keeps_lem;
    ensure_mergerfs_mount-keeps =
        λ node q t. run_operation-keeps node "mergerfs-mount" (Payload.mergerfs q) t;
    run_parity_operation-keeps =
        λ node operation t. run_operation-keeps node ("parity-" <> operation) Payload.nothing t;
    get_disk_io_stats-keeps = λ node path t. refl;
    wait_for_operation-keeps = λ id t. wait_rounds-keeps 24 id t;
  }
