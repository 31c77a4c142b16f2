-- ===== src/Tests/Disks.antt =====
-- The theorems on Disk, Array and Pool at concrete inputs.
use kube_nas.Base.{ℕ, false, some, [], ◌∷◌, ◌≡◌, refl, arith, ◌⊎◌, not, ◌&&◌, str_eq}
use kube_nas.Base.Int.{pos}
use kube_nas.Base.Outcome.{Error, err}
use kube_nas.Api.Disk.{Disk}
use kube_nas.Api.Array.{Array, ArrayPhase}
use kube_nas.Api.Meta.{Key}
use kube_nas.Cluster.{ConfigMap, Object, Kind, Call, Trace}
use kube_nas.Agent.Laws.{effects}
use kube_nas.Controllers.Disk as DiskController
use kube_nas.Controllers.Disk.Laws as DiskLaws
use kube_nas.Controllers.Array as ArrayController
use kube_nas.Controllers.Array.Laws as ArrayLaws
use kube_nas.Base.Fields.Split
use kube_nas.AgentClient
use kube_nas.Controllers.Array.Rendered
use kube_nas.Controllers.Pool as PoolController
use kube_nas.Controllers.Pool.Laws as PoolLaws
use kube_nas.Controllers.Pool.Members
use kube_nas.Agent.Conditions.{find_condition}
use kube_nas.Agent.Helpers.{contains_string}
use kube_nas.Controllers.Disk.{disk_finalizer}
use kube_nas.Tests.Samples.{
  thousandths, spinning_disk, solid_disk, three_disks, ready_condition_of, one_array, one_pool,
  calm_cluster, finalizing_cluster, sample_key, willing_agent, willing_agent-KeepsObjects,
}

reconcile_normal_truthful_example :
    DiskLaws.Wrote thousandths calm_cluster willing_agent spinning_disk []
      (DiskController.reconcile_normal calm_cluster willing_agent thousandths spinning_disk []).1
reconcile_normal_truthful_example =
    DiskLaws.reconcile_normal_truthful thousandths calm_cluster willing_agent
      willing_agent-KeepsObjects spinning_disk []

reconcile_array_warranted_example :
    ArrayLaws.Wrote calm_cluster willing_agent one_array []
      (ArrayController.reconcile_array calm_cluster willing_agent one_array []).1
reconcile_array_warranted_example =
    ArrayLaws.reconcile_array_warranted calm_cluster willing_agent willing_agent-KeepsObjects
      one_array []

reconcile_pool_served_example :
    PoolLaws.Wrote calm_cluster willing_agent one_pool []
      (PoolController.reconcile_pool calm_cluster willing_agent one_pool []).1
reconcile_pool_served_example =
    PoolLaws.reconcile_pool_served calm_cluster willing_agent one_pool willing_agent-KeepsObjects []

collect_branches_lem_example :
    let got = Members.members (Members.answers calm_cluster ("a" ∷ "solid" ∷ []) []) in
    let r =
      (PoolController.collect_branches calm_cluster
        ("a" ∷ "solid" ∷ [])
        PoolController.no_branches
        []).0 in
    (r.branches ≡ Members.mount_points got)
    × (r.disk_names ≡ Members.names_of got)
    × (r.total_bytes ≡ pos 2000)
unfolding Members.answers Members.members
collect_branches_lem_example =
    Members.collect_branches_lem calm_cluster ("a" ∷ "solid" ∷ []) [] (1000 ∷ 1000 ∷ []) refl
      (omega arith)

reconcile_delete_releases_example :
    (w : Disk ℕ) × (effects
        (DiskController.reconcile_delete calm_cluster willing_agent spinning_disk []).1
      ≡ Call.update (Object.disk w) ∷ [])
    × (contains_string w.meta.finalizers disk_finalizer ≡ false)
    × (contains_string w.meta.finalizers "other" ≡ (
        not (str_eq disk_finalizer "other")
        && contains_string spinning_disk.meta.finalizers "other"))
    × (w.spec ≡ spinning_disk.spec)
    × (w.status ≡ spinning_disk.status)
reconcile_delete_releases_example =
    DiskLaws.reconcile_delete_releases thousandths calm_cluster willing_agent
      willing_agent-KeepsObjects spinning_disk "other" []

reconcile_finalizer_first_example :
    ((DiskController.reconcile finalizing_cluster willing_agent thousandths sample_key []).1
      ≡ Call.update (
          Object.disk
            (DiskLaws.with_finalizer thousandths finalizing_cluster willing_agent spinning_disk))
        ∷ Call.read Kind.disks sample_key
        ∷ [])
    × (DiskController.reconcile finalizing_cluster willing_agent thousandths sample_key
          (Call.now ∷ [])
        ≡ DiskController.reconcile_normal finalizing_cluster willing_agent thousandths
            (DiskLaws.with_finalizer thousandths finalizing_cluster willing_agent spinning_disk)
            (Call.read Kind.disks sample_key ∷ Call.now ∷ []))
    × ((calls : Trace ℕ) × ((DiskController.reconcile finalizing_cluster willing_agent thousandths
            sample_key
            (Call.now ∷ Call.now ∷ [])).1
          ≡ Call.update (
              Object.disk (
                DiskLaws.being_deleted thousandths finalizing_cluster willing_agent 7
                  spinning_disk))
            ∷ calls))
unfolding contains_string
reconcile_finalizer_first_example =
    DiskLaws.reconcile_finalizer_first thousandths finalizing_cluster willing_agent spinning_disk
      sample_key 7 [] (Call.now ∷ []) (Call.now ∷ Call.now ∷ []) refl refl refl refl refl

set_array_phase_condition_example :
    (w : Array ℕ) × (effects
        (ArrayController.set_array_phase calm_cluster one_array ArrayPhase.degraded "Disk" "lost"
          []).1
      ≡ Call.update_status (Object.array w) ∷ [])
    × (w.status.phase ≡ ArrayPhase.degraded)
    × (find_condition w.status.conditions "Ready"
        ≡ some (record (ready_condition_of "Ready") {
          reason = "Disk";
          message = "lost";
          last_transition_time = 0;
        }))
unfolding contains_string
set_array_phase_condition_example =
    ArrayLaws.set_array_phase_condition calm_cluster one_array ArrayPhase.degraded "Disk" "lost"
      (ready_condition_of "Ready" ∷ []) (ready_condition_of "Synced") [] refl refl

abbrev node_key : Key
node_key = record { name = "kubenas-snapraid-node-a"; namespace = "nas" }

apply_snapraid_config-HasConfigOf_example :
    ((cm : ConfigMap) × Rendered.HasConfigOf one_array three_disks (solid_disk ∷ []) cm
      × (((AgentClient.apply_snapraid_config calm_cluster "nas" "node-a"
              (ArrayController.build_snapraid_config one_array three_disks (solid_disk ∷ []))
              []).1
            ≡ Call.create (Object.config_map cm) ∷ Call.read Kind.config_maps node_key ∷ [])
          ⊎ ((AgentClient.apply_snapraid_config calm_cluster "nas" "node-a"
                (ArrayController.build_snapraid_config one_array three_disks (solid_disk ∷ []))
                []).1
              ≡ Call.update (Object.config_map cm) ∷ Call.read Kind.config_maps node_key ∷ [])))
    ⊎ ((x : Error) × (calm_cluster.config_map [] node_key ≡ err x)
        × (AgentClient.apply_snapraid_config calm_cluster "nas" "node-a"
              (ArrayController.build_snapraid_config one_array three_disks (solid_disk ∷ []))
              []
            ≡ (some x, Call.read Kind.config_maps node_key ∷ [])))
unfolding Split.lacks
apply_snapraid_config-HasConfigOf_example =
    Rendered.apply_snapraid_config-HasConfigOf calm_cluster "nas" "node-a" one_array three_disks
      (solid_disk ∷ []) [] tt tt (refl, (refl, (refl, tt))) (refl, tt)
