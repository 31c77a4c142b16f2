-- ===== src/Tests/Processes.antt =====
-- The theorems on the set-up of the operator, on the driver of volumes and on the stores of maps, at
-- concrete inputs.
use kube_nas.Base.{
  ℕ, false, none, some, [], ◌∷◌, ◌≡◌, ◌⊎◌, ◌≢◌, refl, arith, str_eq, eq_iff, ◌==◌, if◌then◌else◌,
}
use kube_nas.Base.Text
use kube_nas.Base.Fields
use kube_nas.Base.Path
use kube_nas.Base.Path.Below
use kube_nas.Base.Dict
use kube_nas.Base.Outcome.{Error, ok, err, errorf}
use kube_nas.Api.V1
use kube_nas.Api.V1.Copies
use kube_nas.Api.V1.Copies.{Heap, DiskCell}
use kube_nas.Api.V1.Copies.Isolation
use kube_nas.Cluster.Host.{HostCall}
use kube_nas.Cluster.{Call, Cluster, finished}
use kube_nas.Controllers.Failure.{new_meta}
use kube_nas.Controllers.V1.Shared
use kube_nas.Controllers.V1.Shared.Lost
use kube_nas.Csi
use kube_nas.Csi.Volumes
use kube_nas.Startup
use kube_nas.Startup.{Manager, Setup}
use kube_nas.Startup.Started
use kube_nas.Tests.Hosts.{calm_host}
use kube_nas.Tests.Samples.{idle_cluster}

-- A manager that refuses the controller of pools.
abbrev poolless : Manager
poolless = record {
  created = none;
  registered = λ calls s. elim s [
    | Setup.controller name ↦ if str_eq name "Pool" then some (errorf "no such kind") else none
    | _ ↦ none
  ];
  started = λ calls. none;
}

main_lem_example :
    ((x : Error) × (poolless.created ≡ some x)
      × (Startup.main poolless
          ≡ (Startup.Exit.exit_1 "unable to start manager" x, Startup.Call.create ∷ [])))
    ⊎ ((poolless.created ≡ none)
        × (Started.EndsAtFailure poolless Startup.setups
              (Startup.Call.create ∷ [])
              (Startup.main poolless)
            ⊎ Started.EndsAsRun poolless Startup.setups
                (Startup.Call.create ∷ [])
                (Startup.main poolless)))
main_lem_example = Started.main_lem poolless

volume_path-Below_example :
    (Csi.volume_path Csi.new_driver "media" "a/b" ≡ Volumes.below Csi.new_driver "media" "a/b")
    × (((Csi.create_volume calm_host Csi.new_driver "media" "a/b" []).1)
        ≡ Call.host (HostCall.make_dirs (Volumes.below Csi.new_driver "media" "a/b")) ∷ [])
    × (((Csi.create_volume calm_host Csi.new_driver "media" "a/b" []).0
          ≡ ok (Volumes.below Csi.new_driver "media" "a/b"))
        ⊎ ((x : Error) × (none ≡ some x)
            × ((Csi.create_volume calm_host Csi.new_driver "media" "a/b" []).0 ≡ err x)))
    × ((Csi.delete_volume calm_host Csi.new_driver "media" "a/b" []).1
        ≡ Call.host (HostCall.remove_all (Volumes.below Csi.new_driver "media" "a/b")) ∷ [])
    × (((x : Error) × (none ≡ some x)
          × (Csi.node_publish_volume calm_host Csi.new_driver "media" "a/b" "/t" []
              ≡ (some x, Call.host (HostCall.make_dirs "/t") ∷ [])))
        ⊎ ((calm_host.made [] "/t" ≡ none)
            × ((Csi.node_publish_volume calm_host Csi.new_driver "media" "a/b" "/t" []).1
                ≡ Volumes.bound (Volumes.below Csi.new_driver "media" "a/b") "/t" [])))
unfolding Csi.new_driver Path.is_rooted Below.stays Fields.split_onto
volume_path-Below_example =
    Volumes.volume_path-Below calm_host Csi.new_driver "media" "a/b" "/t" [] refl refl refl

-- The pieces `..` of a path lead above the root, to which the volume is then removed.
volume_above_root : Csi.volume_path Csi.new_driver "p" "../.." ≡ "/mnt/kubenas"
unfolding Csi.volume_path Csi.new_driver Path.join_path Path.clean Path.clean_onto Path.is_rooted
    Path.back Path.ends_in_name Path.without_last Fields.split_onto Text.join Text.is_empty
volume_above_root = refl

-- A store with the annotations of a Disk at the address 0 and its labels at 1.
abbrev two_maps : Heap
two_maps = record {
  maps = λ a. if a == 0 then ("note", "spare") ∷ [] else ("bay", "3") ∷ [];
  slices = λ a. [];
  next = 2;
}

abbrev cached_disk : DiskCell
cached_disk = record {
  meta = record { value = new_meta "sda" ""; labels = none; annotations = some 0 };
  spec = record {
    device = "/dev/sda";
    size = "1000";
    rotational = false;
    filesystem = "xfs";
    labels = [];
    health = "Healthy";
    state = V1.DiskLifecycleState.detected;
  };
  labels = some 1;
  status = record { state = V1.DiskLifecycleState.unassigned; health = "Healthy" };
}

abbrev disk_copy : DiskCell × Heap
disk_copy = Copies.disk_deep_copy_into cached_disk two_maps

disk_deep_copy_into-shares_example :
    (Copies.read_disk disk_copy.1 cached_disk ≡ Copies.read_disk two_maps cached_disk)
    × (Dict.entry (Copies.read_disk disk_copy.1 disk_copy.0).spec.labels "bay"
        ≡ Dict.entry (Copies.read_disk two_maps cached_disk).spec.labels "bay")
    × (Copies.read_disk (Isolation.put_at disk_copy.1 disk_copy.0.labels []) cached_disk
        ≡ Copies.read_disk two_maps cached_disk)
    × ((Copies.read_disk
          (Isolation.put_at disk_copy.1 disk_copy.0.meta.annotations [])
          cached_disk).meta.annotations
        ≡ some [])
unfolding Dict.entry
disk_deep_copy_into-shares_example =
    Isolation.disk_deep_copy_into-shares cached_disk two_maps "bay" []
      (tt, omega arith, omega arith) (refl, tt)

-- An API that refuses every write.
abbrev refusing_cluster : Cluster ℕ
refusing_cluster = record idle_cluster { respond = λ t c. some (errorf "unavailable") }

unmarked : Dict.entry_or_empty (("note", "spare") ∷ []) "kubenas.io/last-reconciled" ≢ "now"
unfolding Dict.entry_or_empty
unmarked h = ground (arith, (eq_iff "" "now").1 h)

reconcile_cached-lost_example :
    ((Shared.reconcile_cached refusing_cluster (λ n. "now") cached_disk two_maps []).0.0
      ≡ err (errorf "unavailable"))
    × ((Shared.reconcile_cached refusing_cluster
          (λ n. "now")
          cached_disk
          (Shared.reconcile_cached refusing_cluster (λ n. "now") cached_disk two_maps []).0.1
          []).0.0
        ≡ finished)
    × ((Shared.reconcile_cached refusing_cluster
          (λ n. "now")
          cached_disk
          (Shared.reconcile_cached refusing_cluster (λ n. "now") cached_disk two_maps []).0.1
          []).1
        ≡ Call.now ∷ [])
reconcile_cached-lost_example =
    Lost.reconcile_cached-lost refusing_cluster (λ n. "now") cached_disk 0 two_maps [] []
      (errorf "unavailable") refl refl (omega arith) unmarked (λ c. refl) refl
