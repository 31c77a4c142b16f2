-- ===== src/Node/Mount.antt =====
-- node-agent/mount/mount.go, which passes on what node-agent/pkg/disk/disk.go does.
use kube_nas.Base.{String, Option, List}
use kube_nas.Base.Outcome.{Error}
use kube_nas.Cluster.{Action}
use kube_nas.Node.Host.{Host}
use kube_nas.Node.Disk.{mount_device, unmount_device, mount_mergerfs}

module _ {F : Type 0} (H : Host F) where
  unfoldable pub device : String → String → String → Action F (Option Error)
  device device_path mount_point fs = mount_device H device_path mount_point fs

  unfoldable pub unmount : String → Action F (Option Error)
  unmount mount_point = unmount_device H mount_point

  unfoldable pub merger_fs :
      List String → String → String → String → String → Action F (Option Error)
  merger_fs branches mount_point category_create min_free_space extra =
      mount_mergerfs H branches mount_point category_create min_free_space extra
