-- ===== src/Node/Sizes.antt =====
-- The devices that DiscoverDevices of node-agent/pkg/disk/disk.go lists, and the size that the v1 Disk
-- of each is written with (`upsertDiskCRs` of node-agent/cmd/kubenas-node-agent/main.go).
use kube_nas.Base.{◌<>◌, true, false, List, [], ◌∷◌, ◌≡◌, ◌⊎◌}
use kube_nas.Base.Fields.{has_prefix}
use kube_nas.Base.Int.{IsInt64}
use kube_nas.Base.ParseInt.{parse_int}
use kube_nas.Node.Host.{Host}
use kube_nas.Node.Disk.{Device, LsblkDevice}
use kube_nas.Node.Discovery.{disk_resource}

-- What a listed device, and the v1 Disk that is written for it, have from an entry of lsblk's output.
pub record IsOf (l : LsblkDevice) (d : Device) : Type 0 where
  pub path : d.device_path ≡ "/dev/" <> l.name
  pub size : d.size_bytes ≡ parse_int l.size
  pub fits : IsInt64 d.size_bytes
  pub rotates : d.rotational ≡ l.rota
  pub mounted_at : d.mount_point ≡ l.mountpoint
  pub written_for : (disk_resource d).spec.device ≡ d.device_path
  pub written_size : parse_int (disk_resource d).spec.size ≡ d.size_bytes

-- The devices are those of the entries, one for each and in the same order, but for the entries of loop
-- devices and of CD-ROMs, which have none.
pub data Reports : List LsblkDevice → List Device → Type 0 where
  nothing : Reports [] []
  passed :
      (l : LsblkDevice) (ls : List LsblkDevice) (ds : List Device)
      → (has_prefix l.name "loop" ≡ true) ⊎ (has_prefix l.name "sr" ≡ true)
      → Reports ls ds
      → Reports (l ∷ ls) ds
  reported :
      (l : LsblkDevice) (ls : List LsblkDevice) (d : Device) (ds : List Device)
      → has_prefix l.name "loop" ≡ false
      → has_prefix l.name "sr" ≡ false
      → IsOf l d
      → Reports ls ds
      → Reports (l ∷ ls) (d ∷ ds)
