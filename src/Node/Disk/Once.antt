-- ===== src/Node/Disk/Once.antt =====
-- EnsureFstabEntry of node-agent/pkg/disk/disk.go, called again for a device.
use kube_nas.Base.{String, ◌<>◌, true, none, ◌∷◌, ◌≡◌, arith}
use kube_nas.Base.Text.{codes, codes-append, contains, contains-append}
use kube_nas.Base.Outcome.{ok}
use kube_nas.Cluster.Host.{HostCall}
use kube_nas.Cluster.{Call, Trace}
use kube_nas.Node.Host.{Host}
use kube_nas.Node.Disk.{fstab_entry, add_fstab_entry, ensure_fstab_entry}

contains-fstab_entry :
    (contents device_path mount_point filesystem options : String)
    → contains
        (codes (contents <> fstab_entry device_path mount_point filesystem options))
        (codes device_path)
      ≡ true
unfolding fstab_entry
contains-fstab_entry s d m fs o =
    let rest = "\t" <> (m <> ("\t" <> (fs <> ("\t" <> (o <> "\t0\t0\n"))))) in
    rw (codes-append s (d <> rest), codes-append d rest)
      (contains-append (codes s) (codes d) (codes rest))

module _ {F : Type 0} (H : Host F) where
  add_fstab_entry-present :
      (contents device_path entry : String) (t : Trace F)
      → contains (codes contents) (codes device_path) ≡ true
      → add_fstab_entry H contents device_path entry t ≡ (none, t)
  unfolding add_fstab_entry
  add_fstab_entry-present contents device_path entry t h = ground (arith, h)

  -- When /etc/fstab has the entry of a device at its end, a further call for this device, with whatever
  -- mount point, file system and options, reads the file, writes nothing, and returns no error.
  pub ensure_fstab_entry-once :
      (device_path mount_point filesystem options contents : String)
      → (mount_point' filesystem' options' : String) → (t : Trace F)
      → H.contents t "/etc/fstab"
        ≡ ok (contents <> fstab_entry device_path mount_point filesystem options)
      → ensure_fstab_entry H device_path mount_point' filesystem' options' t
        ≡ (none, Call.host (HostCall.read "/etc/fstab") ∷ t)
  unfolding ensure_fstab_entry
  ensure_fstab_entry-once d m fs o contents m' fs' o' t h = ground (
    arith,
    h,
    add_fstab_entry-present (contents <> fstab_entry d m fs o) d (fstab_entry d m' fs' o')
        (Call.host (HostCall.read "/etc/fstab") ∷ t) (contains-fstab_entry contents d m fs o),
  )
