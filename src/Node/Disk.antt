-- ===== src/Node/Disk.antt =====
-- node-agent/pkg/disk/disk.go. `parse_lsblk` is `json.Unmarshal` into `lsblkOutput`.
pub mod Fstab
pub mod Once
use kube_nas.Base.{
  String, ◌<>◌, Bool, true, false, Option, none, some, List, [], ◌∷◌, ◌++◌, not, ◌||◌,
  if◌then◌else◌, str_eq,
}
use kube_nas.Base.Int.{ℤ}
use kube_nas.Base.Text.{quoted, is_empty, join, codes, contains}
use kube_nas.Base.Fields.{fields, trim_space, split_lines, has_prefix}
use kube_nas.Base.ParseInt.{parse_int}
use kube_nas.Base.Outcome.{Error, Reason, Result, ok, err, errorf, wrap}
use kube_nas.Cluster.{Action, pure, ◌>>=◌, ◌>>◌}
use kube_nas.Node.Host.{Host, run, make_dirs, scan, read_file, open_append, write, wrap_stderr}

pub record Device : Type 0 where
  pub name : String
  pub device_path : String
  pub size_bytes : ℤ
  pub rotational : Bool
  pub model : String
  pub serial : String
  pub filesystem : String
  pub mount_point : String
  pub children : List String

-- The children, which `--nodeps` leaves out and nothing reads, are not here.
pub record LsblkDevice : Type 0 where
  pub name : String
  pub size : String
  pub rota : Bool
  pub model : String
  pub serial : String
  pub fstype : String
  pub mountpoint : String

pub record LsblkOutput : Type 0 where
  pub blockdevices : List LsblkDevice

unfoldable pub is_skipped : LsblkDevice → Bool
is_skipped d = has_prefix d.name "loop" || has_prefix d.name "sr"

unfoldable pub device_of : LsblkDevice → Device
device_of d = record {
  name = d.name;
  device_path = "/dev/" <> d.name;
  size_bytes = parse_int d.size;
  rotational = d.rota;
  model = trim_space d.model;
  serial = trim_space d.serial;
  filesystem = d.fstype;
  mount_point = d.mountpoint;
  children = [];
}

-- The loop of `DiscoverDevices`.
unfoldable pub devices_of : List LsblkDevice → List Device
devices_of [] = []
devices_of (d ∷ ds) = let rest = devices_of ds in if is_skipped d then rest else device_of d ∷ rest

-- The text that is added to /etc/fstab.
unfoldable pub fstab_entry : String → String → String → String → String
fstab_entry device_path mount_point filesystem options =
    device_path
    <> ("\t" <> (mount_point <> ("\t" <> (filesystem <> ("\t" <> (options <> "\t0\t0\n"))))))

-- Whether the second field of a line is the path.
unfoldable pub names_mount : String → String → Bool
names_mount path line = elim (fields line) [ _ ∷ point ∷ _ ↦ str_eq point path | _ ↦ false ]

unfoldable pub has_mount : String → List String → Bool
has_mount path [] = false
has_mount path (line ∷ lines) =
    let rest = has_mount path lines in if names_mount path line then true else rest

unfoldable pub mount_args : String → String → String → List String
mount_args device_path mount_point filesystem =
    (("-t" ∷ filesystem ∷ [])
      ++ (if str_eq filesystem "xfs" then "-o" ∷ "noatime,nodiratime" ∷ [] else []))
    ++ (device_path ∷ mount_point ∷ [])

unfoldable pub mergerfs_options : String → String → String → String
mergerfs_options create_policy min_free_space extra =
    let base =
      "defaults,allow_other,category.create="
      <> (create_policy <> (",minfreespace=" <> (min_free_space <> ",fsname=mergerfs"))) in
    if is_empty extra then base else base <> ("," <> extra)

-- What `df` printed: the used and the available bytes of its second line.
unfoldable pub usage_of : String → Result (ℤ × ℤ)
usage_of output = elim (split_lines (trim_space output)) [
  | _ ∷ line ∷ _ ↦ elim (fields line) [
    | used ∷ available ∷ _ ↦ ok (parse_int used, parse_int available)
    | _ ↦ err (errorf ("unexpected df fields: " <> line))
  ]
  | _ ↦ err (errorf ("unexpected df output: " <> output))
]

-- `DiscoverDevices` after `lsblk` ended, with what its output reads as.
unfoldable pub listed : Option Error → Result LsblkOutput → Result (List Device)
listed (some x) read = err (wrap "lsblk failed" x)
listed none (err x) = err (wrap "parsing lsblk output" x)
listed none (ok out) = ok (devices_of out.blockdevices)

module _ {F : Type 0} (H : Host F) where
  unfoldable pub discover_devices : (String → Result LsblkOutput) → Action F (Result (List Device))
  discover_devices parse_lsblk = do
    e ← run H "lsblk" (
        "--json" ∷ "--output" ∷ "NAME,SIZE,ROTA,MODEL,SERIAL,FSTYPE,MOUNTPOINT" ∷ "--bytes"
        ∷ "--nodeps" ∷ [])
    pure (listed e.error (parse_lsblk e.stdout))

  unfoldable pub get_device_filesystem : String → Action F (Result String)
  get_device_filesystem device_path = do
    e ← run H "blkid" ("-s" ∷ "TYPE" ∷ "-o" ∷ "value" ∷ device_path ∷ [])
    pure (ok (elim e.error [ some x ↦ "" | none ↦ trim_space e.stdout ]))

  -- The switch of `FormatDevice`: the command for a file system.
  unfoldable pub mkfs_command : String → String → Option (String × List String)
  mkfs_command device_path filesystem =
      if str_eq filesystem "xfs"
      then some ("mkfs.xfs", "-f" ∷ device_path ∷ [])
      else if str_eq filesystem "ext4"
      then some ("mkfs.ext4", "-F" ∷ device_path ∷ [])
      else if str_eq filesystem "btrfs"
      then some ("mkfs.btrfs", "-f" ∷ device_path ∷ [])
      else none

  -- A command whose error is reported with what it printed.
  abbrev pub run_or_fail : String → List String → String → Action F (Option Error)
  run_or_fail name args prefix = do
    e ← run H name args
    pure (elim e.error [ none ↦ none | some x ↦ some (wrap_stderr prefix e x) ])

  unfoldable pub format_device : String → String → Action F (Option Error)
  format_device device_path filesystem = elim (mkfs_command device_path filesystem) [
    | none ↦ pure (some (errorf ("unsupported filesystem " <> quoted filesystem)))
    | some (name, args) ↦ run_or_fail name args ("mkfs " <> (filesystem <> (" on " <> device_path)))
  ]

  unfoldable pub is_mounted : String → Action F Bool
  is_mounted mount_point t = elim (H.absolute t mount_point) [
    | err x ↦ (false, t)
    | ok path ↦
        (scan H "/proc/mounts" >>= λ found.
        pure (elim found [ err x ↦ false | ok lines ↦ has_mount path lines ]))
          t
  ]

  unfoldable pub mount_device : String → String → String → Action F (Option Error)
  mount_device device_path mount_point filesystem = make_dirs H mount_point >>= λ e. elim e [
    | some x ↦ pure (some (wrap ("creating mount point " <> mount_point) x))
    | none ↦ is_mounted mount_point >>= λ mounted.
        if mounted
        then pure none
        else run_or_fail "mount" (mount_args device_path mount_point filesystem)
            ("mounting " <> (device_path <> (" at " <> mount_point)))
  ]

  unfoldable pub unmount_device : String → Action F (Option Error)
  unmount_device mount_point = is_mounted mount_point >>= λ mounted.
      if not mounted
      then pure none
      else run_or_fail "umount" ("-l" ∷ mount_point ∷ []) ("unmounting " <> mount_point)

  unfoldable pub get_disk_usage : String → Action F (Result (ℤ × ℤ))
  get_disk_usage mount_point = do
    e ← run H "df" ("--block-size=1" ∷ "--output=used,avail" ∷ mount_point ∷ [])
    pure (elim e.error [
      | some x ↦ err (wrap ("df on " <> mount_point) x)
      | none ↦ usage_of e.stdout
    ])

  unfoldable pub mount_mergerfs :
      List String → String → String → String → String → Action F (Option Error)
  mount_mergerfs branches mount_point create_policy min_free_space extra =
      let options = mergerfs_options create_policy min_free_space extra in
      let mount =
        run_or_fail "mergerfs" ("-o" ∷ options ∷ join branches ":" ∷ mount_point ∷ [])
          "mergerfs mount failed" in
      make_dirs H mount_point >>= λ e. elim e [
        | some x ↦ pure (some (wrap ("creating pool mount point " <> mount_point) x))
        | none ↦ is_mounted mount_point >>= λ mounted.
            if mounted then unmount_device mount_point >> mount else mount
      ]

  -- What `EnsureFstabEntry` does with the contents that it read.
  unfoldable pub add_fstab_entry : String → String → String → Action F (Option Error)
  add_fstab_entry contents device_path entry =
      if contains (codes contents) (codes device_path)
      then pure none
      else (open_append H "/etc/fstab" >>= λ e. elim e [
        | some x ↦ pure (some (wrap "opening /etc/fstab for writing" x))
        | none ↦ write H "/etc/fstab" entry
      ])

  -- A file that does not exist is read as an empty one; any other error of the read is returned.
  unfoldable pub ensure_fstab_entry : String → String → String → String → Action F (Option Error)
  ensure_fstab_entry device_path mount_point filesystem options =
      let entry = fstab_entry device_path mount_point filesystem options in
      read_file H "/etc/fstab" >>= λ found. elim found [
        | err x ↦ elim x.reason [
          | Reason.not_exist ↦ add_fstab_entry "" device_path entry
          | _ ↦ pure (some (wrap "reading /etc/fstab" x))
        ]
        | ok contents ↦ add_fstab_entry contents device_path entry
      ]
