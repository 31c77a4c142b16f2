-- ===== src/Controllers/Array.antt =====
-- controllers/array_controller.go.
pub mod Laws
pub mod Config
pub mod Rendered
use kube_nas.Base.{
  ℕ, String, ◌<>◌, Bool, true, false, Option, none, some, List, [], ◌∷◌, ◌++◌, not, if◌then◌else◌,
  ◌&&◌, length, is_nil, ◌+◌, suc, zero, map,
}
use mathlib.Core.List.{head?}
use kube_nas.Base.Text.{decimal, quoted}
use kube_nas.Base.Outcome.{Error, Result, ok, err, wrap, errorf, is_not_found}
use kube_nas.Api.Meta.{Key, Condition}
use kube_nas.Api.Disk.{Disk, is_impaired}
use kube_nas.Api.Array.{Array, ArrayPhase, is_ready}
use kube_nas.Cluster.{
  Object, Kind, Call, Cluster, Action, pure, ◌>>=◌, ◌>>◌, check, fetch, send, clock, Requeue,
  Reconciled, finished, again_after,
}
use kube_nas.Agent.{NodeAgentClient, SnapraidConfig, SnapraidParityEntry, SnapraidDataEntry}
use kube_nas.Agent.Helpers.{set_condition, fail_last}

module _ {F : Type 0} where
  -- The loop stops at the first name that cannot be fetched.
  unfoldable pub resolve_disk_refs : Cluster F → List String → Action F (Result (List (Disk F)))
  resolve_disk_refs C [] = pure (ok [])
  resolve_disk_refs C (name ∷ names) =
      let rest = resolve_disk_refs C names in
      do
        found ← fetch Kind.disks C.disk (record { name = name; namespace = "" })
        elim found [
          | err x ↦ pure (
              if is_not_found x
              then err (errorf ("disk " <> (quoted name <> " not found")))
              else err (wrap ("fetching disk " <> quoted name) x))
          | ok disk ↦ rest >>= λ others. elim others [
            | err x ↦ pure (err x)
            | ok disks ↦ pure (ok (disk ∷ disks))
          ]
        ]

  unfoldable pub degraded_names : List (Disk F) → List String
  degraded_names [] = []
  degraded_names (d ∷ disks) =
      let rest = degraded_names disks in
      if is_impaired d.status.phase then d.meta.name ∷ rest else rest

  -- The two loops; the index of the first entry is `i + 1`.
  unfoldable pub parity_entries : ℕ → List (Disk F) → List SnapraidParityEntry
  parity_entries i [] = []
  parity_entries i (d ∷ parity) =
      record { index = i + 1; device_path = d.spec.device_path; mount_point = d.spec.mount_point }
      ∷ parity_entries (suc i) parity

  unfoldable pub data_entries : ℕ → List (Disk F) → List SnapraidDataEntry
  data_entries i [] = []
  data_entries i (d ∷ disks) =
      record {
        label = "d" <> decimal (i + 1);
        device_path = d.spec.device_path;
        mount_point = d.spec.mount_point;
      }
      ∷ data_entries (suc i) disks

  content_file : Disk F → String
  content_file d = d.spec.mount_point <> "/.snapraid.content"

  unfoldable pub build_snapraid_config : Array F → List (Disk F) → List (Disk F) → SnapraidConfig
  unfolding content_file
  build_snapraid_config array disks parity =
      let given : List String = elim array.spec.snapraid_config [
        | none ↦ []
        | some c ↦ c.content_files
      ] in
      record {
        parity_entries = parity_entries 0 parity;
        data_entries = data_entries 0 disks;
        content_files =
            if is_nil given && not (is_nil disks) then map content_file disks else given;
        exclude_patterns = elim array.spec.snapraid_config [
          | none ↦ []
          | some c ↦ c.exclude_patterns
        ];
      }

module _ {F : Type 0} (C : Cluster F) where
  unfoldable pub set_array_phase : Array F → ArrayPhase → String → String → Action F Reconciled
  set_array_phase array phase reason message = do
    at ← clock C
    let set = set_condition array.status.conditions (record {
      type = "Ready";
      status = true;
      reason = reason;
      message = message;
      last_transition_time = at;
    })
    let conditions = if not (is_ready phase) then fail_last set else set
    let status = record (array.status) { phase = phase; conditions = conditions }
    check (send C (Call.update_status (Object.array (record array { status = status }))))
        (wrap "updating array status") (pure (again_after 60))

  module _ (agent : NodeAgentClient F) where
    -- What follows the resolution of both lists.
    unfoldable pub assemble : Array F → List (Disk F) → List (Disk F) → Action F Reconciled
    assemble array₀ disks parity =
        let degraded = degraded_names (disks ++ parity) in
        let status = record (array₀.status) { degraded_disks = degraded } in
        let array = record array₀ { status = status } in
        let target = if is_nil degraded then ArrayPhase.ready else ArrayPhase.degraded in
        let message =
          "Array reconciled with "
          <> (decimal (length disks)
              <> (" data disks, " <> (decimal (length parity) <> " parity disks"))) in
        let finish = set_array_phase array target "Reconciled" message in
        elim (head? disks) [
          | none ↦ finish
          | some d ↦
              agent.apply_snapraid_config d.spec.node_name
                (build_snapraid_config array disks parity)
              >>= λ e. elim e [
                | some x ↦ set_array_phase array ArrayPhase.degraded "SnapraidConfigError" x.message
                | none ↦ finish
              ]
        ]

    -- What follows the fetch.
    unfoldable pub reconcile_array : Array F → Action F Reconciled
    reconcile_array array = do
      resolved ← resolve_disk_refs C array.spec.data_disks
      elim resolved [
        | err x ↦ set_array_phase array ArrayPhase.pending "DiskRefError" x.message
        | ok disks ↦ resolve_disk_refs C array.spec.parity_disks >>= λ others. elim others [
          | err x ↦ set_array_phase array ArrayPhase.pending "ParityDiskRefError" x.message
          | ok parity ↦ assemble array disks parity
        ]
      ]

    unfoldable pub reconcile : Key → Action F Reconciled
    reconcile key = do
      found ← fetch Kind.arrays C.array key
      elim found [
        | err x ↦ pure (if is_not_found x then finished else err x)
        | ok array ↦ reconcile_array array
      ]
