-- ===== src/Controllers/V1/Shared.antt =====
-- `reconcileObject` of controllers/new_arch_controllers.go on a Disk whose maps stand in a store, as
-- the informer's cache has them, and Get of the cached client, which copies the cached Disk.
pub mod Lost
use kube_nas.Base.{ℕ, String, Option, none, some, [], if◌then◌else◌, str_eq}
use kube_nas.Base.Dict.{entry_or_empty, set_entry}
use kube_nas.Base.Outcome.{ok, err}
use kube_nas.Api.V1
use kube_nas.Api.V1.Copies.{
  Heap, put_map, new_map, MetaCell, DiskCell, read_disk, disk_deep_copy_into,
}
use kube_nas.Cluster.{
  Object, Call, Cluster, Action, pure, ◌>>=◌, ◌>>◌, send, clock, Reconciled, finished, again_after,
}
use kube_nas.Controllers.V1.{reconcile_annotation}

-- `if obj.GetAnnotations() == nil { obj.SetAnnotations(map[string]string{}) }`: the address of the map.
unfoldable pub with_annotations : Option ℕ → Heap → ℕ × Heap
with_annotations none h = new_map [] h
with_annotations (some a) h = (a, h)

abbrev pub set_annotations : DiskCell → ℕ → DiskCell
set_annotations d a = record d { meta = record (d.meta) { annotations = some a } }

module _ {F : Type 0} (C : Cluster F) (format : ℕ → String) where
  -- The rest of the reconciliation, with the map of the annotations at the address.
  unfoldable pub mark_cell : DiskCell → ℕ → Heap → Action F (Reconciled × Heap)
  mark_cell d a h = do
    instant ← clock C
    let at = format instant
    let h' = put_map h a (set_entry (h.maps a) reconcile_annotation at)
    (if str_eq (entry_or_empty (h.maps a) reconcile_annotation) at
        then pure (finished, h)
        else send C (Call.update (Object.disk_v1 (read_disk h' d))) >>= λ e.
            pure (elim e [ some x ↦ (err x, h') | none ↦ (again_after 300, h') ]))

  unfoldable pub reconcile_cell : DiskCell → Heap → Action F (Reconciled × Heap)
  reconcile_cell d h =
      let (a, h') = with_annotations d.meta.annotations h in mark_cell (set_annotations d a) a h'

  -- The reconciliation of a Disk that the cache has. The error of the write of the status is dropped.
  unfoldable pub reconcile_cached : DiskCell → Heap → Action F (Reconciled × Heap)
  reconcile_cached cached h =
      let (d, h') = disk_deep_copy_into cached h in
      if V1.is_unset d.status.state
      then (let named = record d {
        status = record { state = V1.DiskLifecycleState.unassigned; health = "Healthy" };
      } in
          send C (Call.update_status (Object.disk_v1 (read_disk h' named)))
          >> reconcile_cell named h')
      else reconcile_cell d h'
