-- ===== src/Controllers/V1/Shared/Lost.antt =====
-- What the sharing of the annotations means for the reconciliation of a cached v1 Disk.
use kube_nas.Base.{
  ℕ, String, List, some, false, ◌∷◌, ◌≡◌, ◌≢◌, ◌∙◌, ap, sym, refl, arith, str_eq, eq_iff, inl, inr,
  Bool-cases, ◌<◌,
}
use kube_nas.Base.Dict.{entry_or_empty, set_entry, entry_or_empty-set_entry}
use kube_nas.Base.Outcome.{Error, err}
use kube_nas.Api.V1
use kube_nas.Api.V1.{Disk}
use kube_nas.Api.V1.Copies.{Heap, put_map, DiskCell, disk_deep_copy_into}
use kube_nas.Api.V1.Copies.Isolation.{disk_deep_copy_into-Extends}
use kube_nas.Cluster.{Call, Cluster, Trace, finished}
use kube_nas.Controllers.V1.{reconcile_annotation}
use kube_nas.Controllers.V1.Shared.{
  with_annotations, set_annotations, mark_cell, reconcile_cell, reconcile_cached,
}

mark-put_map :
    (h : Heap) (a : ℕ) (m : List (String × String)) (at : String)
    → entry_or_empty
        ((put_map h a (set_entry m reconcile_annotation at)).maps a)
        reconcile_annotation
      ≡ at
mark-put_map h a m at = ground (
  arith,
  entry_or_empty-set_entry m reconcile_annotation at reconcile_annotation,
  eq_iff reconcile_annotation reconcile_annotation,
)

not_marked :
    (m : List (String × String)) (at : String)
    → entry_or_empty m reconcile_annotation ≢ at
    → str_eq (entry_or_empty m reconcile_annotation) at ≡ false
not_marked m at other = elim (Bool-cases (str_eq (entry_or_empty m reconcile_annotation) at)) [
  | inl e ↦ absurd (other ((eq_iff (entry_or_empty m reconcile_annotation) at).0 e))
  | inr e ↦ e
]

module _ {F : Type 0} (C : Cluster F) (format : ℕ → String) where
  -- A Disk that has the mark of the second.
  mark_cell-marked :
      (d : DiskCell) (a : ℕ) (h : Heap) (t : Trace F)
      → entry_or_empty (h.maps a) reconcile_annotation ≡ format (C.time t)
      → mark_cell C format d a h t ≡ ((finished, h), Call.now ∷ t)
  unfolding mark_cell
  mark_cell-marked d a h t same =
      rw ((eq_iff (entry_or_empty (h.maps a) reconcile_annotation) (format (C.time t))).1 same) refl

  -- A Disk that has not, where the API refuses what is sent next.
  mark_cell-refused :
      (d : DiskCell) (a : ℕ) (h : Heap) (t : Trace F) (x : Error)
      → str_eq (entry_or_empty (h.maps a) reconcile_annotation) (format (C.time t)) ≡ false
      → ((c : Call F) → C.respond (Call.now ∷ t) c ≡ some x)
      → (mark_cell C format d a h t).0
        ≡ (err x, put_map h a (set_entry (h.maps a) reconcile_annotation (format (C.time t))))
  unfolding mark_cell
  mark_cell-refused d a h t x other refused = rw (other, refused _) refl

  -- The Disk that the cached client copies has the annotations of the cached one.
  reconcile_cached-mark_cell :
      (d : DiskCell) (a : ℕ) (h : Heap) (t : Trace F)
      → d.meta.annotations ≡ some a
      → V1.is_unset d.status.state ≡ false
      → reconcile_cached C format d h t
        ≡ mark_cell C format
            (set_annotations (disk_deep_copy_into d h).0 a)
            a
            (disk_deep_copy_into d h).1
            t
  unfolding reconcile_cached reconcile_cell with_annotations disk_deep_copy_into
  reconcile_cached-mark_cell d a h t own set = rw (own, set) refl

  -- Where the cached Disk has a state, and annotations without the mark of the second, and the API
  -- refuses the write, the reconciliation ends with the error of the API; but the mark is in the
  -- cached Disk, so that a further reconciliation in this second, without another change of the cache,
  -- ends well and sends nothing.
  pub reconcile_cached-lost :
      (d : DiskCell) (a : ℕ) (h : Heap) (t t' : Trace F) (x : Error)
      → d.meta.annotations ≡ some a
      → V1.is_unset d.status.state ≡ false
      → a < h.next
      → entry_or_empty (h.maps a) reconcile_annotation ≢ format (C.time t)
      → ((c : Call F) → C.respond (Call.now ∷ t) c ≡ some x)
      → format (C.time t') ≡ format (C.time t)
      → ((reconcile_cached C format d h t).0.0 ≡ err x)
        × ((reconcile_cached C format d (reconcile_cached C format d h t).0.1 t').0.0 ≡ finished)
        × ((reconcile_cached C format d (reconcile_cached C format d h t).0.1 t').1 ≡ Call.now ∷ t')
  reconcile_cached-lost d a h t t' x own set used other refused same =
      let h₁ = (disk_deep_copy_into d h).1 in
      let (kept, grows) = disk_deep_copy_into-Extends d h in
      let h₂ = put_map h₁ a (set_entry (h₁.maps a) reconcile_annotation (format (C.time t))) in
      let h₃ = (disk_deep_copy_into d h₂).1 in
      let first =
        ap (λ p. p.0) (reconcile_cached-mark_cell d a h t own set)
        ∙ mark_cell-refused (set_annotations (disk_deep_copy_into d h).0 a) a h₁ t x
            (rw (kept a used) (not_marked (h.maps a) (format (C.time t)) other)) refused in
      let marked_then =
        ap (λ m. entry_or_empty m reconcile_annotation)
          ((disk_deep_copy_into-Extends d h₂).0 a (omega (arith, used, grows)))
        ∙ mark-put_map h₁ a (h₁.maps a) (format (C.time t))
        ∙ sym same in
      let second =
        reconcile_cached-mark_cell d a h₂ t' own set
        ∙ mark_cell-marked (set_annotations (disk_deep_copy_into d h₂).0 a) a h₃ t' marked_then in
      (ap (λ p. p.0) first, rw first (ap (λ p. p.0.0) second), rw first (ap (λ p. p.1) second))
