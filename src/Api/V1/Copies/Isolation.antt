-- ===== src/Api/V1/Copies/Isolation.antt =====
-- What a copy of a v1 Disk shares with the Disk (DeepCopyInto of api/v1/zz_generated.deepcopy.go).
use kube_nas.Base.{
  ℕ, ◌<◌, ◌≤◌, String, Option, none, some, List, [], ◌∷◌, ◌≡◌, refl, ap, str_eq, eq_iff, arith, inl,
  inr, Bool-cases,
}
use kube_nas.Base.Dict.{entry, set_entry, entry-set_entry}
use kube_nas.Api.V1.Copies.{
  Heap, put_map, DiskCell, map_at, map_of, read_meta, read_disk, copy_onto, copy_string_map,
  disk_deep_copy_into,
}

-- The entries have different keys, as those of a Go map do.
abbrev pub HasDistinctKeys : List (String × String) → Type 0
HasDistinctKeys [] = Unit
HasDistinctKeys ((k, v) ∷ m) = (entry m k ≡ none) × HasDistinctKeys m

-- A pointer that is nil or leads to an address in use.
abbrev pub IsUsed : Heap → Option ℕ → Type 0
IsUsed h none = Unit
IsUsed h (some a) = a < h.next

-- The entry that the first map has, or else the second.
abbrev pub entry_of_either :
    List (String × String) → List (String × String) → String → Option String
entry_of_either m out key = elim (entry m key) [ some v ↦ some v | none ↦ entry out key ]

entry-copy_onto :
    (m out : List (String × String)) (key : String)
    → HasDistinctKeys m
    → entry (copy_onto out m) key ≡ entry_of_either m out key
unfolding copy_onto entry
entry-copy_onto [] out key h = refl
entry-copy_onto ((k, v) ∷ m) out key (new, rest) = elim (Bool-cases (str_eq k key)) [
  | inl e ↦ ground (
    arith,
    e,
    new,
    (eq_iff k key).0 e,
    entry-copy_onto m (set_entry out k v) key rest,
    entry-set_entry out k v key,
  )
  | inr e ↦
      ground (arith, e, entry-copy_onto m (set_entry out k v) key rest, entry-set_entry out k v key)
]

-- The second store has what stands in the first.
abbrev pub Extends : Heap → Heap → Type 0
Extends h h' = (a : ℕ) → a < h.next → h'.maps a ≡ h.maps a

-- The maps of a Disk stand in the store.
abbrev pub IsStored : Heap → DiskCell → Type 0
IsStored h d = IsUsed h d.meta.labels × IsUsed h d.meta.annotations × IsUsed h d.labels

map_at-Extends : (h h' : Heap) (p : Option ℕ) → IsUsed h p → Extends h h' → map_at h' p ≡ map_at h p
map_at-Extends h h' none used more = refl
map_at-Extends h h' (some a) used more = more a used

map_of-Extends : (h h' : Heap) (p : Option ℕ) → IsUsed h p → Extends h h' → map_of h' p ≡ map_of h p
map_of-Extends h h' none used more = refl
map_of-Extends h h' (some a) used more = ap some (more a used)

pub read_disk-Extends :
    (h h' : Heap) (d : DiskCell) → IsStored h d → Extends h h' → read_disk h' d ≡ read_disk h d
unfolding read_disk read_meta
read_disk-Extends h h' d (labels, annotations, spec) more =
    rw
      (
        map_at-Extends h h' d.meta.labels labels more,
        map_of-Extends h h' d.meta.annotations annotations more,
        map_at-Extends h h' d.labels spec more,
      )
      refl

-- An assignment to a map, which a nil map makes a panic: here it stays as it is.
abbrev pub put_at : Heap → Option ℕ → List (String × String) → Heap
put_at h none m = h
put_at h (some a) m = put_map h a m

-- The store has what it had, also when the copied labels are assigned.
copy_string_map-Extends :
    (p : Option ℕ) (h : Heap) (m : List (String × String))
    → Extends h (copy_string_map p h).1
      × Extends h (put_at (copy_string_map p h).1 (copy_string_map p h).0 m)
unfolding copy_string_map
copy_string_map-Extends none h m = (λ a used. refl, λ a used. refl)
copy_string_map-Extends (some b) h m = (λ a used. ground arith, λ a used. ground arith)

copy_string_map-next : (p : Option ℕ) (h : Heap) → h.next ≤ (copy_string_map p h).1.next
unfolding copy_string_map
copy_string_map-next none h = omega arith
copy_string_map-next (some b) h = omega arith

-- A map in use stays as it is when a Disk is copied, and stays in use.
pub disk_deep_copy_into-Extends :
    (d : DiskCell) (h : Heap)
    → Extends h (disk_deep_copy_into d h).1 × (h.next ≤ (disk_deep_copy_into d h).1.next)
unfolding disk_deep_copy_into
disk_deep_copy_into-Extends d h =
    ((copy_string_map-Extends d.labels h []).0, copy_string_map-next d.labels h)

entry-copy_string_map :
    (p : Option ℕ) (h : Heap) (key : String)
    → HasDistinctKeys (map_at h p)
    → entry (map_at (copy_string_map p h).1 (copy_string_map p h).0) key ≡ entry (map_at h p) key
unfolding copy_string_map entry
entry-copy_string_map none h key distinct = refl
entry-copy_string_map (some a) h key distinct =
    ground (arith, entry-copy_onto (h.maps a) [] key distinct)

annotations-put_at :
    (h : Heap) (p : Option ℕ) (m : List (String × String))
    → map_of (put_at h p m) p ≡ elim p [ none ↦ none | some a ↦ some m ]
annotations-put_at h none m = refl
annotations-put_at h (some a) m = ground arith

-- A copy of a v1 Disk leaves the Disk as it reads, and its specification has the same labels. An
-- assignment to the labels of the copy's specification leaves the Disk as it reads, but an assignment
-- to the copy's annotations, if the Disk has any, is one to the Disk's.
pub disk_deep_copy_into-shares :
    (d : DiskCell) (h : Heap) (key : String) (m : List (String × String))
    → IsStored h d
    → HasDistinctKeys (map_at h d.labels)
    → (read_disk (disk_deep_copy_into d h).1 d ≡ read_disk h d)
      × (entry (read_disk (disk_deep_copy_into d h).1 (disk_deep_copy_into d h).0).spec.labels key
          ≡ entry (read_disk h d).spec.labels key)
      × (read_disk (put_at (disk_deep_copy_into d h).1 (disk_deep_copy_into d h).0.labels m) d
          ≡ read_disk h d)
      × ((read_disk
            (put_at (disk_deep_copy_into d h).1 (disk_deep_copy_into d h).0.meta.annotations m)
            d).meta.annotations
          ≡ elim d.meta.annotations [ none ↦ none | some a ↦ some m ])
unfolding disk_deep_copy_into read_disk read_meta
disk_deep_copy_into-shares d h key m stored distinct =
    let (kept, assigned) = copy_string_map-Extends d.labels h m in
    (
      read_disk-Extends h (copy_string_map d.labels h).1 d stored kept,
      entry-copy_string_map d.labels h key distinct,
      read_disk-Extends h (put_at (copy_string_map d.labels h).1 (copy_string_map d.labels h).0 m) d
          stored assigned,
      annotations-put_at (copy_string_map d.labels h).1 d.meta.annotations m,
    )
