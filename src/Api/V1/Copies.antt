-- ===== src/Api/V1/Copies.antt =====
-- api/v1/zz_generated.deepcopy.go: the copies of the resources of storage.kubenas.io/v1, which share
-- what the assignment `*out = *in` copies by its address. A map or a slice stands in a store at an
-- address, and a nil one is `none`; every other field is a value.
pub mod Isolation
use kube_nas.Base.{
  ℕ, suc, ◌+◌, String, Option, none, some, List, [], ◌∷◌, if◌then◌else◌, ◌==◌, map, is_nil,
}
use kube_nas.Base.Dict.{set_entry}
use kube_nas.Base.Int.{ℤ}
use kube_nas.Api.Meta.{ObjectMeta}
use kube_nas.Api.V1.{DiskSpec, DiskStatus, Disk}

-- The store of maps and slices. The addresses from `next` on are free.
pub record Heap : Type 0 where
  pub maps : ℕ → List (String × String)
  pub slices : ℕ → List String
  pub next : ℕ

abbrev pub put_map : Heap → ℕ → List (String × String) → Heap
put_map h a m = record h { maps = λ b. if b == a then m else h.maps b }

abbrev pub new_map : List (String × String) → Heap → ℕ × Heap
new_map m h = (h.next, record (put_map h h.next m) { next = suc h.next })

abbrev pub new_slice : List String → Heap → ℕ × Heap
new_slice xs h =
    (h.next, record h { slices = λ b. if b == h.next then xs else h.slices b; next = suc h.next })

-- The metadata: the labels and annotations of `value` are not looked at.
pub record MetaCell : Type 0 where
  pub value : ObjectMeta
  pub labels : Option ℕ
  pub annotations : Option ℕ

-- A Disk: the labels of `spec` are not looked at.
pub record DiskCell : Type 0 where
  pub meta : MetaCell
  pub spec : DiskSpec
  pub labels : Option ℕ
  pub status : DiskStatus

pub record StoragePoolCell : Type 0 where
  pub meta : MetaCell
  pub disk_selector : Option ℕ
  pub parity_disks : Option ℕ
  pub split_level : ℤ

-- A resource whose specification has only values.
pub record PlainCell (S : Type 0) : Type 0 where
  pub meta : MetaCell
  pub spec : S

abbrev pub map_at : Heap → Option ℕ → List (String × String)
map_at h none = []
map_at h (some a) = h.maps a

abbrev pub map_of : Heap → Option ℕ → Option (List (String × String))
map_of h none = none
map_of h (some a) = some (h.maps a)

-- What stands in the store.
unfoldable pub read_meta : Heap → MetaCell → ObjectMeta
read_meta h m = record (m.value) {
  labels = map_at h m.labels;
  annotations = map_of h m.annotations;
}

unfoldable pub read_disk : Heap → DiskCell → Disk
read_disk h d = record {
  meta = read_meta h d.meta;
  spec = record (d.spec) { labels = map_at h d.labels };
  status = d.status;
}

-- The loop of `copyStringMap`.
unfoldable pub copy_onto : List (String × String) → List (String × String) → List (String × String)
copy_onto out [] = out
copy_onto out ((k, v) ∷ entries) = copy_onto (set_entry out k v) entries

unfoldable pub copy_string_map : Option ℕ → Heap → Option ℕ × Heap
copy_string_map none h = (none, h)
copy_string_map (some a) h = let (b, h') = new_map (copy_onto [] (h.maps a)) h in (some b, h')

-- `append([]string(nil), in...)`, which is nil if there are no elements.
unfoldable pub copy_slice : Option ℕ → Heap → Option ℕ × Heap
copy_slice none h = (none, h)
copy_slice (some a) h =
    let (b, h') = new_slice (h.slices a) h in
    if is_nil (h.slices a) then (none, h) else (some b, h')

unfoldable pub disk_deep_copy_into : DiskCell → Heap → DiskCell × Heap
disk_deep_copy_into d h =
    let (labels, h') = copy_string_map d.labels h in (record d { labels = labels }, h')

unfoldable pub storage_pool_deep_copy_into : StoragePoolCell → Heap → StoragePoolCell × Heap
storage_pool_deep_copy_into p h =
    let (selector, h₁) = copy_string_map p.disk_selector h in
    let (parity, h₂) = copy_slice p.parity_disks h₁ in
    (record p { disk_selector = selector; parity_disks = parity }, h₂)

-- The other resources, whose `DeepCopyInto` is the assignment alone.
unfoldable pub plain_deep_copy_into : {S : Type 0} → PlainCell S → Heap → PlainCell S × Heap
plain_deep_copy_into c h = (c, h)

-- `DeepCopy`, where `none` is a nil pointer.
unfoldable pub deep_copy : {A : Type 0} → (A → Heap → A × Heap) → Option A → Heap → Option A × Heap
deep_copy into none h = (none, h)
deep_copy into (some a) h = let (b, h') = into a h in (some b, h')

-- `DeepCopyInto` of a list of items.
unfoldable pub items_deep_copy_into :
    {A : Type 0} → (A → Heap → A × Heap) → List A → Heap → List A × Heap
items_deep_copy_into into [] h = ([], h)
items_deep_copy_into into (a ∷ rest) h =
    let (b, h₁) = into a h in let (bs, h₂) = items_deep_copy_into into rest h₁ in (b ∷ bs, h₂)
