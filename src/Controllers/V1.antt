-- ===== src/Controllers/V1.antt =====
-- controllers/new_arch_controllers.go: the controllers of storage.kubenas.io/v1, which mark a resource
-- with the second of its last reconciliation. `format` is `time.Time.Format` at RFC 3339, and
-- `ClientObject` what `client.Object` offers of a resource.
pub mod Marked
pub mod Shared
use kube_nas.Base.{
  ℕ, String, ◌<>◌, Option, none, some, List, [], ◌∷◌, ◌≡◌, refl, if◌then◌else◌, str_eq,
}
use kube_nas.Base.Dict.{entry_or_empty, set_entry}
use kube_nas.Base.Outcome.{Result, ok, err, is_not_found}
use kube_nas.Api.Meta.{Key, ObjectMeta}
use kube_nas.Api.V1
use kube_nas.Cluster.{
  Object, Kind, Call, Cluster, Trace, Action, pure, ◌>>=◌, ◌>>◌, fetch, send, clock, check,
  Reconciled, finished, again_after,
}

abbrev pub reconcile_annotation : String
reconcile_annotation = "kubenas.io/last-reconciled"

pub record ClientObject (F A : Type 0) : Type 0 where
  pub get_meta : A → ObjectMeta
  pub set_meta : A → ObjectMeta → A
  pub object : A → Object F
  pub get_meta-set_meta : (a : A) (m : ObjectMeta) → get_meta (set_meta a m) ≡ m

-- The annotations, of which none is a map that is made.
abbrev pub annotations_of : ObjectMeta → List (String × String)
annotations_of m = elim m.annotations [ none ↦ [] | some entries ↦ entries ]

-- The resource with the mark of an instant.
unfoldable pub marked : {F A : Type 0} → ClientObject F A → String → A → A
marked O at a =
    let m = O.get_meta a in
    O.set_meta a
      (record m { annotations = some (set_entry (annotations_of m) reconcile_annotation at) })

unfoldable pub rebuild_disk_flow_message : V1.DiskLifecycleState → V1.DiskLifecycleState → String
rebuild_disk_flow_message old new =
    "disk transition: " <> (V1.state_text old <> (" -> " <> V1.state_text new))

module _ {F : Type 0} where
  unfoldable pub disk_object : ClientObject F V1.Disk
  disk_object = record {
    get_meta = λ a. a.meta;
    set_meta = λ a m. record a { meta = m };
    object = Object.disk_v1;
    get_meta-set_meta = λ a m. refl;
  }

  unfoldable pub disk_claim_object : ClientObject F V1.DiskClaim
  disk_claim_object = record {
    get_meta = λ a. a.meta;
    set_meta = λ a m. record a { meta = m };
    object = Object.disk_claim;
    get_meta-set_meta = λ a m. refl;
  }

  unfoldable pub unassigned_disk_object : ClientObject F V1.UnassignedDisk
  unassigned_disk_object = record {
    get_meta = λ a. a.meta;
    set_meta = λ a m. record a { meta = m };
    object = Object.unassigned_disk;
    get_meta-set_meta = λ a m. refl;
  }

  unfoldable pub storage_pool_object : ClientObject F V1.StoragePool
  storage_pool_object = record {
    get_meta = λ a. a.meta;
    set_meta = λ a m. record a { meta = m };
    object = Object.storage_pool;
    get_meta-set_meta = λ a m. refl;
  }

  unfoldable pub filesystem_object : ClientObject F V1.Filesystem
  filesystem_object = record {
    get_meta = λ a. a.meta;
    set_meta = λ a m. record a { meta = m };
    object = Object.filesystem;
    get_meta-set_meta = λ a m. refl;
  }

  unfoldable pub share_object : ClientObject F V1.Share
  share_object = record {
    get_meta = λ a. a.meta;
    set_meta = λ a m. record a { meta = m };
    object = Object.share_v1;
    get_meta-set_meta = λ a m. refl;
  }

  unfoldable pub volume_object : ClientObject F V1.Volume
  volume_object = record {
    get_meta = λ a. a.meta;
    set_meta = λ a m. record a { meta = m };
    object = Object.volume;
    get_meta-set_meta = λ a m. refl;
  }

  unfoldable pub tier_policy_object : ClientObject F V1.TierPolicy
  tier_policy_object = record {
    get_meta = λ a. a.meta;
    set_meta = λ a m. record a { meta = m };
    object = Object.tier_policy;
    get_meta-set_meta = λ a m. refl;
  }

module _ {F : Type 0} (C : Cluster F) (format : ℕ → String) where
  unfoldable pub reconcile_object : {A : Type 0} → ClientObject F A → A → Action F Reconciled
  reconcile_object O a = do
    instant ← clock C
    let at = format instant
    (if str_eq (entry_or_empty (annotations_of (O.get_meta a)) reconcile_annotation) at
        then pure finished
        else check (send C (Call.update (O.object (marked O at a)))) (λ x. x)
            (pure (again_after 300)))

  -- A `Get`, of which an object that is not found ends the reconciliation, and the rest on what it
  -- found.
  abbrev pub reconcile_found :
      {A : Type 0}
      → Kind
      → (Trace F → Key → Result A)
      → (A → Action F Reconciled)
      → Key
      → Action F Reconciled
  reconcile_found kind answer rest key = fetch kind answer key >>= λ found. elim found [
    | err x ↦ if is_not_found x then pure finished else pure (err x)
    | ok a ↦ rest a
  ]

  -- The error of the write of the status is dropped.
  unfoldable pub reconcile_disk : Key → Action F Reconciled
  reconcile_disk = reconcile_found Kind.disks_v1 C.disk_v1 (λ a.
      if V1.is_unset a.status.state
      then (let named = record a {
        status = record { state = V1.DiskLifecycleState.unassigned; health = "Healthy" };
      } in
          send C (Call.update_status (Object.disk_v1 named)) >> reconcile_object disk_object named)
      else reconcile_object disk_object a)

  unfoldable pub reconcile_disk_claim : Key → Action F Reconciled
  reconcile_disk_claim =
      reconcile_found Kind.disk_claims C.disk_claim (reconcile_object disk_claim_object)

  unfoldable pub reconcile_unassigned_disk : Key → Action F Reconciled
  reconcile_unassigned_disk =
      reconcile_found Kind.unassigned_disks C.unassigned_disk
        (reconcile_object unassigned_disk_object)

  unfoldable pub reconcile_storage_pool : Key → Action F Reconciled
  reconcile_storage_pool =
      reconcile_found Kind.storage_pools C.storage_pool (reconcile_object storage_pool_object)

  unfoldable pub reconcile_filesystem : Key → Action F Reconciled
  reconcile_filesystem =
      reconcile_found Kind.filesystems C.filesystem (reconcile_object filesystem_object)

  unfoldable pub reconcile_share : Key → Action F Reconciled
  reconcile_share = reconcile_found Kind.shares_v1 C.share_v1 (reconcile_object share_object)

  unfoldable pub reconcile_volume : Key → Action F Reconciled
  reconcile_volume = reconcile_found Kind.volumes C.volume (reconcile_object volume_object)

  unfoldable pub reconcile_tier_policy : Key → Action F Reconciled
  reconcile_tier_policy =
      reconcile_found Kind.tier_policies C.tier_policy (reconcile_object tier_policy_object)
