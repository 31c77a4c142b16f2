-- ===== src/Controllers/Share.antt =====
-- controllers/share_controller.go. `own share meta` stands for `controllerutil.SetControllerReference`,
-- whose error is dropped: the metadata with the share as its controlling owner.
pub mod Laws
use kube_nas.Base.{
  ℕ, String, ◌<>◌, Bool, true, false, Option, none, some, List, [], ◌∷◌, not, if◌then◌else◌, ◌&&◌,
  ◌||◌, str_eq, map,
}
use kube_nas.Base.Text.{codes, lower, contains}
use kube_nas.Base.Outcome.{Error, Reason, Result, ok, err, wrap, is_not_found}
use kube_nas.Api.Meta.{Key, ObjectMeta}
use kube_nas.Api.Pool.{Pool}
use kube_nas.Api.Share.{Share, ShareProtocol, protocol_text}
use kube_nas.Cluster.{
  ConfigMap, Pod, PodSpec, RestartPolicy, Container, TcpProbe, Volume, VolumeMount, host_path,
  config_map_volume, Service,
}
use kube_nas.Cluster.{
  Object, Kind, Call, Cluster, Action, pure, ◌>>=◌, ◌>>◌, fetch, send, clock, Reconciled, finished,
  again_after,
}
use kube_nas.Agent.Helpers.{set_condition, fail_last}
use kube_nas.Controllers.Failure.{new_meta}

unfoldable pub is_immutable_pod_update_error : Error → Bool
is_immutable_pod_update_error e = elim e.reason [
  | Reason.invalid ↦ contains (map lower (codes e.message)) (codes "immutable")
  | Reason.forbidden ↦ contains (map lower (codes e.message)) (codes "immutable")
  | _ ↦ false
]

abbrev pub key_of : ObjectMeta → Key
key_of m = record { name = m.name; namespace = m.namespace }

abbrev pub versioned : ObjectMeta → String → ObjectMeta
versioned m version = record m { resource_version = version }

unfoldable pub render_smb_config : Share → String → String
render_smb_config share path =
    "[global]\nworkgroup = WORKGROUP\n[" <> (share.meta.name <> ("]\npath = " <> (path <> "\n")))

unfoldable pub render_nfs_exports : Share → String → String
render_nfs_exports share path = path <> " *(rw,sync,no_subtree_check)\n"

-- The configuration of the protocol's server, its pod and its service.
unfoldable pub smb_config_map : (ObjectMeta → ObjectMeta) → Share → String → ConfigMap
smb_config_map own share path = record {
  meta = own (new_meta ("kubenas-smb-" <> share.meta.name) share.meta.namespace);
  entries = ("smb.conf", render_smb_config share path) ∷ [];
}

unfoldable pub nfs_config_map : (ObjectMeta → ObjectMeta) → Share → String → ConfigMap
nfs_config_map own share path = record {
  meta = own (new_meta ("kubenas-nfs-" <> share.meta.name) share.meta.namespace);
  entries = ("exports", render_nfs_exports share path) ∷ [];
}

abbrev pub probe : ℕ → ℕ → Option TcpProbe
probe port delay = some (record { port = port; initial_delay_seconds = delay })

unfoldable pub smb_pod : (ObjectMeta → ObjectMeta) → Share → String → Pod
smb_pod own share path =
    let name = "kubenas-smb-" <> share.meta.name in
    record {
      meta = own (record (new_meta name share.meta.namespace) { labels = ("app", name) ∷ [] });
      spec = record {
        restart_policy = RestartPolicy.unset;
        containers =
            record {
              name = "samba";
              image = "ghcr.io/servercontainers/samba";
              command = [];
              ports = 445 ∷ [];
              liveness_probe = probe 445 10;
              readiness_probe = probe 445 5;
              privileged = none;
              volume_mounts =
                  record { name = "pool"; mount_path = "/share"; sub_path = "" }
                  ∷ record {
                    name = "config";
                    mount_path = "/etc/samba/smb.conf";
                    sub_path = "smb.conf";
                  }
                  ∷ [];
            }
            ∷ [];
        volumes =
            record { name = "pool"; source = host_path path }
            ∷ record { name = "config"; source = config_map_volume name }
            ∷ [];
      };
    }

unfoldable pub nfs_pod : (ObjectMeta → ObjectMeta) → Share → String → Pod
nfs_pod own share path =
    let name = "kubenas-nfs-" <> share.meta.name in
    record {
      meta = own (record (new_meta name share.meta.namespace) { labels = ("app", name) ∷ [] });
      spec = record {
        restart_policy = RestartPolicy.unset;
        containers =
            record {
              name = "nfs";
              image = "ghcr.io/nfs-ganesha/nfs-ganesha";
              command = [];
              ports = 2049 ∷ [];
              liveness_probe = probe 2049 10;
              readiness_probe = probe 2049 5;
              privileged = none;
              volume_mounts = record { name = "pool"; mount_path = "/export"; sub_path = "" } ∷ [];
            }
            ∷ [];
        volumes = record { name = "pool"; source = host_path path } ∷ [];
      };
    }

unfoldable pub share_service : (ObjectMeta → ObjectMeta) → Share → String → String → ℕ → Service
share_service own share name port_name port = record {
  meta = own (new_meta (name <> "-svc") share.meta.namespace);
  selector = ("app", name) ∷ [];
  ports = record { name = port_name; port = port; target_port = port } ∷ [];
}

module _ {F : Type 0} (C : Cluster F) where
  -- `upsertObject` at its two types.
  unfoldable pub upsert_config_map : ConfigMap → Action F (Option Error)
  upsert_config_map cm = do
    found ← fetch Kind.config_maps C.config_map (key_of cm.meta)
    elim found [
      | err x ↦
          if is_not_found x then send C (Call.create (Object.config_map cm)) else pure (some x)
      | ok existing ↦
          let meta = versioned cm.meta existing.meta.resource_version in
          send C (Call.update (Object.config_map (record cm { meta = meta })))
    ]

  unfoldable pub upsert_service : Service → Action F (Option Error)
  upsert_service svc = do
    found ← fetch Kind.services C.service (key_of svc.meta)
    elim found [
      | err x ↦ if is_not_found x then send C (Call.create (Object.service svc)) else pure (some x)
      | ok existing ↦
          let meta = versioned svc.meta existing.meta.resource_version in
          send C (Call.update (Object.service (record svc { meta = meta })))
    ]

  -- The pod is deleted and created anew, when the update says that a field cannot be changed.
  unfoldable pub recreate_pod : Pod → Pod → Action F (Option Error)
  recreate_pod existing pod =
      let create =
        send C (Call.create (Object.pod (record pod { meta = versioned pod.meta "" }))) in
      send C (Call.delete (Object.pod existing)) >>= λ e. elim e [
        | some x ↦ if not (is_not_found x) then pure (some x) else create
        | none ↦ create
      ]

  unfoldable pub upsert_pod : Pod → Action F (Option Error)
  upsert_pod pod = do
    found ← fetch Kind.pods C.pod (key_of pod.meta)
    elim found [
      | err x ↦ if is_not_found x then send C (Call.create (Object.pod pod)) else pure (some x)
      | ok existing ↦
          let meta = versioned pod.meta existing.meta.resource_version in
          send C (Call.update (Object.pod (record pod { meta = meta }))) >>= λ e. elim e [
            | some x ↦
                if is_immutable_pod_update_error x then recreate_pod existing pod else pure (some x)
            | none ↦ pure none
          ]
    ]

  -- The three upserts in turn, and then the names in the share's status.
  unfoldable pub publish : ConfigMap → Pod → Service → Share → Action F (Result Share)
  publish cm pod svc share = upsert_config_map cm >>= λ e₁. elim e₁ [
    | some x ↦ pure (err x)
    | none ↦ upsert_pod pod >>= λ e₂. elim e₂ [
      | some x ↦ pure (err x)
      | none ↦ upsert_service svc >>= λ e₃. elim e₃ [
        | some x ↦ pure (err x)
        | none ↦
            let status = record (share.status) {
              pod_name = pod.meta.name;
              service_name = svc.meta.name;
            } in
            pure (ok (record share { status = status }))
      ]
    ]
  ]

  unfoldable pub set_share_phase : Share → String → String → String → Action F Reconciled
  set_share_phase share phase reason message = do
    at ← clock C
    let set = set_condition share.status.conditions (record {
      type = "Ready";
      status = true;
      reason = reason;
      message = message;
      last_transition_time = at;
    })
    let late = not (str_eq phase "Ready")
    let status = record (share.status) {
      phase = phase;
      published = if late then false else share.status.published;
      conditions = if late then fail_last set else set;
    }
    e ← send C (Call.update_status (Object.share (record share { status = status })))
    elim e [ some x ↦ pure (err x) | none ↦ pure (again_after 30) ]

  module _ (own : Share → ObjectMeta → ObjectMeta) where
    unfoldable pub reconcile_smb_share : Share → Pool → Action F (Result Share)
    reconcile_smb_share share pool =
        let path = pool.spec.mount_point <> share.spec.path in
        publish (smb_config_map (own share) share path) (smb_pod (own share) share path)
          (share_service (own share) share ("kubenas-smb-" <> share.meta.name) "smb" 445) share

    unfoldable pub reconcile_nfs_share : Share → Pool → Action F (Result Share)
    reconcile_nfs_share share pool =
        let path = pool.spec.mount_point <> share.spec.path in
        publish (nfs_config_map (own share) share path) (nfs_pod (own share) share path)
          (share_service (own share) share ("kubenas-nfs-" <> share.meta.name) "nfs" 2049) share

    -- The switch over the protocol.
    unfoldable pub publish_protocol : Share → Pool → Action F (Result Share)
    publish_protocol share pool = elim share.spec.protocol [
      | ShareProtocol.smb ↦ reconcile_smb_share share pool
      | ShareProtocol.nfs ↦ reconcile_nfs_share share pool
    ]

    -- What follows when the pool is mounted. `resolveEffectiveSubjects` returns no subject.
    unfoldable pub serve : Share → Pool → Action F Reconciled
    serve share₀ pool =
        let status = record (share₀.status) { effective_subjects = [] } in
        let share = record share₀ { status = status } in
        publish_protocol share pool >>= λ r. elim r [
          | err x ↦ set_share_phase share "Degraded" "DataPlaneError" x.message
          | ok s ↦
              let done = record (s.status) { published = true } in
              set_share_phase (record s { status = done }) "Ready" "Published"
                ("Share published via " <> protocol_text share.spec.protocol)
        ]

    -- What follows the fetch.
    unfoldable pub reconcile_share : Share → Action F Reconciled
    reconcile_share share = do
      found ←
          fetch Kind.pools C.pool
            (record { name = share.spec.pool_ref; namespace = share.meta.namespace })
      elim found [
        | err x ↦ set_share_phase share "Pending" "PoolNotFound" x.message
        | ok pool ↦
            if not pool.status.mounted
            then set_share_phase share "Pending" "PoolNotMounted" "Pool is not yet mounted"
            else serve share pool
      ]

    unfoldable pub reconcile : Key → Action F Reconciled
    reconcile key = do
      found ← fetch Kind.shares C.share key
      elim found [
        | err x ↦ pure (if is_not_found x then finished else err x)
        | ok share ↦ reconcile_share share
      ]
