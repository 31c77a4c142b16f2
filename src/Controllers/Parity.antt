-- ===== src/Controllers/Parity.antt =====
-- controllers/parity_controller.go. `api_version` is `GroupVersion.String()`.
pub mod Laws
pub mod Admitted
use kube_nas.Base.{
  ℕ, String, ◌<>◌, Bool, true, false, Option, none, some, List, [], ◌∷◌, not, if◌then◌else◌,
}
use kube_nas.Base.Int.{ℤ, pos, ltb_ℤ, pos_part}
use kube_nas.Base.Text.{decimal, quoted, is_empty}
use kube_nas.Base.Outcome.{Error, Result, ok, err, wrap, errorf, is_not_found}
use kube_nas.Api.Meta.{Key, ObjectMeta}
use kube_nas.Api.Disk.{Disk}
use kube_nas.Api.Array.{Array}
use kube_nas.Api.Parity.{ParitySchedule}
use kube_nas.Cluster.{
  CronJob, ConcurrencyPolicy, PodSpec, RestartPolicy, host_path, config_map_volume,
}
use kube_nas.Cluster.{
  Object, Kind, Call, Cluster, Action, pure, ◌>>=◌, ◌>>◌, fetch, send, Reconciled, finished,
  again_after,
}
use kube_nas.Controllers.Failure.{new_meta}

-- The entries of the table in `Reconcile`.
pub record Operation : Type 0 where
  pub name : String
  pub schedule : String
  pub command : String

unfoldable pub scrub_pct : ParitySchedule → ℤ
scrub_pct ps = if ltb_ℤ (pos 0) ps.spec.scrub_percentage then ps.spec.scrub_percentage else pos 100

-- The percentage is positive, so its digits are those of its positive part.
unfoldable pub operations : ParitySchedule → List Operation
unfolding scrub_pct
operations ps =
    record { name = "sync"; schedule = ps.spec.sync_cron; command = "snapraid sync" }
    ∷ record { name = "check"; schedule = ps.spec.check_cron; command = "snapraid check" }
    ∷ record {
      name = "scrub";
      schedule = ps.spec.scrub_cron;
      command = "snapraid scrub -p " <> decimal (pos_part (scrub_pct ps));
    }
    ∷ []

unfoldable pub cron_job_name : ParitySchedule → String → String
cron_job_name ps operation = "kubenas-parity-" <> (ps.meta.name <> ("-" <> operation))

-- The pod of a job: the command in a privileged container, with the host's mounts and the SnapRAID
-- configuration of the named ConfigMap.
unfoldable pub snapraid_pod : String → String → PodSpec
snapraid_pod command config_name = record {
  restart_policy = RestartPolicy.on_failure;
  containers =
      record {
        name = "snapraid";
        image = "ghcr.io/kubenas/snapraid-runner:latest";
        command = "/bin/sh" ∷ "-c" ∷ command ∷ [];
        ports = [];
        liveness_probe = none;
        readiness_probe = none;
        privileged = some true;
        volume_mounts =
            record { name = "host-mnt"; mount_path = "/mnt"; sub_path = "" }
            ∷ record {
              name = "snapraid-conf";
              mount_path = "/etc/snapraid.conf";
              sub_path = "snapraid.conf";
            }
            ∷ [];
      }
      ∷ [];
  volumes =
      record { name = "host-mnt"; source = host_path "/mnt" }
      ∷ record { name = "snapraid-conf"; source = config_map_volume config_name }
      ∷ [];
}

unfoldable pub build_cron_job :
    String → ParitySchedule → String → String → String → String → CronJob
build_cron_job api_version ps name schedule command config_name = record {
  meta = record (new_meta name ps.meta.namespace) {
    labels =
        ("app.kubernetes.io/managed-by", "kubenas-operator")
        ∷ ("kubenas.io/array", ps.spec.array_ref)
        ∷ [];
    owner_references =
        record {
          api_version = api_version;
          kind = "ParitySchedule";
          name = ps.meta.name;
          uid = ps.meta.uid;
          controller = true;
          block_owner_deletion = true;
        }
        ∷ [];
  };
  spec = record {
    schedule = schedule;
    concurrency_policy = ConcurrencyPolicy.forbid;
    successful_jobs_history_limit = some 3;
    failed_jobs_history_limit = some 3;
    backoff_limit = some 2;
    template = snapraid_pod command config_name;
  };
}

module _ {F : Type 0} (C : Cluster F) where
  -- The name of the ConfigMap that the array's first data disk's node has.
  unfoldable pub config_name_of : Disk F → Result String
  config_name_of d =
      if is_empty d.spec.node_name
      then err (errorf ("primary data disk " <> (quoted d.meta.name <> " has empty nodeName")))
      else ok ("kubenas-snapraid-" <> d.spec.node_name)

  -- What `resolveSnapraidConfigName` does once the array is read.
  unfoldable pub primary_config_name : List String → Action F (Result String)
  primary_config_name [] = pure (err (errorf "array has no data disks"))
  primary_config_name (name ∷ names) = do
    primary ← fetch Kind.disks C.disk (record { name = name; namespace = "" })
    elim primary [ err x ↦ pure (err x) | ok d ↦ pure (config_name_of d) ]

  unfoldable pub resolve_snapraid_config_name : ParitySchedule → Action F (Result String)
  resolve_snapraid_config_name ps = do
    found ←
        fetch Kind.arrays C.array
          (record { name = ps.spec.array_ref; namespace = ps.meta.namespace })
    elim found [ err x ↦ pure (err x) | ok array ↦ primary_config_name array.spec.data_disks ]

  module _ (api_version : String) (ps : ParitySchedule) where
    unfoldable pub ensure_cron_job : String → Operation → Action F (Option Error)
    ensure_cron_job config_name op =
        let name = cron_job_name ps op.name in
        let desired = build_cron_job api_version ps name op.schedule op.command config_name in
        fetch Kind.cron_jobs C.cron_job (record { name = name; namespace = ps.meta.namespace })
        >>= λ found. elim found [
          | err x ↦
              if is_not_found x
              then send C (Call.create (Object.cron_job desired))
              else pure (some x)
          | ok existing ↦
              let spec = record (existing.spec) {
                schedule = op.schedule;
                backoff_limit = desired.spec.backoff_limit;
                template = desired.spec.template;
              } in
              send C (Call.update (Object.cron_job (record existing { spec = spec })))
        ]

    -- The loop returns at the first error.
    unfoldable pub ensure_all : String → List Operation → Action F Reconciled
    ensure_all config_name [] = pure (again_after 300)
    ensure_all config_name (op ∷ ops) =
        let rest = ensure_all config_name ops in
        ensure_cron_job config_name op >>= λ e. elim e [
          | some x ↦ pure (err (wrap ("ensuring " <> (op.name <> " cronjob")) x))
          | none ↦ rest
        ]

    -- What follows the fetch.
    unfoldable pub reconcile_schedule : Action F Reconciled
    reconcile_schedule = do
      resolved ← resolve_snapraid_config_name ps
      elim resolved [
        | err x ↦
            pure (err (wrap ("resolving snapraid config for array " <> quoted ps.spec.array_ref) x))
        | ok config_name ↦ ensure_all config_name (operations ps)
      ]

  unfoldable pub reconcile : String → Key → Action F Reconciled
  reconcile api_version key = do
    found ← fetch Kind.parity_schedules C.parity_schedule key
    elim found [
      | err x ↦ pure (if is_not_found x then finished else err x)
      | ok ps ↦ reconcile_schedule api_version ps
    ]
