-- ===== src/Cluster/Core.antt =====
-- The fields of Kubernetes' own resources (`corev1`, `batchv1`) that the source sets or reads. A map of
-- texts is its list of entries; a map that was never made is the empty list.
use kube_nas.Base.{ℕ, String, Bool, Option, List}
use kube_nas.Api.Meta.{ObjectMeta}

pub record ConfigMap : Type 0 where
  pub meta : ObjectMeta
  pub entries : List (String × String)

pub record VolumeMount : Type 0 where
  pub name : String
  pub mount_path : String
  pub sub_path : String

pub data VolumeSource : Type 0 where
  host_path : String → VolumeSource
  config_map_volume : String → VolumeSource

pub record Volume : Type 0 where
  pub name : String
  pub source : VolumeSource

pub record TcpProbe : Type 0 where
  pub port : ℕ
  pub initial_delay_seconds : ℕ

pub record Container : Type 0 where
  pub name : String
  pub image : String
  pub command : List String
  pub ports : List ℕ
  pub liveness_probe : Option TcpProbe
  pub readiness_probe : Option TcpProbe
  pub privileged : Option Bool
  pub volume_mounts : List VolumeMount

pub data RestartPolicy : Type 0 where
  unset on_failure : RestartPolicy

pub record PodSpec : Type 0 where
  pub restart_policy : RestartPolicy
  pub containers : List Container
  pub volumes : List Volume

pub record Pod : Type 0 where
  pub meta : ObjectMeta
  pub spec : PodSpec

pub record ServicePort : Type 0 where
  pub name : String
  pub port : ℕ
  pub target_port : ℕ

pub record Service : Type 0 where
  pub meta : ObjectMeta
  pub selector : List (String × String)
  pub ports : List ServicePort

pub data ConcurrencyPolicy : Type 0 where
  allow forbid : ConcurrencyPolicy

pub record CronJobSpec : Type 0 where
  pub schedule : String
  pub concurrency_policy : ConcurrencyPolicy
  pub successful_jobs_history_limit : Option ℕ
  pub failed_jobs_history_limit : Option ℕ
  pub backoff_limit : Option ℕ
  pub template : PodSpec

pub record CronJob : Type 0 where
  pub meta : ObjectMeta
  pub spec : CronJobSpec
