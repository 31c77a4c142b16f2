-- ===== src/Cluster.antt =====
-- The Kubernetes API as the operator and the node agent see it. It is not part of the repository: what
-- it answers is a parameter, `Cluster`, and may depend on all that was asked of it before. An action
-- takes the calls made so far, the newest first, and returns its value with the calls made since.
-- A `Call` is a read, a list by labels, a write, a reading of the clock, a wait, or what a node's agent
-- asks of its own host.
mod Core
pub mod Host
pub use Core.*
use kube_nas.Base.{ℕ, String, Bool, false, Option, none, some, List, [], ◌∷◌}
use kube_nas.Base.Outcome.{Error, Result, ok, err}
use kube_nas.Cluster.Host.{HostCall}
use kube_nas.Api.Meta.{Key}
use kube_nas.Api.Disk.{Disk}
use kube_nas.Api.Array.{Array}
use kube_nas.Api.Pool.{Pool}
use kube_nas.Api.Share.{Share}
use kube_nas.Api.Parity.{ParitySchedule}
use kube_nas.Api.Placement.{PlacementPolicy}
use kube_nas.Api.Rebalance.{RebalanceJob}
use kube_nas.Api.Failure.{DiskFailure}
use kube_nas.Api.Cache.{CachePool}
use kube_nas.Api.V1

pub data Object (F : Type 0) : Type 0 where
  disk : Disk F → Object F
  array : Array F → Object F
  pool : Pool → Object F
  share : Share → Object F
  parity_schedule : ParitySchedule → Object F
  placement_policy : PlacementPolicy F → Object F
  rebalance_job : RebalanceJob → Object F
  disk_failure : DiskFailure → Object F
  cache_pool : CachePool F → Object F
  config_map : ConfigMap → Object F
  pod : Pod → Object F
  service : Service → Object F
  cron_job : CronJob → Object F
  disk_v1 : V1.Disk → Object F
  disk_claim : V1.DiskClaim → Object F
  unassigned_disk : V1.UnassignedDisk → Object F
  storage_pool : V1.StoragePool → Object F
  filesystem : V1.Filesystem → Object F
  share_v1 : V1.Share → Object F
  volume : V1.Volume → Object F
  tier_policy : V1.TierPolicy → Object F

pub data Kind : Type 0 where
  disks arrays pools shares parity_schedules placement_policies rebalance_jobs : Kind
  disk_failures cache_pools config_maps pods services cron_jobs : Kind
  disks_v1 disk_claims unassigned_disks storage_pools : Kind
  filesystems shares_v1 volumes tier_policies : Kind

pub data Call (F : Type 0) : Type 0 where
  read : Kind → Key → Call F
  create : Object F → Call F
  update : Object F → Call F
  update_status : Object F → Call F
  delete : Object F → Call F
  now : Call F
  sleep : ℕ → Call F
  list : Kind → String → List (String × String) → Call F
  host : HostCall → Call F

abbrev pub Trace : Type 0 → Type 0
Trace F = List (Call F)

-- The answers. A write is answered by an error or by none. `done` is the error of a context that was
-- cancelled while the caller waits.
pub record Cluster (F : Type 0) : Type 0 where
  pub disk : Trace F → Key → Result (Disk F)
  pub array : Trace F → Key → Result (Array F)
  pub pool : Trace F → Key → Result Pool
  pub share : Trace F → Key → Result Share
  pub parity_schedule : Trace F → Key → Result ParitySchedule
  pub placement_policy : Trace F → Key → Result (PlacementPolicy F)
  pub rebalance_job : Trace F → Key → Result RebalanceJob
  pub disk_failure : Trace F → Key → Result DiskFailure
  pub cache_pool : Trace F → Key → Result (CachePool F)
  pub config_map : Trace F → Key → Result ConfigMap
  pub pod : Trace F → Key → Result Pod
  pub service : Trace F → Key → Result Service
  pub cron_job : Trace F → Key → Result CronJob
  pub disk_v1 : Trace F → Key → Result V1.Disk
  pub disk_claim : Trace F → Key → Result V1.DiskClaim
  pub unassigned_disk : Trace F → Key → Result V1.UnassignedDisk
  pub storage_pool : Trace F → Key → Result V1.StoragePool
  pub filesystem : Trace F → Key → Result V1.Filesystem
  pub share_v1 : Trace F → Key → Result V1.Share
  pub volume : Trace F → Key → Result V1.Volume
  pub tier_policy : Trace F → Key → Result V1.TierPolicy
  pub config_maps : Trace F → String → List (String × String) → Result (List ConfigMap)
  pub respond : Trace F → Call F → Option Error
  pub time : Trace F → ℕ
  pub done : Trace F → Option Error

abbrev pub Action : Type 0 → Type 0 → Type 0
Action F A = Trace F → A × Trace F

abbrev pub pure : {F A : Type 0} → A → Action F A
pure a t = (a, t)

infixl 5 ◌>>=◌ ◌>>◌
abbrev pub ◌>>=◌ : {F A B : Type 0} → Action F A → (A → Action F B) → Action F B
◌>>=◌ m k t = let (a, t') = m t in k a t'

abbrev pub ◌>>◌ : {F A B : Type 0} → Action F A → Action F B → Action F B
m >> k = m >>= λ _. k

-- `if err := m; err != nil { return …, mend(err) }`, then the rest.
abbrev pub check :
    {F A : Type 0}
    → Action F (Option Error)
    → (Error → Error)
    → Action F (Result A)
    → Action F (Result A)
check m mend rest = m >>= λ e. elim e [ some x ↦ pure (err (mend x)) | none ↦ rest ]

-- `Get`, at the answers for one kind.
abbrev pub fetch : {F A : Type 0} → Kind → (Trace F → Key → Result A) → Key → Action F (Result A)
fetch kind answer key t = (answer t key, Call.read kind key ∷ t)

module _ {F : Type 0} (C : Cluster F) where
  -- `Create`, `Update`, `Status().Update` and `Delete`.
  abbrev pub send : Call F → Action F (Option Error)
  send c t = (C.respond t c, c ∷ t)

  -- `time.Now()`.
  abbrev pub clock : Action F ℕ
  clock t = (C.time t, Call.now ∷ t)

-- `ctrl.Result`, with the delay in seconds.
pub record Requeue : Type 0 where
  pub requeue : Bool
  pub requeue_after : ℕ

abbrev pub Reconciled : Type 0
Reconciled = Result Requeue

-- `ctrl.Result{}` and `ctrl.Result{RequeueAfter: …}`.
abbrev pub finished : Reconciled
finished = ok (record { requeue = false; requeue_after = 0 })

abbrev pub again_after : ℕ → Reconciled
again_after seconds = ok (record { requeue = false; requeue_after = seconds })
