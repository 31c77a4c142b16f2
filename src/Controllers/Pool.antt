-- ===== src/Controllers/Pool.antt =====
-- controllers/pool_controller.go.
pub mod Members
pub mod Laws
use kube_nas.Base.{
  ℕ, String, ◌<>◌, Bool, true, false, Option, none, some, List, [], ◌∷◌, ◌++◌, not, if◌then◌else◌,
  ◌&&◌, length, is_nil, str_eq,
}
use kube_nas.Base.Int.{ℤ, pos, add64}
use kube_nas.Base.Text.{decimal, quoted, is_empty}
use kube_nas.Base.Outcome.{Error, Result, ok, err, wrap, is_not_found}
use kube_nas.Api.Meta.{Key}
use kube_nas.Api.Disk.{Disk}
use kube_nas.Api.Disk
use kube_nas.Api.Array.{Array}
use kube_nas.Api.Array
use kube_nas.Api.Pool.{Pool}
use kube_nas.Cluster.{
  Object, Kind, Call, Cluster, Action, pure, ◌>>=◌, ◌>>◌, check, fetch, send, clock, Reconciled,
  finished, again_after,
}
use kube_nas.Agent.{NodeAgentClient}
use kube_nas.Agent.Helpers.{set_condition, fail_last}

unfoldable pub category_create : Pool → String
category_create pool = elim pool.spec.mergerfs [
  | some m ↦ if not (is_empty m.category_create) then m.category_create else "epmfs"
  | none ↦ "epmfs"
]

unfoldable pub min_free_space : Pool → String
min_free_space pool = elim pool.spec.mergerfs [
  | some m ↦ if not (is_empty m.min_free_space) then m.min_free_space else "20G"
  | none ↦ "20G"
]

unfoldable pub extra_options : Pool → String
extra_options pool = elim pool.spec.mergerfs [ some m ↦ m.extra_options | none ↦ "" ]

-- The variables of the loop over the data disks.
pub record Branches : Type 0 where
  pub branches : List String
  pub disk_names : List String
  pub total_bytes : ℤ
  pub available_bytes : ℤ

abbrev pub no_branches : Branches
no_branches = record {
  branches = [];
  disk_names = [];
  total_bytes = pos 0;
  available_bytes = pos 0;
}

abbrev pub disk_key : String → Key
disk_key name = record { name = name; namespace = "" }

module _ {F : Type 0} where
  -- The test of the loop.
  abbrev pub is_member : Disk F → Bool
  is_member d = d.status.mounted && Disk.is_ready d.status.phase

  -- The `append`s put the new entry last.
  unfoldable pub add_branch : Branches → String → Disk F → Branches
  add_branch b name d =
      if is_member d
      then record {
        branches = b.branches ++ (d.spec.mount_point ∷ []);
        disk_names = b.disk_names ++ (name ∷ []);
        total_bytes = add64 b.total_bytes d.status.capacity_bytes;
        available_bytes = add64 b.available_bytes d.status.available_bytes;
      }
      else b

module _ {F : Type 0} (C : Cluster F) where
  -- A disk that cannot be fetched is left out.
  unfoldable pub collect_branches : List String → Branches → Action F Branches
  collect_branches [] b = pure b
  collect_branches (name ∷ names) b = do
    found ← fetch Kind.disks C.disk (disk_key name)
    collect_branches names (elim found [ err x ↦ b | ok d ↦ add_branch b name d ])

  -- The node of the first data disk that can be fetched.
  unfoldable pub find_node : List String → Action F String
  find_node [] = pure ""
  find_node (name ∷ names) =
      let rest = find_node names in
      do
        found ← fetch Kind.disks C.disk (disk_key name)
        elim found [ err x ↦ rest | ok d ↦ pure d.spec.node_name ]

  unfoldable pub set_pool_phase : Pool → String → String → String → Action F Reconciled
  set_pool_phase pool phase reason message = do
    at ← clock C
    let set = set_condition pool.status.conditions (record {
      type = "Ready";
      status = true;
      reason = reason;
      message = message;
      last_transition_time = at;
    })
    let conditions = if not (str_eq phase "Ready") then fail_last set else set
    let status = record (pool.status) { phase = phase; conditions = conditions }
    check (send C (Call.update_status (Object.pool (record pool { status = status }))))
        (wrap "updating pool status") (pure (again_after 30))

  module _ (agent : NodeAgentClient F) where
    -- What follows the loop, when some branch is ready.
    unfoldable pub mount_pool : Pool → Array F → Branches → Action F Reconciled
    mount_pool pool array b = do
      node ← find_node array.spec.data_disks
      mounted ← agent.ensure_mergerfs_mount node (record {
        branches = b.branches;
        mount_point = pool.spec.mount_point;
        category_create = category_create pool;
        min_free_space = min_free_space pool;
        extra_options = extra_options pool;
      })
      elim mounted [
        | err x ↦ set_pool_phase pool "Degraded" "MountError" x.message
        | ok is_mounted ↦
            let status = record (pool.status) {
              mounted = is_mounted;
              total_bytes = b.total_bytes;
              available_bytes = b.available_bytes;
              member_disks = b.disk_names;
            } in
            set_pool_phase (record pool { status = status }) "Ready" "Reconciled"
              ("Pool mounted with "
                <> (decimal (length b.branches) <> (" disks at " <> pool.spec.mount_point)))
      ]

    unfoldable pub pool_with_array : Pool → Array F → Action F Reconciled
    pool_with_array pool array =
        if not (Array.is_ready array.status.phase)
        then set_pool_phase pool "Pending" "ArrayNotReady" (
            "Array "
            <> (quoted pool.spec.array_ref
                <> (" is not Ready (" <> (Array.phase_text array.status.phase <> ")"))))
        else (collect_branches array.spec.data_disks no_branches >>= λ b.
            if is_nil b.branches
            then set_pool_phase pool "Pending" "NoBranchesReady"
                "No data disks are ready and mounted"
            else mount_pool pool array b)

    -- What follows the fetch.
    unfoldable pub reconcile_pool : Pool → Action F Reconciled
    reconcile_pool pool = do
      found ←
          fetch Kind.arrays C.array
            (record { name = pool.spec.array_ref; namespace = pool.meta.namespace })
      elim found [
        | err x ↦
            set_pool_phase pool "Pending" "ArrayNotFound"
              ("Array " <> (quoted pool.spec.array_ref <> " not found"))
        | ok array ↦ pool_with_array pool array
      ]

    unfoldable pub reconcile : Key → Action F Reconciled
    reconcile key = do
      found ← fetch Kind.pools C.pool key
      elim found [
        | err x ↦ pure (if is_not_found x then finished else err x)
        | ok pool ↦ reconcile_pool pool
      ]
