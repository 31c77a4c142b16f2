-- ===== src/Csi.antt =====
-- kubenas/csi/driver.go: volumes as directories of a pool.
pub mod Volumes
use kube_nas.Base.{String, Option, none, some, List, [], ◌∷◌}
use kube_nas.Base.Path.{join_path}
use kube_nas.Base.Outcome.{Error, Result, ok, err}
use kube_nas.Cluster.{Action, pure, ◌>>=◌}
use kube_nas.Node.Host.{Host, make_dirs, remove_all, run_combined}

pub record Driver : Type 0 where
  pub pool_root : String

unfoldable pub new_driver : Driver
new_driver = record { pool_root = "/mnt/kubenas/pools" }

unfoldable pub volume_path : Driver → String → String → String
volume_path d pool path = join_path (d.pool_root ∷ pool ∷ path ∷ [])

module _ {F : Type 0} (H : Host F) (d : Driver) where
  unfoldable pub create_volume : String → String → Action F (Result String)
  create_volume pool path = do
    let vol_path = volume_path d pool path
    made ← make_dirs H vol_path
    pure (elim made [ some x ↦ err x | none ↦ ok vol_path ])

  unfoldable pub delete_volume : String → String → Action F (Option Error)
  delete_volume pool path = remove_all H (volume_path d pool path)

  unfoldable pub node_publish_volume : String → String → String → Action F (Option Error)
  node_publish_volume pool path target_path = make_dirs H target_path >>= λ made. elim made [
    | some x ↦ pure (some x)
    | none ↦
        run_combined H "mount" ("--bind" ∷ volume_path d pool path ∷ target_path ∷ [])
          "bind mount failed"
  ]

unfoldable pub node_unpublish_volume : {F : Type 0} → Host F → String → Action F (Option Error)
node_unpublish_volume H target_path = run_combined H "umount" (target_path ∷ []) "unmount failed"
