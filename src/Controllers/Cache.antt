-- ===== src/Controllers/Cache.antt =====
-- controllers/cachepool_controller.go: the caching itself is not there yet.
use kube_nas.Base.{if◌then◌else◌}
use kube_nas.Base.Outcome.{ok, err, wrap, is_not_found}
use kube_nas.Api.Meta.{Key}
use kube_nas.Cluster.{
  Object, Kind, Call, Cluster, Action, pure, ◌>>=◌, check, fetch, send, Reconciled, finished,
  again_after,
}

module _ {F : Type 0} (C : Cluster F) where
  unfoldable pub reconcile : Key → Action F Reconciled
  reconcile key = do
    found ← fetch Kind.cache_pools C.cache_pool key
    elim found [
      | err x ↦ pure (if is_not_found x then finished else err x)
      | ok cp ↦
          let status = record (cp.status) { phase = "NotImplemented" } in
          check (send C (Call.update_status (Object.cache_pool (record cp { status = status }))))
            (wrap "updating cachepool status") (pure (again_after 300))
    ]
