-- ===== src/Csi/Volumes.antt =====
-- Where the volumes of kubenas/csi/driver.go lie.
use kube_nas.Base.{
  String, true, none, some, [], ◌∷◌, ◌++◌, ◌≡◌, refl, ap, subst, ◌⊎◌, inl, inr, Option-cases,
}
use kube_nas.Base.Outcome.{Error, ok, err}
use kube_nas.Base.Path.{is_rooted, pieces, clean_onto, absolute}
use kube_nas.Base.Path.Below.{stays, named, join_path-Below}
use kube_nas.Cluster.Host.{HostCall}
use kube_nas.Cluster.{Call, Trace}
use kube_nas.Node.Host.{Host}
use kube_nas.Csi.{Driver, volume_path, create_volume, delete_volume, node_publish_volume}

-- The path below the root with the names of the pool and of the path.
abbrev pub below : Driver → String → String → String
below d pool path =
    absolute
      ((clean_onto true [] (pieces d.pool_root) ++ named (pieces pool)) ++ named (pieces path))

-- The calls of a volume that is bound to a target.
abbrev pub bound : {F : Type 0} → String → String → Trace F → Trace F
bound p target t =
    Call.host (HostCall.run "mount" ("--bind" ∷ p ∷ target ∷ []))
    ∷ Call.host (HostCall.make_dirs target)
    ∷ t

volume_path-below :
    (d : Driver) (pool path : String)
    → is_rooted d.pool_root ≡ true
    → stays (pieces pool) ≡ true
    → stays (pieces path) ≡ true
    → volume_path d pool path ≡ below d pool path
unfolding volume_path
volume_path-below d pool path = join_path-Below d.pool_root pool path

-- Where the root is an absolute path and neither the pool nor the path has a piece `..`, the directory
-- of a volume is the root's with the names of the pool and of the path after it. This directory is the
-- one that is made, and that the creation returns unless the making of it fails; it is the one that is
-- removed; and it is bound to the target, unless the making of the target fails, whose error is then
-- the result.
pub volume_path-Below :
    {F : Type 0} (H : Host F) (d : Driver) (pool path target : String) (t : Trace F)
    → is_rooted d.pool_root ≡ true
    → stays (pieces pool) ≡ true
    → stays (pieces path) ≡ true
    → (volume_path d pool path ≡ below d pool path)
      × ((create_volume H d pool path t).1 ≡ Call.host (HostCall.make_dirs (below d pool path)) ∷ t)
      × (((create_volume H d pool path t).0 ≡ ok (below d pool path))
          ⊎ ((x : Error) × (H.made t (below d pool path) ≡ some x)
              × ((create_volume H d pool path t).0 ≡ err x)))
      × ((delete_volume H d pool path t).1
          ≡ Call.host (HostCall.remove_all (below d pool path)) ∷ t)
      × (((x : Error) × (H.made t target ≡ some x)
            × (node_publish_volume H d pool path target t
                ≡ (some x, Call.host (HostCall.make_dirs target) ∷ t)))
          ⊎ ((H.made t target ≡ none)
              × ((node_publish_volume H d pool path target t).1
                  ≡ bound (below d pool path) target t)))
unfolding create_volume delete_volume node_publish_volume
volume_path-Below H d pool path target t rooted ha hb =
    let directory = volume_path-below d pool path rooted ha hb in
    (
      directory,
      ap (λ p. Call.host (HostCall.make_dirs p) ∷ t) directory,
      elim (Option-cases (H.made t (volume_path d pool path))) [
        | inl made ↦ inl (rw made (ap ok directory))
        | inr (x, failed) ↦
            inr (x, subst (λ p. H.made t p ≡ some x) directory failed, rw failed refl)
      ],
      ap (λ p. Call.host (HostCall.remove_all p) ∷ t) directory,
      elim (Option-cases (H.made t target)) [
        | inr (x, failed) ↦ inl (x, failed, rw failed refl)
        | inl made ↦ inr (made, rw made (ap (λ p. bound p target t) directory))
      ],
    )
