-- ===== src/Controllers/Share/Laws.antt =====
-- What a reconciliation of a Share publishes (controllers/share_controller.go).
use kube_nas.Base.{
  ℕ, String, true, false, some, List, [], ◌∷◌, ◌≡◌, ◌≢◌, refl, arith, inl, inr, Bool-cases,
  Option-cases, ◌⊎◌, str_eq, eq_iff, if◌then◌else◌, not,
}
use kube_nas.Base.Outcome.{Error, ok, Result-cases, is_not_found}
use kube_nas.Api.Meta.{Key, ObjectMeta}
use kube_nas.Api.Pool.{Pool}
use kube_nas.Api.Share.{Share}
use kube_nas.Cluster.{Object, Kind, Call, Cluster, Trace, Pod, ◌>>=◌}
use kube_nas.Agent.Helpers.{set_condition, fail_last}
use kube_nas.Agent.Laws.{effects}
use kube_nas.Controllers.Share.{
  set_share_phase, publish_protocol, serve, reconcile_share, upsert_pod, recreate_pod,
  is_immutable_pod_update_error, key_of, versioned,
}

-- The Share that `set_share_phase` sends.
abbrev phased : Share → String → String → String → ℕ → Share
phased share phase reason message at =
    let late = not (str_eq phase "Ready") in
    let set = set_condition share.status.conditions (record {
      type = "Ready";
      status = true;
      reason = reason;
      message = message;
      last_transition_time = at;
    }) in
    record share {
      status = record (share.status) {
        phase = phase;
        published = if late then false else share.status.published;
        conditions = if late then fail_last set else set;
      };
    }

module _ {F : Type 0} (C : Cluster F) where
  set_share_phase-effects :
      (share : Share) (phase reason message : String) (t : Trace F)
      → effects (set_share_phase C share phase reason message t).1
        ≡ Call.update_status (Object.share (phased share phase reason message (C.time t)))
          ∷ effects t
  unfolding set_share_phase
  set_share_phase-effects share phase reason message t = ground arith

  -- The share's pool is read as mounted.
  pub record HasMountedPool (share : Share) (t : Trace F) : Type 0 where
    pub pool : Pool
    pub read :
        C.pool t (record { name = share.spec.pool_ref; namespace = share.meta.namespace }) ≡ ok pool
    pub mounted : pool.status.mounted ≡ true

  -- The last write is of the share's status, and what it publishes fits the pool that was read.
  abbrev pub Publishes : Share → Trace F → Trace F → Type 0
  Publishes share t t' =
      (w : Share) × (before : List (Call F)) × (effects t'
        ≡ Call.update_status (Object.share w) ∷ before)
      × (((w.status.phase ≢ "Ready") × (w.status.published ≡ false))
          ⊎ ((w.status.phase ≡ "Ready") × (w.status.published ≡ true) × HasMountedPool share t))

  unpublished :
      (share share' : Share) (phase reason message : String) (t t₀ : Trace F)
      → str_eq phase "Ready" ≡ false
      → Publishes share t₀ (set_share_phase C share' phase reason message t).1
  unpublished share share' phase reason message t t₀ other = (
    phased share' phase reason message (C.time t),
    effects t,
    set_share_phase-effects share' phase reason message t,
    inl ((λ r. ground (arith, eq_iff phase "Ready")), ground arith),
  )

  module _ (own : Share → ObjectMeta → ObjectMeta) where
    serve-Publishes :
        (share : Share) (pool : Pool) (t t₀ : Trace F)
        → HasMountedPool share t₀
        → Publishes share t₀ (serve C own share pool t).1
    unfolding serve
    serve-Publishes share pool t t₀ has =
        elim (Result-cases (publish_protocol C own bare pool t).0) [
          | inl (x, e) ↦ rw (e, ◌>>=◌) (unpublished share bare "Degraded" _ _ after t₀ refl)
          | inr (s, e) ↦
              rw (e, ◌>>=◌)
                (
                  phased (done s) "Ready" "Published" _ (C.time after),
                  effects after,
                  set_share_phase-effects (done s) "Ready" "Published" _ after,
                  inr (refl, refl, has),
                )
        ]
      where
        bare : Share
        bare = record share { status = record (share.status) { effective_subjects = [] } }

        after : Trace F
        after = (publish_protocol C own bare pool t).1

        done : Share → Share
        done s = record s { status = record (s.status) { published = true } }

    -- Of the calls that write an object other than a ConfigMap, the last is a write of the Share's
    -- status. The share that is written is published exactly when its phase is Ready, and then its
    -- pool was read as mounted; in any other phase it is not published, whatever was published before.
    pub reconcile_share_published :
        (share : Share) (t : Trace F) → Publishes share t (reconcile_share C own share t).1
    unfolding reconcile_share
    reconcile_share_published share t = elim (Result-cases (C.pool t key)) [
      | inl (x, e) ↦ rw (e, ◌>>=◌) (unpublished share share "Pending" _ _ _ t refl)
      | inr (pool, e) ↦
          rw (e, ◌>>=◌)
            (elim (Bool-cases pool.status.mounted) [
              | inr idle ↦ rw idle (unpublished share share "Pending" _ _ _ t refl)
              | inl mounted ↦ simp mounted (
                  serve-Publishes share pool _ t
                    (record { pool = pool; read = e; mounted = mounted }))
            ])
    ]
      where
        key : Key
        key = record { name = share.spec.pool_ref; namespace = share.meta.namespace }

  -- A pod that exists and whose update is refused because a field cannot be changed is deleted, and
  -- then created from the new description with no resource version. Only where the deletion fails with
  -- an error other than `not found` is it not created, and that error is the result.
  pub upsert_pod_recreates :
      (pod existing : Pod) (x : Error) (t : Trace F)
      → C.pod t (key_of pod.meta) ≡ ok existing
      → C.respond (Call.read Kind.pods (key_of pod.meta) ∷ t) (
          Call.update
            (Object.pod (record pod { meta = versioned pod.meta existing.meta.resource_version })))
        ≡ some x
      → is_immutable_pod_update_error x ≡ true
      → (updated : List (Call F)) × (updated
          ≡ Call.update
              (Object.pod (record pod { meta = versioned pod.meta existing.meta.resource_version }))
            ∷ effects t)
        × ((effects (upsert_pod C pod t).1
              ≡ Call.create (Object.pod (record pod { meta = versioned pod.meta "" }))
                ∷ Call.delete (Object.pod existing)
                ∷ updated)
            ⊎ ((y : Error) × ((upsert_pod C pod t).0 ≡ some y)
                × (is_not_found y ≡ false)
                × (effects (upsert_pod C pod t).1 ≡ Call.delete (Object.pod existing) ∷ updated)))
  unfolding upsert_pod recreate_pod
  upsert_pod_recreates pod existing x t found refused fixed = (
    _,
    refl,
    elim (Option-cases (C.respond after (Call.delete (Object.pod existing)))) [
      | inl gone ↦ inl (ground arith)
      | inr (y, e) ↦ elim (Bool-cases (is_not_found y)) [
        | inl nf ↦ inl (ground arith)
        | inr other ↦ inr (y, ground arith, other, ground arith)
      ]
    ],
  )
    where
      after : Trace F
      after =
          Call.update
            (Object.pod (record pod { meta = versioned pod.meta existing.meta.resource_version }))
          ∷ Call.read Kind.pods (key_of pod.meta)
          ∷ t
