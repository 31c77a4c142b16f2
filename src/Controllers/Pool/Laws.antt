-- ===== src/Controllers/Pool/Laws.antt =====
-- What a reconciliation of a Pool writes (controllers/pool_controller.go).
use kube_nas.Base.{
  ℕ, String, Bool, true, false, List, [], ◌∷◌, ◌≡◌, refl, sym, ap, ◌∙◌, arith, inl, inr, Bool-cases,
  is_nil, str_eq, if◌then◌else◌, ◌<>◌, length,
}
use kube_nas.Base.Text.{decimal}
use kube_nas.Base.Outcome.{Error, Result, ok, err, Result-cases}
use kube_nas.Api.Disk.{Disk}
use kube_nas.Api.Array.{Array, is_ready}
use kube_nas.Api.Pool.{Pool}
use kube_nas.Cluster.{Object, Kind, Call, Cluster, Trace, ◌>>=◌, fetch}
use kube_nas.Agent.{NodeAgentClient, MergerfsMountRequest}
use kube_nas.Agent.Helpers.{set_condition, fail_last}
use kube_nas.Agent.Laws.{effects, KeepsObjects}
use kube_nas.Controllers.Pool.{
  Branches, no_branches, category_create, min_free_space, extra_options, collect_branches,
  find_node, set_pool_phase, mount_pool, pool_with_array, reconcile_pool,
}
use kube_nas.Controllers.Pool.Members.{
  answers, members, mount_points, names_of, collect_branches-fields, mount_points_nonempty,
  mount_points_empty,
}

-- The Pool that `set_pool_phase` sends.
abbrev phased : Pool → String → String → String → ℕ → Pool
phased p phase reason message at =
    let set = set_condition p.status.conditions (record {
      type = "Ready";
      status = true;
      reason = reason;
      message = message;
      last_transition_time = at;
    }) in
    record p {
      status = record (p.status) {
        phase = phase;
        conditions = if str_eq phase "Ready" then set else fail_last set;
      };
    }

module _ {F : Type 0} (C : Cluster F) where
  set_pool_phase-trace :
      (p : Pool) (phase reason message : String) (t : Trace F)
      → (set_pool_phase C p phase reason message t).1
        ≡ Call.update_status (Object.pool (phased p phase reason message (C.time t))) ∷ Call.now ∷ t
  unfolding set_pool_phase
  set_pool_phase-trace p phase reason message t = ground arith

  collect_branches-keeps :
      (names : List String) (b : Branches) (t : Trace F)
      → effects (collect_branches C names b t).1 ≡ effects t
  unfolding collect_branches
  collect_branches-keeps [] b t = refl
  collect_branches-keeps (name ∷ names) b t = collect_branches-keeps names _ _

  find_node-keeps :
      (names : List String) (t : Trace F) → effects (find_node C names t).1 ≡ effects t
  unfolding find_node
  find_node-keeps [] t = refl
  find_node-keeps (name ∷ names) t = ground (
    arith,
    find_node-keeps names (Call.read Kind.disks (record { name = name; namespace = "" }) ∷ t),
  )

  abbrev pub request : Pool → List String → MergerfsMountRequest
  request p branches = record {
    branches = branches;
    mount_point = p.spec.mount_point;
    category_create = category_create p;
    min_free_space = min_free_space p;
    extra_options = extra_options p;
  }

  -- The Array of a Pool as it is read, and the calls with it.
  abbrev pub array_read : Pool → Trace F → Result (Array F) × Trace F
  array_read p =
      fetch Kind.arrays C.array (record { name = p.spec.array_ref; namespace = p.meta.namespace })

  module _ (agent : NodeAgentClient F) (p : Pool) where
    -- The data disks of the array that are read as mounted and Ready.
    abbrev pub ready_members : Array F → Trace F → List (String × Disk F)
    ready_members array t = members (answers C array.spec.data_disks (array_read p t).1)

    -- The calls when these were read, and the node that is found then, with the calls.
    abbrev pub collected : Array F → Trace F → Trace F
    collected array t = (collect_branches C array.spec.data_disks no_branches (array_read p t).1).1

    abbrev pub node_found : Array F → Trace F → String × Trace F
    node_found array t = find_node C array.spec.data_disks (collected array t)

    -- The agent's answer to the mount of these disks.
    abbrev pub mounting : Array F → Trace F → Result Bool × Trace F
    mounting array t =
        agent.ensure_mergerfs_mount (node_found array t).0
          (request p (mount_points (ready_members array t))) (node_found array t).1

    -- What the written Pool `w` rests on in a reconciliation that starts at `t` and whose calls
    -- before the writing are `calls`.
    pub data Grounds (w : Pool) (t calls : Trace F) : Type 0 where
      unread :
          (x : Error)
          → (array_read p t).0 ≡ err x
          → calls ≡ (array_read p t).1
          → w.status.phase ≡ "Pending"
          → Grounds w t calls
      unready :
          (array : Array F)
          → (array_read p t).0 ≡ ok array
          → is_ready array.status.phase ≡ false
          → calls ≡ (array_read p t).1
          → w.status.phase ≡ "Pending"
          → Grounds w t calls
      memberless :
          (array : Array F)
          → (array_read p t).0 ≡ ok array
          → is_ready array.status.phase ≡ true
          → is_nil (ready_members array t) ≡ true
          → calls ≡ collected array t
          → w.status.phase ≡ "Pending"
          → Grounds w t calls
      refused :
          (array : Array F) (x : Error)
          → (array_read p t).0 ≡ ok array
          → is_ready array.status.phase ≡ true
          → is_nil (ready_members array t) ≡ false
          → (mounting array t).0 ≡ err x
          → calls ≡ (mounting array t).1
          → w.status.phase ≡ "Degraded"
          → Grounds w t calls
      served :
          (array : Array F)
          → (array_read p t).0 ≡ ok array
          → is_ready array.status.phase ≡ true
          → is_nil (ready_members array t) ≡ false
          → (mounting array t).0 ≡ ok w.status.mounted
          → calls ≡ (mounting array t).1
          → w.status.member_disks ≡ names_of (ready_members array t)
          → w.status.phase ≡ "Ready"
          → Grounds w t calls

    -- What is written of a Pool: its status, after the calls that the writing rests on.
    abbrev pub Wrote : Trace F → Trace F → Type 0
    Wrote t t' =
        (w : Pool) × (calls : Trace F) × (t'
          ≡ Call.update_status (Object.pool w) ∷ Call.now ∷ calls)
        × (effects calls ≡ effects t)
        × (w.spec ≡ p.spec)
        × (w.meta ≡ p.meta)
        × Grounds w t calls

    module _ (keeps : KeepsObjects agent) (t : Trace F) where
      waiting-Wrote :
          (phase reason message : String) (calls : Trace F)
          → effects calls ≡ effects t
          → ((w : Pool) → w.status.phase ≡ phase → Grounds w t calls)
          → Wrote t (set_pool_phase C p phase reason message calls).1
      waiting-Wrote phase reason message calls kept grounds = (
        phased p phase reason message (C.time calls),
        calls,
        set_pool_phase-trace p phase reason message calls,
        kept,
        refl,
        refl,
        grounds _ refl,
      )

      mount_pool-Wrote :
          (array : Array F) (b : Branches)
          → (array_read p t).0 ≡ ok array
          → is_ready array.status.phase ≡ true
          → is_nil b.branches ≡ false
          → b.branches ≡ mount_points (ready_members array t)
          → b.disk_names ≡ names_of (ready_members array t)
          → effects (collected array t) ≡ effects t
          → Wrote t (mount_pool C agent p array b (collected array t)).1
      unfolding mount_pool
      mount_pool-Wrote array b read ready some_branch from names e = elim (Result-cases sent.0) [
        | inl (x, no_mount) ↦
            rw (no_mount, ◌>>=◌)
              (waiting-Wrote "Degraded" _ _ after kept (λ w.
                refused array x read ready some_member (sym (ap (λ r. r.0) same) ∙ no_mount)
                  (ap (λ r. r.1) same)))
        | inr (m, mounts) ↦ (
          phased (filled m) "Ready" "Reconciled" done (C.time after),
          after,
          rw (mounts, ◌>>=◌) (set_pool_phase-trace (filled m) _ _ done after),
          kept,
          refl,
          refl,
          served array read ready some_member (sym (ap (λ r. r.0) same) ∙ mounts)
              (ap (λ r. r.1) same) names refl,
        )
      ]
        where
          sent : Result Bool × Trace F
          sent =
              agent.ensure_mergerfs_mount (node_found array t).0 (request p b.branches)
                (node_found array t).1

          same : sent ≡ mounting array t
          same =
              ap
                (λ bs.
                  agent.ensure_mergerfs_mount (node_found array t).0 (request p bs)
                    (node_found array t).1)
                from

          after : Trace F
          after = sent.1

          done : String
          done =
              "Pool mounted with "
              <> (decimal (length b.branches) <> (" disks at " <> p.spec.mount_point))

          some_member : is_nil (ready_members array t) ≡ false
          some_member = mount_points_nonempty _ b.branches from some_branch

          kept : effects after ≡ effects t
          kept =
              keeps.ensure_mergerfs_mount-keeps _ _ (node_found array t).1
              ∙ (find_node-keeps array.spec.data_disks (collected array t) ∙ e)

          filled : Bool → Pool
          filled m = record p {
            status = record (p.status) {
              mounted = m;
              total_bytes = b.total_bytes;
              available_bytes = b.available_bytes;
              member_disks = b.disk_names;
            };
          }

      -- A reconciliation of a Pool writes its status, once and last, and no other object but
      -- ConfigMaps, and keeps its metadata and spec. The phase is Pending, and no agent is called, if
      -- the Pool's Array could not be read, was read in a phase other than Ready, or has no data disk
      -- that was then read as mounted and Ready. Else the agent of the node that was found is asked to
      -- mount just the mount points of those disks: the phase is Degraded if it fails, and if it does
      -- not, Ready, with the names of just those disks and with `mounted` as the agent answered.
      pub reconcile_pool_served : Wrote t (reconcile_pool C agent p t).1
      unfolding reconcile_pool pool_with_array
      reconcile_pool_served = elim (Result-cases (array_read p t).0) [
        | inl (x, e) ↦ rw (e, ◌>>=◌) (waiting-Wrote "Pending" _ _ after refl (λ w. unread x e refl))
        | inr (array, e) ↦ elim (Bool-cases (is_ready array.status.phase)) [
          | inr waits ↦
              rw (e, ◌>>=◌, waits)
                (waiting-Wrote "Pending" _ _ after refl (λ w. unready array e waits refl))
          | inl ready ↦ elim (Bool-cases (is_nil (branches array).branches)) [
            | inl empty ↦
                rw (e, ◌>>=◌, ready, empty)
                  (waiting-Wrote "Pending" _ _ (collected array t) (kept array) (λ w.
                    memberless array e ready
                      (mount_points_empty _ (branches array).branches (fields array).0 empty) refl))
            | inr found ↦
                rw (e, ◌>>=◌, ready, found)
                  (mount_pool-Wrote array (branches array) e ready found (fields array).0
                    (fields array).1 (kept array))
          ]
        ]
      ]
        where
          after : Trace F
          after = (array_read p t).1

          branches : Array F → Branches
          branches array = (collect_branches C array.spec.data_disks no_branches after).0

          fields :
              (array : Array F)
              → ((branches array).branches ≡ mount_points (ready_members array t))
                × ((branches array).disk_names ≡ names_of (ready_members array t))
          fields array =
              let f = collect_branches-fields C array.spec.data_disks no_branches after in
              (f.0, f.1)

          kept : (array : Array F) → effects (collected array t) ≡ effects t
          kept array = collect_branches-keeps array.spec.data_disks no_branches after
