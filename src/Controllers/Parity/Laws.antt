-- ===== src/Controllers/Parity/Laws.antt =====
-- The cron jobs of a ParitySchedule (controllers/parity_controller.go).
use kube_nas.Base.{
  ℕ, zero, suc, ◌≤◌, String, ◌<>◌, true, false, Option, none, some, List, [], ◌∷◌, ◌≡◌, refl, arith,
  inl, inr, Bool-cases, Option-cases, ◌⊎◌,
}
use kube_nas.Base.Int.{ℤ, pos, negsuc, pos_part, ltb_ℤ}
use kube_nas.Base.Text.{decimal, quoted}
use kube_nas.Base.Outcome.{Error, ok, err, Result-cases, is_not_found, wrap}
use kube_nas.Api.Meta.{Key}
use kube_nas.Api.Parity.{ParitySchedule}
use kube_nas.Cluster.{Object, Kind, Call, Cluster, Trace, CronJob, Reconciled, again_after, ◌>>=◌}
use kube_nas.Agent.Laws.{effects}
use kube_nas.Controllers.Parity.{
  Operation, scrub_pct, operations, cron_job_name, build_cron_job, snapraid_pod, ensure_cron_job,
  ensure_all, reconcile_schedule, resolve_snapraid_config_name, primary_config_name,
}

positive_part : (i : ℤ) → ltb_ℤ (pos 0) i ≡ true → (i ≡ pos (pos_part i)) × (1 ≤ pos_part i)
positive_part (pos zero) h = absurd (ground (arith, h))
positive_part (pos (suc n)) h = (refl, omega arith)
positive_part (negsuc n) h = absurd (ground (arith, h))

module _ {F : Type 0} (C : Cluster F) (api_version : String) (ps : ParitySchedule) where
  -- The cron job runs the operation, on its schedule and with the named configuration.
  abbrev pub Runs : String → CronJob → Operation → Type 0
  Runs config_name job op =
      (job.spec.schedule ≡ op.schedule) × (job.spec.template ≡ snapraid_pod op.command config_name)

  abbrev pub job_key : Operation → Key
  job_key op = record { name = cron_job_name ps op.name; namespace = ps.meta.namespace }

  -- What the cron job of one operation rests on: the calls go from `t` to `t'` and end with `e`. The
  -- cron job is read, and created if it is not found or updated if it is there.
  pub data Ensured (config_name : String) (op : Operation) (t t' : Trace F) (e : Option Error)
      : Type 0 where
    unread :
        (x : Error)
        → C.cron_job t (job_key op) ≡ err x
        → is_not_found x ≡ false
        → e ≡ some x
        → t' ≡ Call.read Kind.cron_jobs (job_key op) ∷ t
        → Ensured config_name op t t' e
    created :
        (x : Error) (job : CronJob)
        → C.cron_job t (job_key op) ≡ err x
        → is_not_found x ≡ true
        → Runs config_name job op
        → (job.meta.name ≡ (job_key op).name) × (job.meta.namespace ≡ (job_key op).namespace)
        → e
          ≡ C.respond
              (Call.read Kind.cron_jobs (job_key op) ∷ t)
              (Call.create (Object.cron_job job))
        → t' ≡ Call.create (Object.cron_job job) ∷ Call.read Kind.cron_jobs (job_key op) ∷ t
        → Ensured config_name op t t' e
    updated :
        (existing job : CronJob)
        → C.cron_job t (job_key op) ≡ ok existing
        → Runs config_name job op
        → job.meta ≡ existing.meta
        → e
          ≡ C.respond
              (Call.read Kind.cron_jobs (job_key op) ∷ t)
              (Call.update (Object.cron_job job))
        → t' ≡ Call.update (Object.cron_job job) ∷ Call.read Kind.cron_jobs (job_key op) ∷ t
        → Ensured config_name op t t' e

  -- The operations are ensured one after the other from `t`, up to the first error, whose text is then
  -- the result; without an error the next reconciliation is in 300 seconds.
  abbrev pub Ran : String → List Operation → Trace F → Trace F → Reconciled → Type 0
  Ran config_name [] t t' r = (t' ≡ t) × (r ≡ again_after 300)
  Ran config_name (op ∷ ops) t t' r =
      (e : Option Error) × (t₁ : Trace F) × Ensured config_name op t t₁ e
      × (((e ≡ none) × Ran config_name ops t₁ t' r)
          ⊎ ((x : Error) × (e ≡ some x)
              × (t' ≡ t₁)
              × (r ≡ err (wrap ("ensuring " <> (op.name <> " cronjob")) x))))

  ensure_cron_job-Ensured :
      (config_name : String) (op : Operation) (t : Trace F)
      → Ensured config_name op t
          (ensure_cron_job C api_version ps config_name op t).1
          (ensure_cron_job C api_version ps config_name op t).0
  unfolding ensure_cron_job build_cron_job
  ensure_cron_job-Ensured config_name op t = elim (Result-cases (C.cron_job t (job_key op))) [
    | inl (x, e) ↦ elim (Bool-cases (is_not_found x)) [
      | inl nf ↦
          created x
            (build_cron_job api_version ps (cron_job_name ps op.name) op.schedule op.command
              config_name)
            e nf (refl, refl) (refl, refl) (rw (e, ◌>>=◌, nf) refl) (rw (e, ◌>>=◌, nf) refl)
      | inr other ↦ unread x e other (rw (e, ◌>>=◌, other) refl) (rw (e, ◌>>=◌, other) refl)
    ]
    | inr (existing, e) ↦
        updated existing
          (record existing {
            spec = record (existing.spec) {
              schedule = op.schedule;
              backoff_limit = some 2;
              template = snapraid_pod op.command config_name;
            };
          })
          e (refl, refl) refl (rw (e, ◌>>=◌) refl) (rw (e, ◌>>=◌) refl)
  ]

  ensure_all-Ran :
      (config_name : String) (ops : List Operation) (t : Trace F)
      → Ran config_name ops t
          (ensure_all C api_version ps config_name ops t).1
          (ensure_all C api_version ps config_name ops t).0
  unfolding ensure_all
  ensure_all-Ran config_name [] t = (refl, refl)
  ensure_all-Ran config_name (op ∷ ops) t =
      let (e, t₁) = ensure_cron_job C api_version ps config_name op t in
      (
        e,
        t₁,
        ensure_cron_job-Ensured config_name op t,
        elim (Option-cases e) [
          | inl fine ↦ inl (fine, rw (fine, ◌>>=◌) (ensure_all-Ran config_name ops t₁))
          | inr (x, bad) ↦ inr (x, bad, rw (bad, ◌>>=◌) refl, rw (bad, ◌>>=◌) refl)
        ],
      )

  -- The three operations, with the percentage of the scrub.
  abbrev pub scheduled : ℕ → List Operation
  scheduled percentage =
      record { name = "sync"; schedule = ps.spec.sync_cron; command = "snapraid sync" }
      ∷ record { name = "check"; schedule = ps.spec.check_cron; command = "snapraid check" }
      ∷ record {
        name = "scrub";
        schedule = ps.spec.scrub_cron;
        command = "snapraid scrub -p " <> decimal percentage;
      }
      ∷ []

  -- The percentage that is given if it is positive, and else 100.
  abbrev pub IsPercentage : ℕ → Type 0
  IsPercentage n =
      ((ps.spec.scrub_percentage ≡ pos n) × (1 ≤ n))
      ⊎ ((ltb_ℤ (pos 0) ps.spec.scrub_percentage ≡ false) × (n ≡ 100))

  operations-scheduled : (n : ℕ) × (operations ps ≡ scheduled n) × IsPercentage n
  unfolding operations scrub_pct
  operations-scheduled = elim (Bool-cases (ltb_ℤ (pos 0) ps.spec.scrub_percentage)) [
    | inl positive ↦ (
      pos_part ps.spec.scrub_percentage,
      rw positive refl,
      inl (positive_part ps.spec.scrub_percentage positive),
    )
    | inr other ↦ (100, rw other refl, inr (other, refl))
  ]

  primary-keeps :
      (names : List String) (t : Trace F) → effects (primary_config_name C names t).1 ≡ effects t
  unfolding primary_config_name
  primary-keeps [] t = refl
  primary-keeps (name ∷ names) t =
      elim (Result-cases (C.disk t (record { name = name; namespace = "" }))) [
        | inl (x, e) ↦ ground arith
        | inr (d, e) ↦ ground arith
      ]

  resolve-keeps : (t : Trace F) → effects (resolve_snapraid_config_name C ps t).1 ≡ effects t
  unfolding resolve_snapraid_config_name
  resolve-keeps t =
      elim (Result-cases
        (C.array t (record { name = ps.spec.array_ref; namespace = ps.meta.namespace }))) [
          | inl (x, e) ↦ ground arith
          | inr (a, e) ↦ rw (e, ◌>>=◌) (primary-keeps a.spec.data_disks _)
        ]

  -- What a reconciliation that starts at `t` answers and calls.
  abbrev pub Applies : Trace F → Type 0
  Applies t =
      let (resolved, after) = resolve_snapraid_config_name C ps t in
      let (result, calls) = reconcile_schedule C api_version ps t in
      (effects after ≡ effects t)
      × (((x : Error) × (resolved ≡ err x)
            × (result
                ≡ err (wrap ("resolving snapraid config for array " <> quoted ps.spec.array_ref) x))
            × (calls ≡ after))
          ⊎ ((config_name : String) × (n : ℕ) × (resolved ≡ ok config_name)
              × IsPercentage n
              × Ran config_name (scheduled n) after calls result))

  -- A reconciliation of a ParitySchedule looks up its SnapRAID configuration. If that fails, the result
  -- is its error and nothing is written. Else the cron jobs of sync, check and scrub are ensured with
  -- this configuration, in this order and each on its own schedule: each is read, and created if it
  -- does not exist or updated if it does, to run the operation's command. The first that fails ends
  -- the reconciliation with its error; if none does, the next one is in 300 seconds. The scrub has the
  -- percentage of the specification if that is positive, and else 100.
  pub reconcile_schedule-Applies : (t : Trace F) → Applies t
  unfolding reconcile_schedule
  reconcile_schedule-Applies t = (
    resolve-keeps t,
    elim (Result-cases (resolve_snapraid_config_name C ps t).0) [
      | inl (x, e) ↦ inl (x, e, rw (e, ◌>>=◌) refl, rw (e, ◌>>=◌) refl)
      | inr (name, e) ↦
          let (n, same, percentage) = operations-scheduled in
          inr
            (name, n, e, percentage, rw (e, ◌>>=◌, same) (ensure_all-Ran name (scheduled n) after))
    ],
  )
    where
      after : Trace F
      after = (resolve_snapraid_config_name C ps t).1
