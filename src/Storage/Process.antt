-- ===== src/Storage/Process.antt =====
-- The calls of programs and files in storage/: MountPool of mergerfs/pool.go, and WriteConfig and Run
-- of snapraid/commands.go.
use kube_nas.Base.{
  String, ◌<>◌, Bool, ◌||◌, Option, none, some, [], ◌∷◌, if◌then◌else◌, str_eq, ◌≡◌, ◌⊎◌, inl, inr,
  Bool-cases, refl, eq_iff,
}
use kube_nas.Base.Outcome.{Error, errorf}
use kube_nas.Cluster.Host.{HostCall}
use kube_nas.Cluster.{Call, Trace, Action, pure, ◌>>=◌}
use kube_nas.Node.Host.{Host, open_truncate, write, run_combined}
use kube_nas.Storage.Options.{Config, render}

-- The keys of the map `allowed`.
unfoldable pub is_allowed : String → Bool
is_allowed name = str_eq name "sync" || str_eq name "scrub" || str_eq name "fix"

module _ {F : Type 0} (H : Host F) where
  unfoldable pub mount_pool : String → String → Action F (Option Error)
  mount_pool source_glob pool =
      run_combined H "mergerfs"
        (source_glob ∷ pool ∷ "-o" ∷ "category.create=mfs,minfreespace=10G" ∷ [])
        "mergerfs mount failed"

  unfoldable pub write_config : String → Config → Action F (Option Error)
  write_config path cfg = open_truncate H path >>= λ e. elim e [
    | some x ↦ pure (some x)
    | none ↦ write H path (render cfg)
  ]

  unfoldable pub run_command : String → Action F (Option Error)
  run_command name =
      if is_allowed name
      then run_combined H "snapraid" (name ∷ []) ("snapraid " <> (name <> " failed"))
      else pure (some (errorf ("unsupported snapraid command: " <> name)))

  -- `Run` runs SnapRAID once, with one of the three words sync, scrub and fix, or it runs nothing and
  -- returns an error that names the word.
  pub run_command-is_allowed :
      (name : String) (t : Trace F)
      → (((name ≡ "sync") ⊎ ((name ≡ "scrub") ⊎ (name ≡ "fix")))
          × ((run_command name t).1 ≡ Call.host (HostCall.run "snapraid" (name ∷ [])) ∷ t))
        ⊎ (run_command name t ≡ (some (errorf ("unsupported snapraid command: " <> name)), t))
  unfolding run_command is_allowed
  run_command-is_allowed name t = elim (Bool-cases (str_eq name "sync")) [
    | inl e ↦ inl (inl ((eq_iff _ _).0 e), rw e refl)
    | inr e ↦ elim (Bool-cases (str_eq name "scrub")) [
      | inl e' ↦ inl (inr (inl ((eq_iff _ _).0 e')), rw (e, e') refl)
      | inr e' ↦ elim (Bool-cases (str_eq name "fix")) [
        | inl e'' ↦ inl (inr (inr ((eq_iff _ _).0 e'')), rw (e, e', e'') refl)
        | inr e'' ↦ inr (rw (e, e', e'') refl)
      ]
    ]
  ]
