-- ===== src/Node/Host.antt =====
-- The host of a process, such as a node agent: what the operating system answers, which may depend on
-- all that was called before, and the calls as actions.
use kube_nas.Base.{String, ◌<>◌, Bool, Option, none, some, List, ◌∷◌}
use kube_nas.Base.Outcome.{Error, Result}
use kube_nas.Cluster.Host.{HostCall, Ended}
use kube_nas.Cluster.{Call, Trace, Action, pure, ◌>>=◌}

pub record Host (F : Type 0) : Type 0 where
  pub ended : Trace F → String → List String → Ended
  pub made : Trace F → String → Option Error
  pub absolute : Trace F → String → Result String
  pub lines : Trace F → String → Result (List String)
  pub contents : Trace F → String → Result String
  pub opened : Trace F → String → Option Error
  pub truncated : Trace F → String → Option Error
  pub written : Trace F → String → String → Option Error
  pub found : Trace F → String → Bool
  pub removed : Trace F → String → Option Error

module _ {F : Type 0} (H : Host F) where
  -- `exec.Command(name, args...)` with `Run` or `Output`.
  abbrev pub run : String → List String → Action F Ended
  run name args t = (H.ended t name args, Call.host (HostCall.run name args) ∷ t)

  -- `os.MkdirAll`.
  abbrev pub make_dirs : String → Action F (Option Error)
  make_dirs path t = (H.made t path, Call.host (HostCall.make_dirs path) ∷ t)

  -- `os.Open` with a `bufio.Scanner` over the lines.
  abbrev pub scan : String → Action F (Result (List String))
  scan path t = (H.lines t path, Call.host (HostCall.read path) ∷ t)

  -- `os.ReadFile`.
  abbrev pub read_file : String → Action F (Result String)
  read_file path t = (H.contents t path, Call.host (HostCall.read path) ∷ t)

  -- `os.OpenFile` for appending.
  abbrev pub open_append : String → Action F (Option Error)
  open_append path t = (H.opened t path, Call.host (HostCall.open_append path) ∷ t)

  -- `os.OpenFile` for writing from the start.
  abbrev pub open_truncate : String → Action F (Option Error)
  open_truncate path t = (H.truncated t path, Call.host (HostCall.open_truncate path) ∷ t)

  -- `WriteString` on what was opened.
  abbrev pub write : String → String → Action F (Option Error)
  write path text t = (H.written t path text, Call.host (HostCall.write path text) ∷ t)

  -- Whether `exec.LookPath` has no error.
  abbrev pub look_path : String → Action F Bool
  look_path name t = (H.found t name, Call.host (HostCall.look_path name) ∷ t)

  -- `os.RemoveAll`.
  abbrev pub remove_all : String → Action F (Option Error)
  remove_all path t = (H.removed t path, Call.host (HostCall.remove_all path) ∷ t)

-- `fmt.Errorf("prefix: %w\nstderr: %s", err, stderr)`.
abbrev pub wrap_stderr : String → Ended → Error → Error
wrap_stderr prefix e x = record x {
  message = prefix <> (": " <> (x.message <> ("\nstderr: " <> e.stderr)));
}

-- `fmt.Errorf("prefix: %w (%s)", err, out)`.
abbrev pub wrap_output : String → Ended → Error → Error
wrap_output prefix e x = record x {
  message = prefix <> (": " <> (x.message <> (" (" <> (e.combined <> ")"))));
}

-- A command with `CombinedOutput`, whose error is reported with what it printed.
abbrev pub run_combined :
    {F : Type 0} → Host F → String → List String → String → Action F (Option Error)
run_combined H name args prefix = do
  e ← run H name args
  pure (elim e.error [ none ↦ none | some x ↦ some (wrap_output prefix e x) ])
