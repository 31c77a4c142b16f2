-- ===== src/Startup.antt =====
-- cmd/main.go: the set-up of the operator. What the manager answers, which may depend on all that it
-- was asked before, is a parameter.
pub mod Started
use kube_nas.Base.{String, Option, none, some, List, [], ◌∷◌}
use kube_nas.Base.Outcome.{Error}

-- The set-up of a webhook, of a controller and of a check, by name.
pub data Setup : Type 0 where
  webhook controller health_check ready_check : String → Setup

-- The calls of the manager.
pub data Call : Type 0 where
  create : Call
  set_up : Setup → Call
  start : Call

-- `ctrl.NewManager`, what is registered with the manager, and `Start` when it returns.
pub record Manager : Type 0 where
  pub created : Option Error
  pub registered : List Call → Setup → Option Error
  pub started : List Call → Option Error

-- The end of the process: `main` returns, or `os.Exit(1)` after a line of the log.
pub data Exit : Type 0 where
  returned : Exit
  exit_1 : String → Error → Exit

-- The message of the log for a set-up that fails, without its keys.
unfoldable pub complaint : Setup → String
complaint (webhook name) = "unable to create webhook"
complaint (controller name) = "unable to create controller"
complaint (health_check name) = "unable to set up health check"
complaint (ready_check name) = "unable to set up ready check"

-- What `main` registers, in its order.
abbrev pub setups : List Setup
setups =
    Setup.webhook "Disk"
    ∷ Setup.webhook "Array"
    ∷ Setup.webhook "Share"
    ∷ Setup.controller "Disk"
    ∷ Setup.controller "Array"
    ∷ Setup.controller "Pool"
    ∷ Setup.controller "Share"
    ∷ Setup.controller "Parity"
    ∷ Setup.controller "Rebalance"
    ∷ Setup.controller "CachePool"
    ∷ Setup.controller "PlacementPolicy"
    ∷ Setup.controller "Failure"
    ∷ Setup.health_check "healthz"
    ∷ Setup.ready_check "readyz"
    ∷ []

-- `mgr.Start`, with the calls before it.
unfoldable pub run_manager : Manager → List Call → Exit × List Call
run_manager m calls = elim (m.started calls) [
  | some x ↦ (Exit.exit_1 "problem running manager" x, Call.start ∷ calls)
  | none ↦ (Exit.returned, Call.start ∷ calls)
]

-- The calls of `main` from a set-up on. The latest call is the first of the list.
unfoldable pub set_up_all : Manager → List Setup → List Call → Exit × List Call
set_up_all m [] calls = run_manager m calls
set_up_all m (s ∷ rest) calls =
    let rest' = set_up_all m rest (Call.set_up s ∷ calls) in
    elim (m.registered calls s) [
      | some x ↦ (Exit.exit_1 (complaint s) x, Call.set_up s ∷ calls)
      | none ↦ rest'
    ]

unfoldable pub main : Manager → Exit × List Call
main m = elim (m.created) [
  | some x ↦ (Exit.exit_1 "unable to start manager" x, Call.create ∷ [])
  | none ↦ set_up_all m setups (Call.create ∷ [])
]
