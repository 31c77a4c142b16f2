-- ===== src/Startup/Started.antt =====
-- When the operator of cmd/main.go starts.
use kube_nas.Base.{
  Option, none, some, List, [], ◌∷◌, ◌++◌, ◌≡◌, refl, ap, sym, subst, ◌∙◌, ◌⊎◌, inl, inr,
  Option-cases,
}
use kube_nas.Base.Outcome.{Error}
use kube_nas.Startup.{Setup, Call, Manager, Exit, complaint, setups, run_manager, set_up_all, main}

-- The calls after the set-ups of the list.
abbrev pub after_setups : List Setup → List Call → List Call
after_setups [] calls = calls
after_setups (s ∷ rest) calls = after_setups rest (Call.set_up s ∷ calls)

-- Each set-up of the list succeeds, the one after the other.
abbrev pub AllRegistered : Manager → List Setup → List Call → Type 0
AllRegistered m [] calls = Unit
AllRegistered m (s ∷ rest) calls =
    (m.registered calls s ≡ none) × AllRegistered m rest (Call.set_up s ∷ calls)

-- Of the set-ups a first part succeeds and the next one fails: the process ends with its complaint, and
-- there is no call after it.
abbrev pub EndsAtFailure : Manager → List Setup → List Call → Exit × List Call → Type 0
EndsAtFailure m ss calls end =
    (before : List Setup) × (s : Setup) × (after : List Setup) × (x : Error) × (ss
      ≡ before ++ (s ∷ after))
    × AllRegistered m before calls
    × (m.registered (after_setups before calls) s ≡ some x)
    × (end ≡ (Exit.exit_1 (complaint s) x, Call.set_up s ∷ after_setups before calls))

-- All set-ups succeed: the manager is started once, after them, and the process ends as its run does.
abbrev pub EndsAsRun : Manager → List Setup → List Call → Exit × List Call → Type 0
EndsAsRun m ss calls end =
    AllRegistered m ss calls
    × (end.1 ≡ Call.start ∷ after_setups ss calls)
    × (((m.started (after_setups ss calls) ≡ none) × (end.0 ≡ Exit.returned))
        ⊎ ((x : Error) × (m.started (after_setups ss calls) ≡ some x)
            × (end.0 ≡ Exit.exit_1 "problem running manager" x)))

run_manager_lem : (m : Manager) (calls : List Call) → EndsAsRun m [] calls (run_manager m calls)
unfolding run_manager
run_manager_lem m calls = elim (Option-cases (m.started calls)) [
  | inl e ↦ (tt, rw (run_manager, e) refl, inl (e, rw (run_manager, e) refl))
  | inr (x, e) ↦ (tt, rw (run_manager, e) refl, inr (x, e, rw (run_manager, e) refl))
]

registered-set_up_all :
    (m : Manager) (s : Setup) (rest : List Setup) (calls : List Call)
    → m.registered calls s ≡ none
    → set_up_all m (s ∷ rest) calls ≡ set_up_all m rest (Call.set_up s ∷ calls)
unfolding set_up_all
registered-set_up_all m s rest calls e = rw (set_up_all, e) refl

created-main : (m : Manager) → m.created ≡ none → main m ≡ set_up_all m setups (Call.create ∷ [])
unfolding main
created-main m e =
    ap
      (λ (o : Option Error). elim o as (λ o'. Exit × List Call) [
        | some x ↦ (Exit.exit_1 "unable to start manager" x, Call.create ∷ [])
        | none ↦ set_up_all m setups (Call.create ∷ [])
      ])
      e

set_up_all_lem :
    (m : Manager) (ss : List Setup) (calls : List Call)
    → EndsAtFailure m ss calls (set_up_all m ss calls)
      ⊎ EndsAsRun m ss calls (set_up_all m ss calls)
unfolding set_up_all
set_up_all_lem m [] calls = inr (run_manager_lem m calls)
set_up_all_lem m (s ∷ rest) calls = elim (Option-cases (m.registered calls s)) [
  | inr (x, e) ↦ inl ([], s, rest, x, refl, tt, e, rw (set_up_all, e) refl)
  | inl e ↦ elim (set_up_all_lem m rest (Call.set_up s ∷ calls)) [
    | inl (before, s', after, x, whole, done, failed, end) ↦ inl (
      s ∷ before,
      s',
      after,
      x,
      ap (λ l. s ∷ l) whole,
      (e, done),
      failed,
      registered-set_up_all m s rest calls e ∙ end,
    )
    | inr (done, last, end) ↦ inr (
      (e, done),
      rw (registered-set_up_all m s rest calls e) last,
      rw (registered-set_up_all m s rest calls e) end,
    )
  ]
]

-- The process ends with exit code 1 at the creation of the manager or at the first set-up that fails,
-- in the order of `main`, without a call after it; or the manager is created, every set-up succeeds,
-- and the manager is started once, as the last call, whose error is the only one that is left.
pub main_lem :
    (m : Manager)
    → ((x : Error) × (m.created ≡ some x)
        × (main m ≡ (Exit.exit_1 "unable to start manager" x, Call.create ∷ [])))
      ⊎ ((m.created ≡ none)
          × (EndsAtFailure m setups (Call.create ∷ []) (main m)
              ⊎ EndsAsRun m setups (Call.create ∷ []) (main m)))
unfolding main
main_lem m = elim (Option-cases m.created) [
  | inr (x, e) ↦ inl (x, e, rw (main, e) refl)
  | inl e ↦ inr (
    e,
    subst
        (λ r. EndsAtFailure m setups (Call.create ∷ []) r ⊎ EndsAsRun m setups (Call.create ∷ []) r)
        (sym (created-main m e)) (set_up_all_lem m setups (Call.create ∷ [])),
  )
]
