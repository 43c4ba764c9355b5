-- ===== src/Daemon/Handler/Started.antt =====
-- crates/daemon/src/handler.rs: a start that answers with success has its project among those that
-- run, and every other is there as before.
use neals.Prelude.{ℕ, zero, suc, ◌≡◌, refl, subst, sym, true, List, [], ◌∷◌, ◌++◌, arith, inl, inr}
use neals.Prelude.Bools.{Bool-cases, take_both}
use neals.Prelude.Lists.{any}
use neals.Prelude.Outcome.{Outcome, ok, err}
use neals.Prelude.Text.{Str, str_eq, str_eq_refl}
use neals.Common.Devenv.{ServiceDecl}
use neals.Daemon.Routes.{BoundRoute}
use neals.Daemon.Binding.{UpError}
use neals.Daemon.Caddy.{CaddyManager, CaddyError}
use neals.Daemon.State.{AppState, RunningProject, is_named, is_running}
use neals.Daemon.Handler.{
  UpEnv, UpTask, Launch, checking, reading, binding, routing, launching, failing, committing,
  finished, task_step, run_task, up_project, commit, running_of, add_running, launch, after_reading,
  after_binding, after_routing, read_project,
}
use neals.Daemon.Handler.Committed.{committed_fresh}
use neals.Daemon.Handler.Stays.{Runs, task_step-Runs}

-- A start of the name, and what its success means.
abbrev pub Started : Str → UpTask × AppState → Type 0
Started name (finished (ok u), s) = is_running s name ≡ true
Started name (finished (err e), s) = Unit
Started name (failing bound u e, s) = Unit
Started name (checking n, s) = n ≡ name
Started name (reading n, s) = n ≡ name
Started name (binding n path services, s) = n ≡ name
Started name (routing n path bound, s) = n ≡ name
Started name (launching n path bound, s) = n ≡ name
Started name (committing n path bound l, s) = n ≡ name

any-snoc :
    (name : Str) (ps : List RunningProject) (p : RunningProject)
    → str_eq p.name name ≡ true
    → any (is_named name) (ps ++ p ∷ []) ≡ true
unfolding any
any-snoc name [] p h = ground (arith, h)
any-snoc name (q ∷ ps) p h = ground (arith, any-snoc name ps p h)

module _ (name : Str) where
  reading-Started :
      (n : Str) (s : AppState) (r : Outcome UpError (Str × List ServiceDecl))
      → n ≡ name
      → Started name (after_reading n r, s)
  reading-Started n s (ok (path, services)) h = h
  reading-Started n s (err e) h = tt

  binding-Started :
      (n path : Str) (s : AppState) (r : Outcome UpError (List BoundRoute))
      → n ≡ name
      → Started name (after_binding n path r, s)
  binding-Started n path s (ok bound) h = h
  binding-Started n path s (err e) h = tt

  routing-Started :
      (n path : Str) (s : AppState) (bound : List BoundRoute)
      (r : Outcome CaddyError (Unit {0}) × CaddyManager)
      → n ≡ name
      → Started name (after_routing s n path bound r)
  routing-Started n path s bound (ok u, m) h = h
  routing-Started n path s bound (err e, m) h = tt

  launching-Started :
      (env : UpEnv) (n path : Str) (s : AppState) (bound : List BoundRoute)
      (r : Outcome Str (Unit {0}))
      → n ≡ name
      → Started name (
        (launch env n path bound s.effects r).0,
        record s { effects = (launch env n path bound s.effects r).1 },
      )
  unfolding launch
  launching-Started env n path s bound (err e) h = tt
  launching-Started env n path s bound (ok u) h = ground (arith, h)

  commit-Started :
      (env : UpEnv) (n path : Str) (bound : List BoundRoute) (l : Launch) (s : AppState)
      → n ≡ name
      → Started name (commit env n path bound l s)
  unfolding commit add_running is_running
  commit-Started env n path bound l s h = elim (Bool-cases (is_running s n)) [
    | inl e ↦ rw e tt
    | inr e ↦
        rw (e, committed_fresh env n path bound l s e)
          (any-snoc name s.projects (running_of env n path bound l)
            (subst (λ m. str_eq m name ≡ true) (sym h) (str_eq_refl name)))
  ]

  task_step-Started :
      (env : UpEnv) (t : UpTask) (s : AppState)
      → Started name (t, s)
      → Started name (task_step env t s)
  unfolding task_step
  task_step-Started env (checking n) s h =
      take_both (λ (t : UpTask). Started name (t, s)) (is_running s n) _ _ (λ e. tt) (λ e. h)
  task_step-Started env (reading n) s h = reading-Started n s (read_project env n) h
  task_step-Started env (binding n path services) s h = binding-Started n path _ _ h
  task_step-Started env (routing n path bound) s h = routing-Started n path s bound _ h
  task_step-Started env (launching n path bound) s h =
      launching-Started env n path s bound env.open_log h
  task_step-Started env (failing bound u e) s h = tt
  task_step-Started env (committing n path bound l) s h = commit-Started env n path bound l s h
  task_step-Started env (finished r) s h = h

  run_task-Started :
      (k : ℕ) (env : UpEnv) (t : UpTask) (s : AppState)
      → Started name (t, s)
      → Started name (run_task k env t s)
  unfolding run_task
  run_task-Started zero env t s h = h
  run_task-Started (suc k) env t s h =
      run_task-Started k env (task_step env t s).0 (task_step env t s).1
        (task_step-Started env t s h)

pub up_project-Started :
    (env : UpEnv) (name : Str) (s : AppState) → Started name (up_project env name s)
unfolding up_project
up_project-Started env name s = run_task-Started name 6 env (checking name) s refl

run_task-Runs :
    (name : Str) (p : RunningProject) (k : ℕ) (env : UpEnv) (t : UpTask) (s : AppState)
    → Runs name p s
    → Runs name p (run_task k env t s).1
unfolding run_task
run_task-Runs name p zero env t s h = h
run_task-Runs name p (suc k) env t s h =
    run_task-Runs name p k env (task_step env t s).0 (task_step env t s).1
      (task_step-Runs name p env t s h)

pub up_project-Runs :
    (name other : Str) (p : RunningProject) (env : UpEnv) (s : AppState)
    → Runs name p s
    → Runs name p (up_project env other s).1
unfolding up_project
up_project-Runs name other p env s h = run_task-Runs name p 6 env (checking other) s h
