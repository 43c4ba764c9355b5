-- ===== src/Daemon/Handler/Serving.antt =====
-- Which routes the proxy serves after a start of crates/daemon/src/handler.rs, with a manager that
-- is not loose.
use neals.Prelude.{
  ◌≤◌, ◌-◌, subst, ℕ, zero, suc, ◌≤◌, ◌-◌, ◌≡◌, refl, subst, ◌∙◌, false, some, List, arith,
}
use neals.Prelude.Bools.{take_both}
use neals.Prelude.Outcome.{Outcome, ok, err}
use neals.Prelude.Text.{Str}
use neals.Common.Devenv.{ServiceDecl}
use neals.Daemon.Ports.{LoopbackLeases}
use neals.Daemon.Routes.{BoundRoute, Snapshot}
use neals.Daemon.Caddy.{
  runtime_or_tmp, CaddyManager, CaddyEnv, CaddyError, build_caddy_config, log_path,
}
use neals.Daemon.Caddy.Apply.{Applied, apply_routes-Applied}
use neals.Daemon.State.{AppState, with_proxied, proxy_snapshot, is_running}
use neals.Daemon.State.Snapshots.{proxy_snapshot_of-append}
use neals.Daemon.Binding.{UpError}
use neals.Daemon.Handler.Committed.{committed_fresh}
use neals.Daemon.Handler.{
  add_running, UpEnv, UpTask, Launch, checking, reading, binding, routing, launching, failing,
  committing, finished, task_step, run_task, up_project, after_binding, after_routing,
  after_reading, read_project, launch, commit, start_snapshot, running_of,
}

-- The proxy has accepted the configuration of these routes.
pub record Serves (m : CaddyManager) (projects : Snapshot) : Type 0 where
  pub runtime : Str
  pub dir : Str
  pub config :
      m.served ≡ some (build_caddy_config runtime m.admin_sock m.http_addr (log_path dir) projects)

pub Serves-Applied :
    (env : CaddyEnv) (m n : CaddyManager) (projects : Snapshot)
    → Applied env m projects (ok tt, n)
    → Serves n projects
Serves-Applied env m n projects (dir, d, served, written, same) = record {
  runtime = runtime_or_tmp env.runtime_dir;
  dir = dir;
  config = rw (same.admin_sock, same.http_addr) served;
}

-- What is served when a start stands at a task: from the proxy's answer on, the routes of the
-- running projects with those of the start; after success, the routes of the running projects.
abbrev pub Serving : UpTask × AppState → Type 0
Serving (launching name path bound, s) =
    (s.caddy.loose ≡ false) × Serves s.caddy (start_snapshot s name bound)
Serving (committing name path bound l, s) =
    (s.caddy.loose ≡ false) × Serves s.caddy (start_snapshot s name bound)
Serving (finished (ok u), s) = Serves s.caddy (proxy_snapshot s)
Serving (finished (err e), s) = Unit
Serving (t, s) = s.caddy.loose ≡ false

binding-Serving :
    (name path : Str) (s : AppState) (r : Outcome UpError (List BoundRoute)) (l : LoopbackLeases)
    → s.caddy.loose ≡ false
    → Serving (after_binding name path r, record s { leases = l })
binding-Serving name path s (ok bound) l h = h
binding-Serving name path s (err e) l h = tt

reading-Serving :
    (name : Str) (s : AppState) (r : Outcome UpError (Str × List ServiceDecl))
    → s.caddy.loose ≡ false
    → Serving (after_reading name r, s)
reading-Serving name s (ok (path, services)) h = h
reading-Serving name s (err e) h = tt

routing-Serving :
    (env : CaddyEnv) (name path : Str) (s : AppState) (bound : List BoundRoute)
    (r : Outcome CaddyError (Unit {0}) × CaddyManager)
    → s.caddy.loose ≡ false
    → Applied env s.caddy (start_snapshot s name bound) r
    → Serving (after_routing s name path bound r)
unfolding proxy_snapshot
routing-Serving env name path s bound (ok u, m) strict a =
    (a.4.loose ∙ strict, Serves-Applied env s.caddy m _ a)
routing-Serving env name path s bound (err e, m) strict a = tt

launching-Serving :
    (env : UpEnv) (name path : Str) (s : AppState) (bound : List BoundRoute)
    (r : Outcome Str (Unit {0}))
    → Serving (launching name path bound, s)
    → Serving (
      (launch env name path bound s.effects r).0,
      record s { effects = (launch env name path bound s.effects r).1 },
    )
unfolding launch proxy_snapshot
launching-Serving env name path s bound (err e) h = tt
launching-Serving env name path s bound (ok u) h = ground (arith, h.0, h.1)

commit-Serving :
    (env : UpEnv) (name path : Str) (bound : List BoundRoute) (l : Launch) (s : AppState)
    → Serving (committing name path bound l, s)
    → Serving (commit env name path bound l s)
unfolding commit add_running proxy_snapshot with_proxied
commit-Serving env name path bound l s h =
    take_both Serving (is_running s name) _ _ (λ e. tt)
      (λ e.
        rw
          (
            committed_fresh env name path bound l s e,
            proxy_snapshot_of-append s.projects (running_of env name path bound l),
          )
          (h.1))

task_step-Serving :
    (env : UpEnv) (t : UpTask) (s : AppState) → Serving (t, s) → Serving (task_step env t s)
unfolding task_step
task_step-Serving env (checking name) s h =
    take_both (λ t. Serving (t, s)) (is_running s name) _ _ (λ e. tt) (λ e. h)
task_step-Serving env (reading name) s h = reading-Serving name s (read_project env name) h
task_step-Serving env (binding name path services) s h = binding-Serving name path s _ _ h
task_step-Serving env (routing name path bound) s h =
    routing-Serving env.caddy_apply name path s bound _ h
      (apply_routes-Applied env.caddy_apply s.caddy (start_snapshot s name bound) h)
task_step-Serving env (launching name path bound) s h =
    launching-Serving env name path s bound env.open_log h
task_step-Serving env (failing bound u e) s h = tt
task_step-Serving env (committing name path bound l) s h = commit-Serving env name path bound l s h
task_step-Serving env (finished r) s h = h

run_task-Serving :
    (n : ℕ) (env : UpEnv) (t : UpTask) (s : AppState)
    → Serving (t, s)
    → Serving (run_task n env t s)
unfolding run_task
run_task-Serving zero env t s h = h
run_task-Serving (suc n) env t s h =
    run_task-Serving n env (task_step env t s).0 (task_step env t s).1 (task_step-Serving env t s h)

-- How many parts a start still has.
abbrev pub parts_left : UpTask → ℕ
parts_left (checking name) = 6
parts_left (reading name) = 5
parts_left (binding name path services) = 4
parts_left (routing name path bound) = 3
parts_left (launching name path bound) = 2
parts_left (failing bound u e) = 1
parts_left (committing name path bound l) = 1
parts_left (finished r) = 0

module _ (env : UpEnv) (s : AppState) where
  binding-parts :
      (name path : Str) (r : Outcome UpError (List BoundRoute))
      → parts_left (after_binding name path r) ≤ 3
  binding-parts name path (ok bound) = omega arith
  binding-parts name path (err e) = omega arith

  reading-parts :
      (name : Str) (r : Outcome UpError (Str × List ServiceDecl))
      → parts_left (after_reading name r) ≤ 4
  reading-parts name (ok (path, services)) = omega arith
  reading-parts name (err e) = omega arith

  routing-parts :
      (name path : Str) (bound : List BoundRoute) (r : Outcome CaddyError (Unit {0}) × CaddyManager)
      → parts_left (after_routing s name path bound r).0 ≤ 2
  routing-parts name path bound (ok u, m) = omega arith
  routing-parts name path bound (err e, m) = omega arith

  launch-parts :
      (name path : Str) (bound : List BoundRoute) (r : Outcome Str (Unit {0}))
      → parts_left (launch env name path bound s.effects r).0 ≤ 1
  unfolding launch
  launch-parts name path bound (ok u) = ground arith
  launch-parts name path bound (err e) = omega arith

  task_step-parts : (t : UpTask) → parts_left (task_step env t s).0 ≤ parts_left t - 1
  unfolding task_step commit
  task_step-parts (checking name) = ground arith
  task_step-parts (reading name) = reading-parts name (read_project env name)
  task_step-parts (binding name path services) = binding-parts name path _
  task_step-parts (routing name path bound) = routing-parts name path bound _
  task_step-parts (launching name path bound) = launch-parts name path bound env.open_log
  task_step-parts (failing bound u e) = omega arith
  task_step-parts (committing name path bound l) = ground arith
  task_step-parts (finished r) = omega arith

run_task-parts :
    (n : ℕ) (env : UpEnv) (t : UpTask) (s : AppState)
    → parts_left t ≤ n
    → parts_left (run_task n env t s).0 ≡ 0
unfolding run_task
run_task-parts zero env t s h = omega arith
run_task-parts (suc n) env t s h =
    run_task-parts n env (task_step env t s).0 (task_step env t s).1
      (omega (arith, task_step-parts env s t))

finished_of_parts :
    (t : UpTask) → parts_left t ≡ 0 → (r : Outcome UpError (Unit {0})) × (t ≡ finished r)
finished_of_parts (checking name) h = absurd (omega arith)
finished_of_parts (reading name) h = absurd (omega arith)
finished_of_parts (binding name path services) h = absurd (omega arith)
finished_of_parts (routing name path bound) h = absurd (omega arith)
finished_of_parts (launching name path bound) h = absurd (omega arith)
finished_of_parts (failing bound u e) h = absurd (omega arith)
finished_of_parts (committing name path bound l) h = absurd (omega arith)
finished_of_parts (finished r) h = (r, refl)

pub up_project_finishes :
    (env : UpEnv) (name : Str) (s : AppState)
    → (r : Outcome UpError (Unit {0})) × ((up_project env name s).0 ≡ finished r)
unfolding up_project
up_project_finishes env name s =
    finished_of_parts _ (run_task-parts 6 env (checking name) s (omega arith))

-- A start that nothing interrupts comes to an answer, and with a strict proxy manager an answer of
-- success means that the proxy serves the proxied routes of all running projects, the new one too.
pub up_project_serves :
    (env : UpEnv) (name : Str) (s : AppState)
    → s.caddy.loose ≡ false
    → (r : Outcome UpError (Unit {0})) × ((up_project env name s).0 ≡ finished r)
      × Serving (finished r, (up_project env name s).1)
unfolding up_project
up_project_serves env name s strict =
    let (r, e) = up_project_finishes env name s in
    (
      r,
      e,
      subst (λ t. Serving (t, (run_task 6 env (checking name) s).1)) e
          (run_task-Serving 6 env (checking name) s strict),
    )
