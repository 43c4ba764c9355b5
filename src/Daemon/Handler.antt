-- ===== src/Daemon/Handler.antt =====
-- crates/daemon/src/handler.rs: the requests, and the start of a project. A start gives up the
-- lock of the state between its parts, so it is a task that moves by one part at a time, and other
-- tasks may move in between. What the host answers to one start is a parameter, `UpEnv`.
pub mod Committed
pub mod Interleave
pub mod Serving
pub mod Stays
pub mod Started
pub mod Race
use neals.Prelude.{
  ℕ, zero, suc, ◌+◌, ◌≤◌, Bool, true, false, not, ◌&&◌, Option, none, some, List, [], ◌∷◌, ◌++◌,
}
use neals.Prelude.Bools.{if◌then◌else◌}
use neals.Prelude.Outcome.{Outcome, ok, err, ◌>>=◌, ◌>>◌}
use neals.Prelude.Text.{Str, str_eq, is_empty}
use neals.Common.Devenv.{ServiceDecl, ServiceKind}
use neals.Common.Registry
use neals.Common.Registry.{Registry}
use neals.Daemon.Ports.{LoopbackLeases, HostEndpoint, PortError, Sockets, allocate}
use neals.Daemon.Routes.{BoundRoute, BoundTarget, Snapshot}
use neals.Daemon.Caddy.{CaddyManager, CaddyEnv, CaddyError, apply_routes}
use neals.Daemon.Binding.{
  UpError, already_running, not_registered, path_missing, host, endpoint_failed, caddy, no_pid,
  exited_early, bind_services,
}
use neals.Daemon.State.{
  insert_project, AppState, RunningProject, Effect, StateError, stopped_group, stopped_slirp,
  synced_hosts, is_running, bound_snapshot, proxy_snapshot, proxied, release_routes, status, stop,
}

-- The answers to one start of a project. `host` errors carry the message of the call that failed.
pub record UpEnv : Type 0 where
  pub registry : Outcome Str Registry
  pub is_dir : Str → Bool
  pub require_tools : Outcome Str (Unit {0})
  pub read_services : Str → Outcome Str (List ServiceDecl)
  pub prepare_dirs : Outcome Str (Unit {0})
  pub sockets : ℕ → Sockets
  pub caddy_apply : CaddyEnv
  pub open_log : Outcome Str (Unit {0})
  pub write_run_files : Outcome Str (Unit {0})
  pub spawn : Outcome Str (Option ℕ)
  pub exits_early : Bool
  pub netns_pid : Outcome Str ℕ
  pub start_slirp : Outcome Str (Option ℕ)
  pub start_proxies : Outcome Str (List ℕ)
  pub caddy_cleanup : CaddyEnv
  pub now : ℕ

-- What a start has brought up before it takes the lock for the last time.
pub record Launch : Type 0 where
  pub pid : ℕ
  pub netns_pid : ℕ
  pub slirp : Option ℕ
  pub helpers : List ℕ

-- What a failed start undoes when it has the lock again: its leases, and from the spawn on its
-- routes in the proxy too.
pub data Undo : Type 0 where
  leases_only leases_and_routes : Undo

-- Where a start stands between two of its parts.
pub data UpTask : Type 0 where
  checking : (name : Str) → UpTask
  reading : (name : Str) → UpTask
  binding : (name path : Str) → List ServiceDecl → UpTask
  routing : (name path : Str) → List BoundRoute → UpTask
  launching : (name path : Str) → List BoundRoute → UpTask
  failing : List BoundRoute → Undo → UpError → UpTask
  committing : (name path : Str) → List BoundRoute → Launch → UpTask
  finished : Outcome UpError (Unit {0}) → UpTask

abbrev lift {ℓ} : {A : Type ℓ} → Outcome Str A → Outcome UpError A
lift (ok a) = ok a
lift (err e) = err (host e)

abbrev registered : Str → Option Registry.Project → Outcome UpError Registry.Project
registered name none = err (not_registered name)
registered name (some p) = ok p

abbrev has_dir : UpEnv → Str → Registry.Project → Outcome UpError (Unit {0})
has_dir env name p = if env.is_dir p.path then ok tt else err (path_missing name)

-- Lines 45 to 66, without the lock: the project, its declarations and its directories.
read_project : UpEnv → Str → Outcome UpError (Str × List ServiceDecl)
read_project env name = do
  registry ← lift env.registry
  p ← registered name (Registry.get registry name)
  has_dir env name p
  lift env.require_tools
  services ← lift (env.read_services p.path)
  lift env.prepare_dirs
  ok (p.path, services)

abbrev after_reading : Str → Outcome UpError (Str × List ServiceDecl) → UpTask
after_reading name (err e) = finished (err e)
after_reading name (ok (path, services)) = binding name path services

abbrev after_binding : Str → Str → Outcome UpError (List BoundRoute) → UpTask
after_binding name path (err e) = finished (err e)
after_binding name path (ok bound) = routing name path bound

-- The snapshot of the running projects with the proxied routes of this start at its end.
abbrev pub start_snapshot : AppState → Str → List BoundRoute → Snapshot
start_snapshot s name bound =
    proxy_snapshot s ++ (if is_empty (proxied bound) then [] else (name, proxied bound) ∷ [])

abbrev after_routing :
    AppState
    → Str
    → Str
    → List BoundRoute
    → Outcome CaddyError (Unit {0}) × CaddyManager
    → UpTask × AppState
after_routing s name path bound (ok u, m) = (launching name path bound, record s { caddy = m })
after_routing s name path bound (err e, m) =
    (finished (err (caddy e)), record s { caddy = m; leases = release_routes s.leases bound })

abbrev after_proxies :
    Str
    → Str
    → List BoundRoute
    → ℕ
    → ℕ
    → Option ℕ
    → List Effect
    → Outcome Str (List ℕ)
    → UpTask × List Effect
after_proxies name path bound pid netns slirp done (err e) =
    (failing bound leases_and_routes (host e), stopped_group pid ∷ stopped_slirp slirp ∷ done)
after_proxies name path bound pid netns slirp done (ok helpers) = (
  committing name path bound
      (record { pid = pid; netns_pid = netns; slirp = slirp; helpers = helpers }),
  done,
)

abbrev after_slirp :
    UpEnv
    → Str
    → Str
    → List BoundRoute
    → ℕ
    → ℕ
    → List Effect
    → Outcome Str (Option ℕ)
    → UpTask × List Effect
after_slirp env name path bound pid netns done (err e) =
    (failing bound leases_and_routes (host e), stopped_group pid ∷ done)
after_slirp env name path bound pid netns done (ok slirp) =
    after_proxies name path bound pid netns slirp done env.start_proxies

abbrev after_netns :
    UpEnv → Str → Str → List BoundRoute → ℕ → List Effect → Outcome Str ℕ → UpTask × List Effect
after_netns env name path bound pid done (err e) =
    (failing bound leases_and_routes (host e), stopped_group pid ∷ done)
after_netns env name path bound pid done (ok netns) =
    after_slirp env name path bound pid netns done env.start_slirp

abbrev after_spawn :
    UpEnv
    → Str
    → Str
    → List BoundRoute
    → List Effect
    → Outcome Str (Option ℕ)
    → UpTask × List Effect
after_spawn env name path bound done (err e) = (failing bound leases_and_routes (host e), done)
after_spawn env name path bound done (ok none) = (failing bound leases_and_routes no_pid, done)
after_spawn env name path bound done (ok (some pid)) =
    if env.exits_early
    then (failing bound leases_and_routes exited_early, done)
    else after_netns env name path bound pid done env.netns_pid

abbrev after_files :
    UpEnv
    → Str
    → Str
    → List BoundRoute
    → List Effect
    → Outcome Str (Unit {0})
    → UpTask × List Effect
after_files env name path bound done (err e) = (failing bound leases_only (host e), done)
after_files env name path bound done (ok u) = after_spawn env name path bound done env.spawn

-- Lines 89 to 225, without the lock. An error of the log returns at once: nothing is undone.
launch :
    UpEnv
    → Str
    → Str
    → List BoundRoute
    → List Effect
    → Outcome Str (Unit {0})
    → UpTask × List Effect
launch env name path bound done (err e) = (finished (err (host e)), done)
launch env name path bound done (ok u) = after_files env name path bound done env.write_run_files

undo : UpEnv → Undo → List BoundRoute → AppState → AppState
undo env leases_only bound s = record s { leases = release_routes s.leases bound }
undo env leases_and_routes bound s = record s {
  leases = release_routes s.leases bound;
  caddy = (apply_routes env.caddy_cleanup s.caddy (proxy_snapshot s)).1;
}

pub running_of : UpEnv → Str → Str → List BoundRoute → Launch → RunningProject
running_of env name path bound l = record {
  name = name;
  pid = l.pid;
  netns_pid = l.netns_pid;
  started_at = env.now;
  bound = bound;
  project_path = path;
  slirp = l.slirp;
  proxy_helpers = l.helpers;
}

add_running : RunningProject → AppState → AppState
unfolding insert_project
add_running p s =
    let s' = record s { projects = insert_project p s.projects } in
    record s' { effects = synced_hosts (bound_snapshot s') ∷ s.effects }

-- Lines 227 to 251, under the lock: the name is looked up a second time.
commit : UpEnv → Str → Str → List BoundRoute → Launch → AppState → UpTask × AppState
unfolding undo running_of add_running
commit env name path bound l s =
    if is_running s name
    then (
      finished (err (already_running name)),
      undo env leases_and_routes bound
          (record s { effects = stopped_group l.pid ∷ stopped_slirp l.slirp ∷ s.effects }),
    )
    else (finished (ok tt), add_running (running_of env name path bound l) s)

-- The next part of a start.
unfoldable pub task_step : UpEnv → UpTask → AppState → UpTask × AppState
unfolding read_project launch undo commit
task_step env (checking name) s =
    (if is_running s name then finished (err (already_running name)) else reading name, s)
task_step env (reading name) s = (after_reading name (read_project env name), s)
task_step env (binding name path services) s =
    let (r, l) = bind_services env.sockets s.leases services in
    (after_binding name path r, record s { leases = l })
task_step env (routing name path bound) s =
    after_routing s name path bound
      (apply_routes env.caddy_apply s.caddy (start_snapshot s name bound))
task_step env (launching name path bound) s =
    let (t, done) = launch env name path bound s.effects env.open_log in
    (t, record s { effects = done })
task_step env (failing bound u e) s = (finished (err e), undo env u bound s)
task_step env (committing name path bound l) s = commit env name path bound l s
task_step env (finished r) s = (finished r, s)

unfoldable pub run_task : ℕ → UpEnv → UpTask → AppState → UpTask × AppState
run_task zero env t s = (t, s)
run_task (suc n) env t s = let (t', s') = task_step env t s in run_task n env t' s'

-- `up_project` with no other task in between: six parts at most.
unfoldable pub up_project : UpEnv → Str → AppState → UpTask × AppState
unfolding run_task task_step
up_project env name s = run_task 6 env (checking name) s
