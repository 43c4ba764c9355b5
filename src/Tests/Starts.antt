-- ===== src/Tests/Starts.antt =====
-- Starts, stops and their interleavings at a host where every call succeeds, or one of them fails.
use neals.Prelude.{◌+◌, ◌≡◌, refl, true, false, some, none, List, [], ◌∷◌, ◌++◌, arith, map}
use neals.Prelude.Outcome.{Outcome, ok, err}
use neals.Prelude.Text.{Str, codes, str_eq}
use neals.Prelude.Lists.{find}
use neals.Common.Devenv.{ServiceDecl, ServiceKind}
use neals.Common.Registry
use neals.Common.Registry.{Project, Registry}
use neals.Daemon.Ports.{opened, loopback, allocate, next_ip, bind_preferred, contains}
use neals.Daemon.Routes.{BoundRoute, BoundTarget}
use neals.Daemon.Caddy.{CaddyManager, CaddyEnv, apply_routes, post_load, accepts}
use neals.Daemon.State.{AppState, RunningProject, initial, is_running, stop, without}
use neals.Daemon.State.Counts.{lease, holds, project_holds}
use neals.Daemon.Binding.{UpError, bind_services}
use neals.Daemon.Handler.{
  UpTask, UpEnv, Launch, checking, reading, binding, finished, task_step, up_project, running_of,
}
use neals.Daemon.Handler.Interleave.{
  System, request, advance, Reach, here, next, IsExclusive, Reach-IsExclusive, tasks_hold,
  log_failure_loses, launched, at_launch,
}
use neals.Daemon.Handler.Stays.{Runs, running_stays}
use neals.Daemon.Handler.Serving.{Serving, up_project_serves, Serves}
use neals.Daemon.Handler.{committing}
use neals.Daemon.Handler.Race.{stop_drops_starting, stopped, committed}

abbrev pub demo : Str
demo = codes "demo"

abbrev pub caddy_env : CaddyEnv
caddy_env = record {
  runtime_dir = ok (codes "/run/neals");
  state_dir = ok (codes "/state");
  write_config = λ i. ok tt;
  open_log = ok tt;
  spawn = ok 90;
  admin_connects = λ i. true;
  post = λ i. ok (codes "HTTP/1.1 200 OK");
  takes = λ i. false;
}

abbrev pub manager : CaddyManager
manager = record {
  child = some 9;
  admin_sock = codes "/run/neals/caddy-admin.sock";
  config_path = codes "/state/caddy.json";
  http_addr = codes "127.0.0.1:80";
  loose = false;
  written = none;
  served = none;
}

abbrev services : List ServiceDecl
services =
    record { service = codes "api"; kind = ServiceKind.tcp (some 8000) true }
    ∷ record { service = codes "db"; kind = ServiceKind.tcp (some 5432) false }
    ∷ []

abbrev up_env : UpEnv
up_env = record {
  registry = ok (record { projects = record { name = demo; path = codes "/demo" } ∷ [] });
  is_dir = λ path. true;
  require_tools = ok tt;
  read_services = λ path. ok services;
  prepare_dirs = ok tt;
  sockets = λ i. record { probe = λ ip. true; listen = λ ip port. opened (some port) };
  caddy_apply = caddy_env;
  open_log = ok tt;
  write_run_files = ok tt;
  spawn = ok (some 100);
  exits_early = false;
  netns_pid = ok 101;
  start_slirp = ok (some 102);
  start_proxies = ok (103 ∷ 104 ∷ []);
  caddy_cleanup = caddy_env;
  now = 5;
}

abbrev project_bound : AppState → List BoundRoute
project_bound s = elim s.projects [ [] ↦ [] | p ∷ ps ↦ p.bound ]

-- A start runs to its end: both services are bound, at the first two addresses.
up_project-demo :
    ((up_project up_env demo (initial manager)).0 ≡ finished (ok tt))
    × (map
          (λ (r : BoundRoute). r.target)
          (project_bound (up_project up_env demo (initial manager)).1)
        ≡ BoundTarget.tcp (loopback (0, 1)) 8000 8000
          ∷ BoundTarget.tcp (loopback (0, 2)) 5432 5432
          ∷ [])
unfolding up_project initial is_running Registry.get str_eq bind_services allocate next_ip
    bind_preferred apply_routes post_load accepts
up_project-demo = (refl, refl)

up_project_serves_example :
    (r : Outcome UpError (Unit {0})) × ((up_project up_env demo (initial manager)).0 ≡ finished r)
    × Serving (finished r, (up_project up_env demo (initial manager)).1)
unfolding initial
up_project_serves_example = up_project_serves up_env demo (initial manager) refl

abbrev booted : System
booted = record { app = initial manager; tasks = [] }

abbrev asked : System
asked = record booted { tasks = checking demo ∷ [] }

abbrev checked : System
checked = record {
  app = (task_step up_env (checking demo) asked.app).1;
  tasks = [] ++ (task_step up_env (checking demo) asked.app).0 ∷ [];
}

abbrev was_read : System
was_read = record {
  app = (task_step up_env (reading demo) checked.app).1;
  tasks = [] ++ (task_step up_env (reading demo) checked.app).0 ∷ [];
}

abbrev was_bound : System
was_bound = record {
  app = (task_step up_env (binding demo (codes "/demo") services) was_read.app).1;
  tasks = [] ++ (task_step up_env (binding demo (codes "/demo") services) was_read.app).0 ∷ [];
}

booted-IsExclusive : IsExclusive booted
unfolding initial tasks_hold project_holds
booted-IsExclusive ip = omega arith

-- A request, and three parts of its start.
booted-Reach : Reach booted was_bound
unfolding initial task_step is_running Registry.get str_eq
booted-Reach =
    next
      (next (next (next here (request demo)) (advance up_env [] [] (checking demo) refl))
        (advance up_env [] [] (reading demo) refl))
      (advance up_env [] [] (binding demo (codes "/demo") services) refl)

Reach-IsExclusive_example : IsExclusive was_bound
Reach-IsExclusive_example = Reach-IsExclusive booted was_bound booted-IsExclusive booted-Reach

abbrev no_log : UpEnv
no_log = record up_env { open_log = err (codes "failed to open") }

abbrev pub api : List BoundRoute
api =
    record {
      service = codes "api";
      target = BoundTarget.tcp (loopback (0, 1)) 8000 8000;
      proxy = true;
    }
    ∷ []

abbrev one_lease : System
one_lease = record {
  app = record (initial manager) { leases = record { used = (0, 1) ∷ [] } };
  tasks = [];
}

one_lease-IsExclusive : IsExclusive (at_launch no_log demo (codes "/demo") api one_lease)
unfolding initial tasks_hold project_holds holds contains
one_lease-IsExclusive ip = ground arith

log_failure_loses_example :
    (lease (launched no_log demo (codes "/demo") api one_lease).app.leases (loopback (0, 1)) ≡ 1)
    × (tasks_hold (launched no_log demo (codes "/demo") api one_lease).tasks (loopback (0, 1))
          + project_holds
              (launched no_log demo (codes "/demo") api one_lease).app.projects
              (loopback (0, 1))
        ≡ 0)
unfolding holds
log_failure_loses_example =
    log_failure_loses no_log demo (codes "/demo") api one_lease (codes "failed to open")
      (loopback (0, 1)) (launched no_log demo (codes "/demo") api one_lease) refl
      one_lease-IsExclusive (omega arith) here

abbrev pub blog : RunningProject
blog = record {
  name = codes "blog";
  pid = 50;
  netns_pid = 51;
  started_at = 0;
  bound = [];
  project_path = codes "/blog";
  slirp = none;
  proxy_helpers = [];
}

abbrev pub with_blog : AppState
with_blog = record (initial manager) { projects = blog ∷ [] }

abbrev launch_demo : Launch
launch_demo = record { pid = 100; netns_pid = 101; slirp = none; helpers = [] }

abbrev raced : UpTask × AppState
raced =
    committed up_env demo (codes "/demo") api launch_demo
      (stopped caddy_env with_blog (codes "blog"))

stop_drops_starting_example :
    (raced.0 ≡ finished (ok tt))
    × (raced.1.projects ≡ running_of up_env demo (codes "/demo") api launch_demo ∷ [])
    × Serves raced.1.caddy []
unfolding initial find str_eq is_running stop apply_routes post_load accepts without
stop_drops_starting_example =
    stop_drops_starting up_env caddy_env demo (codes "/demo") (codes "blog") api launch_demo
      with_blog blog refl refl refl refl

-- A start of `blog` whose last part finds that it runs by now.
abbrev late : System
late = record {
  app = with_blog;
  tasks = committing (codes "blog") (codes "/blog") api launch_demo ∷ [];
}

abbrev too_late : System
too_late = record {
  app = (committed up_env (codes "blog") (codes "/blog") api launch_demo with_blog).1;
  tasks = [] ++ (committed up_env (codes "blog") (codes "/blog") api launch_demo with_blog).0 ∷ [];
}

running_stays_example : Runs (codes "blog") blog too_late.app
unfolding find str_eq
running_stays_example =
    running_stays (codes "blog") blog late too_late
      (next here
        (advance up_env [] [] (committing (codes "blog") (codes "/blog") api launch_demo) refl))
      (tt, tt) refl
