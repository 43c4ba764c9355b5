-- ===== src/Daemon/State.antt =====
-- crates/daemon/src/state.rs: the running projects, what stops them, and their snapshots.
-- The hash map of projects is a list of them: its order stands for the map's order of iteration.
pub mod Counts
pub mod Inserted
pub mod Snapshots
use neals.Prelude.{
  ℕ, suc, ◌+◌, ◌-◌, Bool, true, false, Option, none, some, List, [], ◌∷◌, ◌++◌, map,
}
use neals.Prelude.Bools.{if◌then◌else◌, is_some}
use neals.Prelude.Lists.{select, find, any}
use neals.Prelude.Outcome.{Outcome, ok, err}
use neals.Prelude.Text.{Str, str_eq, is_empty}
use neals.Daemon.Ports.{Ipv4Addr, LoopbackLeases, release}
use neals.Common.Ipc.{ProjectRuntime, ServiceRuntime}
use neals.Daemon.Routes.{BoundRoute, Snapshot, host_ip, to_runtime}
use neals.Daemon.Caddy.{
  CaddyManager, CaddyEnv, CaddyError, apply_routes, disabled, shutdown, http_port_from_addr,
}

-- The children of a project are known by their process ids.
pub record RunningProject : Type 0 where
  pub name : Str
  pub pid : ℕ
  pub netns_pid : ℕ
  pub started_at : ℕ
  pub bound : List BoundRoute
  pub project_path : Str
  pub slirp : Option ℕ
  pub proxy_helpers : List ℕ

-- A call that reaches outside the daemon, besides the proxy's.
pub data Effect : Type 0 where
  stopped_group : (pid : ℕ) → Effect
  swept : (project : Str) → Effect
  stopped_slirp : Option ℕ → Effect
  removed_neals_dir : (path : Str) → Effect
  synced_hosts : Snapshot → Effect

-- `effects` lists what was done outside, the newest first.
pub record AppState : Type 0 where
  pub projects : List RunningProject
  pub caddy : CaddyManager
  pub leases : LoopbackLeases
  pub effects : List Effect

unfoldable pub initial : CaddyManager → AppState
initial caddy = record { projects = []; caddy = caddy; leases = record { used = [] }; effects = [] }

abbrev pub is_named : Str → RunningProject → Bool
is_named name p = str_eq p.name name

unfoldable pub is_running : AppState → Str → Bool
unfolding any
is_running s name = any (is_named name) s.projects

abbrev pub bound_of : RunningProject → Str × List BoundRoute
bound_of p = (p.name, p.bound)

unfoldable pub bound_snapshot : AppState → Snapshot
bound_snapshot s = map bound_of s.projects

abbrev is_proxied : BoundRoute → Bool
is_proxied r = r.proxy

unfoldable pub proxied : List BoundRoute → List BoundRoute
unfolding select
proxied bound = select is_proxied bound

-- `snapshot.push((name, proxied))`, unless there is nothing to proxy.
unfoldable pub with_proxied : Str → List BoundRoute → Snapshot → Snapshot
with_proxied name bound rest =
    if is_empty (proxied bound) then rest else (name, proxied bound) ∷ rest

unfoldable pub proxy_snapshot_of : List RunningProject → Snapshot
proxy_snapshot_of [] = []
proxy_snapshot_of (p ∷ ps) = with_proxied p.name p.bound (proxy_snapshot_of ps)

unfoldable pub proxy_snapshot : AppState → Snapshot
unfolding proxy_snapshot_of
proxy_snapshot s = proxy_snapshot_of s.projects

abbrev proxy_port : AppState → ℕ
proxy_port s = if is_empty s.caddy.http_addr then 2015 else http_port_from_addr s.caddy.http_addr

abbrev runtime_of : ℕ → ℕ → RunningProject → ProjectRuntime
runtime_of now port p = record {
  name = p.name;
  pid = p.pid;
  netns_pid = p.netns_pid;
  uptime_secs = now - p.started_at;
  services = map (λ r. to_runtime r p.name port) p.bound;
}

unfoldable pub status : ℕ → AppState → List ProjectRuntime
status now s = map (runtime_of now (proxy_port s)) s.projects

abbrev pub release_ip : LoopbackLeases → Option Ipv4Addr → LoopbackLeases
release_ip l none = l
release_ip l (some ip) = release l ip

-- `for route in bound { if let Some(ip) = route.host_ip() { leases.release(ip) } }`
unfoldable pub release_routes : LoopbackLeases → List BoundRoute → LoopbackLeases
release_routes l [] = l
release_routes l (r ∷ rs) = release_routes (release_ip l (host_ip r)) rs

-- The sweep is left out where there is no runtime directory.
abbrev swept_in : Outcome CaddyError Str → Str → List Effect → List Effect
swept_in (ok dir) name effects = swept name ∷ effects
swept_in (err e) name effects = effects

-- The routes of what is left are applied; a failure of that is only logged.
unfoldable pub finish_cleanup : CaddyEnv → AppState → RunningProject → AppState
unfolding release_routes bound_snapshot proxy_snapshot
finish_cleanup env s running = record s {
  caddy = (apply_routes env s.caddy (proxy_snapshot s)).1;
  leases = release_routes s.leases running.bound;
  effects =
      synced_hosts (bound_snapshot s)
      ∷ removed_neals_dir running.project_path
      ∷ stopped_slirp running.slirp
      ∷ swept_in env.runtime_dir running.name s.effects;
}

-- `HashMap::insert`: a project of the same name is replaced.
unfoldable pub insert_project : RunningProject → List RunningProject → List RunningProject
insert_project p [] = p ∷ []
insert_project p (q ∷ qs) =
    let rest = insert_project p qs in if str_eq q.name p.name then p ∷ qs else q ∷ rest

-- `HashMap::remove`: the project of the name, and the others.
unfoldable pub without : List RunningProject → Str → List RunningProject
without [] name = []
without (p ∷ ps) name = if str_eq p.name name then ps else p ∷ without ps name

pub data StateError : Type 0 where
  not_running : Str → StateError

unfoldable pub stop : CaddyEnv → AppState → Str → Outcome StateError (Unit {0}) × AppState
unfolding find without finish_cleanup
stop env s name = elim (find (is_named name) s.projects) [
  | none ↦ (err (not_running name), s)
  | some running ↦ (
    ok tt,
    finish_cleanup env
        (record s {
          projects = without s.projects name;
          effects = stopped_group running.pid ∷ s.effects;
        })
        running,
  )
]

-- One round of the second loop of `reap_exited`.
unfoldable pub reap_one : CaddyEnv → AppState → Str → AppState
unfolding find without finish_cleanup
reap_one env s name = elim (find (is_named name) s.projects) [
  | none ↦ s
  | some running ↦ finish_cleanup env (record s { projects = without s.projects name }) running
]

unfoldable pub reap_all : (ℕ → CaddyEnv) → ℕ → AppState → List Str → AppState
unfolding reap_one
reap_all env i s [] = s
reap_all env i s (name ∷ names) = reap_all env (suc i) (reap_one (env i) s name) names

abbrev name_of : RunningProject → Str
name_of p = p.name

-- `exited`: whether `try_wait` of the project's child gives a status or an error.
unfoldable pub reap_exited : (RunningProject → Bool) → (ℕ → CaddyEnv) → AppState → AppState
unfolding reap_all select
reap_exited exited env s = reap_all env 0 s (map name_of (select exited s.projects))

stop_each : (ℕ → CaddyEnv) → ℕ → AppState → List Str → AppState
stop_each env i s [] = s
stop_each env i s (name ∷ names) = stop_each env (suc i) (stop (env i) s name).1 names

unfoldable pub stop_all : (ℕ → CaddyEnv) → AppState → AppState
unfolding stop_each stop
stop_all env s =
    let stopped = stop_each env 0 s (map name_of s.projects) in
    record stopped { caddy = shutdown stopped.caddy }
