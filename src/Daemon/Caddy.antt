-- ===== src/Daemon/Caddy.antt =====
-- crates/daemon/src/caddy.rs: the configuration that the proxy is given, and the manager that
-- gives it. The proxy, the files and the processes are a parameter, `CaddyEnv`.
pub mod Build
pub mod Apply
use neals.Prelude.{
  ℕ, zero, suc, ◌+◌, Bool, true, false, not, ◌&&◌, ◌||◌, Option, none, some, List, [], ◌∷◌, ◌++◌,
}
use neals.Prelude.Bools.{◌==◌, ltb, leb, if◌then◌else◌}
use neals.Prelude.Decimal.{parse_unsigned}
use neals.Prelude.Lists.{find, any}
use neals.Prelude.Outcome.{Outcome, ok, err, ◌>>=◌, ◌>>◌}
use neals.Prelude.Text.{Str, codes, str_eq, is_empty, contains, trim, contains_char, lines}
use neals.Common.Xdg.{join}
use neals.Daemon.Ports.{u16_max}
use neals.Daemon.Routes.{BoundTarget, BoundRoute, Snapshot, unix, tcp, public_host, socket_addr}

-- One entry of `routes`: the host that it matches, and the upstream that it dials.
pub record CaddyRoute : Type 0 where
  pub host : Str
  pub dial : Str

-- The JSON document of `build_caddy_config`, by the values that vary in it.
pub record Config : Type 0 where
  pub admin_listen : Str
  pub log_filename : Str
  pub http_port : ℕ
  pub https_port : ℕ
  pub listen : Str
  pub routes : List CaddyRoute

after_colon : Str → Option Str
after_colon [] = none
after_colon (c ∷ s) = elim (after_colon s) [
  | some tail ↦ some tail
  | none ↦ if c == b':' then some s else none
]

or_port : ℕ → Option ℕ → ℕ
or_port port none = port
or_port port (some p) = p

parse_port : Option Str → Option ℕ
parse_port none = none
parse_port (some s) = parse_unsigned u16_max s

-- The port behind the last colon, if it parses.
unfoldable pub http_port_from_addr : Str → ℕ
unfolding after_colon or_port parse_port
http_port_from_addr addr = or_port 2015 (parse_port (after_colon addr))

unfoldable pub https_port_from_addr : Str → ℕ
https_port_from_addr addr =
    let p = http_port_from_addr addr in
    if ltb p 1024 then 2016 else if p == u16_max then u16_max else p + 1

dial : Str → Str → BoundTarget → Str
dial runtime project (unix file) = codes "unix/" ++ join (join runtime project) file
dial runtime project (tcp ip host_port guest_port) = socket_addr ip host_port

-- The inner loop: `continue` on a route that is not proxied.
unfoldable pub project_routes : Str → Str → List BoundRoute → List CaddyRoute
unfolding dial
project_routes runtime project [] = []
project_routes runtime project (r ∷ rs) =
    let rest = project_routes runtime project rs in
    if r.proxy
    then record { host = public_host r project; dial = dial runtime project r.target } ∷ rest
    else rest

unfoldable pub all_routes : Str → Snapshot → List CaddyRoute
unfolding project_routes
all_routes runtime [] = []
all_routes runtime ((project, rs) ∷ more) =
    project_routes runtime project rs ++ all_routes runtime more

unfoldable pub build_caddy_config : Str → Str → Str → Str → Snapshot → Config
unfolding all_routes
build_caddy_config runtime admin_sock http_addr log_path projects = record {
  admin_listen = codes "unix/" ++ admin_sock;
  log_filename = log_path;
  http_port = http_port_from_addr http_addr;
  https_port = https_port_from_addr http_addr;
  listen = http_addr;
  routes = all_routes runtime projects;
}

-- The manager, with what it has brought about outside: the file at `config_path`, and the
-- configuration that the running proxy accepted last.
pub record CaddyManager : Type 0 where
  pub child : Option ℕ
  pub admin_sock : Str
  pub config_path : Str
  pub http_addr : Str
  pub loose : Bool
  pub written : Option Config
  pub served : Option Config

unfoldable pub disabled : CaddyManager
disabled = record {
  child = none;
  admin_sock = [];
  config_path = [];
  http_addr = [];
  loose = true;
  written = none;
  served = none;
}

pub data CaddyError : Type 0 where
  io : Str → CaddyError
  load_failed : Str → CaddyError
  admin_not_ready : CaddyError
  no_free_http_port : CaddyError

-- What the outside answers during one call of `apply_routes` or `respawn`, in the order of the
-- calls. A post gives the text that the admin socket sent back; `takes` says of a post that fails
-- whether the proxy has taken its configuration all the same.
pub record CaddyEnv : Type 0 where
  pub runtime_dir : Outcome CaddyError Str
  pub state_dir : Outcome CaddyError Str
  pub write_config : ℕ → Outcome CaddyError (Unit {0})
  pub open_log : Outcome CaddyError (Unit {0})
  pub spawn : Outcome CaddyError ℕ
  pub admin_connects : ℕ → Bool
  pub post : ℕ → Outcome CaddyError Str
  pub takes : ℕ → Bool

abbrev first_line : List Str → Str
first_line [] = []
first_line (l ∷ ls) = l

-- Success is a status line that holds "200".
unfoldable pub accepts : Str → Bool
unfolding contains lines
accepts response = contains (first_line (lines response)) (codes "200")

unfoldable pub post_load : Outcome CaddyError Str → Outcome CaddyError (Unit {0})
post_load (err e) = err e
post_load (ok response) =
    if accepts response then ok tt else err (load_failed (first_line (lines response)))

-- `admin_reachable`, at the given try.
abbrev pub admin_reachable : CaddyEnv → CaddyManager → ℕ → Bool
admin_reachable env m try = not (is_empty m.admin_sock) && env.admin_connects try

-- The tries that are left of the 50 of `wait_admin_ready`, and the number of the next one.
pub wait_admin_ready : ℕ → CaddyEnv → CaddyManager → ℕ → Outcome CaddyError (Unit {0})
wait_admin_ready zero env m try = err admin_not_ready
wait_admin_ready (suc n) env m try = elim (admin_reachable env m try) [
  | true ↦ ok tt
  | false ↦ wait_admin_ready n env m (try + 1)
]

-- The fields after `reap_child`: the child is stopped, and so the proxy serves nothing.
abbrev pub reap_child : CaddyManager → CaddyManager
reap_child m = elim m.child [ none ↦ m | some pid ↦ record m { child = none; served = none } ]

abbrev pub log_path : Str → Str
log_path dir = join dir (codes "caddy.log")

-- `runtime_dir().unwrap_or_else(…)`
abbrev pub runtime_or_tmp : Outcome CaddyError Str → Str
runtime_or_tmp (ok dir) = dir
runtime_or_tmp (err e) = codes "/tmp/neals"

abbrev pub config_of : CaddyEnv → CaddyManager → Str → Snapshot → Config
config_of env m dir projects =
    build_caddy_config (runtime_or_tmp env.runtime_dir) m.admin_sock m.http_addr (log_path dir)
      projects

abbrev started : CaddyEnv → CaddyManager → Outcome CaddyError (Unit {0}) × CaddyManager
started env m = if m.loose then (ok tt, m) else (wait_admin_ready 50 env m 1, m)

abbrev spawned :
    CaddyEnv → CaddyManager → Outcome CaddyError ℕ → Outcome CaddyError (Unit {0}) × CaddyManager
spawned env m (err e) = (err e, m)
spawned env m (ok pid) = started env (record m { child = some pid })

abbrev opened :
    CaddyEnv
    → CaddyManager
    → Outcome CaddyError (Unit {0})
    → Outcome CaddyError (Unit {0}) × CaddyManager
opened env m (err e) = (err e, m)
opened env m (ok u) = spawned env m env.spawn

abbrev initial_written :
    CaddyEnv
    → CaddyManager
    → Config
    → Outcome CaddyError (Unit {0})
    → Outcome CaddyError (Unit {0}) × CaddyManager
initial_written env m c (err e) = (err e, m)
initial_written env m c (ok u) = opened env (record m { written = some c }) env.open_log

abbrev respawn_in :
    CaddyEnv → CaddyManager → Outcome CaddyError Str → Outcome CaddyError (Unit {0}) × CaddyManager
respawn_in env m (err e) = (err e, m)
respawn_in env m (ok dir) = initial_written env m (config_of env m dir []) (env.write_config 1)

-- Write 1 and the log open come before the spawn, then up to 50 tries of the admin socket.
unfoldable pub respawn : CaddyEnv → CaddyManager → Outcome CaddyError (Unit {0}) × CaddyManager
unfolding wait_admin_ready
respawn env m = respawn_in env (reap_child m) env.state_dir

-- The manager behind a post that fails.
abbrev pub unheard : CaddyEnv → ℕ → CaddyManager → Config → CaddyManager
unheard env k m c = if env.takes k then record m { served = some c } else m

abbrev posted :
    CaddyEnv
    → CaddyManager
    → Config
    → Outcome CaddyError (Unit {0})
    → Outcome CaddyError (Unit {0}) × CaddyManager
posted env m c (ok u) = (ok tt, record m { served = some c })
posted env m c (err e) = (err e, unheard env 1 m c)

abbrev written_again :
    CaddyEnv
    → CaddyManager
    → Config
    → Outcome CaddyError (Unit {0})
    → Outcome CaddyError (Unit {0}) × CaddyManager
written_again env m c (err e) = (err e, m)
written_again env m c (ok u) = posted env (record m { written = some c }) c (post_load (env.post 1))

abbrev respawned :
    CaddyEnv
    → Config
    → Outcome CaddyError (Unit {0}) × CaddyManager
    → Outcome CaddyError (Unit {0}) × CaddyManager
respawned env c (err e, m) = (err e, m)
respawned env c (ok u, m) = written_again env m c (env.write_config 2)

abbrev first_posted :
    CaddyEnv
    → CaddyManager
    → Config
    → Outcome CaddyError (Unit {0})
    → Outcome CaddyError (Unit {0}) × CaddyManager
first_posted env m c (ok u) = (ok tt, record m { served = some c })
first_posted env m c (err e) =
    let n = unheard env 0 m c in
    if m.loose
    then (ok tt, n)
    else (if admin_reachable env m 0 then (err e, n) else respawned env c (respawn env n))

abbrev first_written :
    CaddyEnv
    → CaddyManager
    → Config
    → Outcome CaddyError (Unit {0})
    → Outcome CaddyError (Unit {0}) × CaddyManager
first_written env m c (err e) = (err e, m)
first_written env m c (ok u) =
    first_posted env (record m { written = some c }) c (post_load (env.post 0))

abbrev apply_in :
    CaddyEnv
    → CaddyManager
    → Snapshot
    → Outcome CaddyError Str
    → Outcome CaddyError (Unit {0}) × CaddyManager
apply_in env m projects (err e) = (err e, m)
apply_in env m projects (ok dir) =
    first_written env m (config_of env m dir projects) (env.write_config 0)

-- A failed post is an error of a strict manager whose proxy answers; where it does not answer, the
-- proxy is started again and gets the same configuration.
unfoldable pub apply_routes :
    CaddyEnv → CaddyManager → Snapshot → Outcome CaddyError (Unit {0}) × CaddyManager
apply_routes env m projects =
    if m.loose && is_empty m.admin_sock then (ok tt, m) else apply_in env m projects env.state_dir

unfoldable pub shutdown : CaddyManager → CaddyManager
shutdown m = reap_child m

-- The rounds that are left of the search from 2016 on.
pub pick_rounds : ℕ → (ℕ → Bool) → ℕ → Outcome CaddyError ℕ
pick_rounds zero binds port = err no_free_http_port
pick_rounds (suc n) binds port = elim (binds port) [
  | true ↦ ok port
  | false ↦ elim (port == u16_max) [
    | true ↦ err no_free_http_port
    | false ↦ pick_rounds n binds (port + 1)
  ]
]

-- `binds p`: whether a bind of 127.0.0.1:p succeeds.
unfoldable pub pick_http_port : (ℕ → Bool) → Outcome CaddyError ℕ
unfolding pick_rounds
pick_http_port binds =
    if binds 80 then ok 80 else if binds 2015 then ok 2015 else pick_rounds 1024 binds 2016
