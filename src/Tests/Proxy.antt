-- ===== src/Tests/Proxy.antt =====
-- The proxy's configuration and the calls that give it to the proxy.
use neals.Prelude.{true, false, refl, ◌≡◌, ◌≤◌, [], ◌∷◌, ◌++◌, arith}
use neals.Prelude.Bools.{if◌then◌else◌, ◌==◌}
use neals.Prelude.Decimal.{decimal}
use neals.Prelude.Outcome.{ok, err}
use neals.Prelude.Text.{codes}
use neals.Daemon.Ports.{u16_max}
use neals.Daemon.Routes.{Snapshot}
use neals.Daemon.Caddy.{io, io, CaddyEnv, apply_routes, build_caddy_config, pick_http_port}
use neals.Daemon.Caddy.Apply.{Applied, apply_routes-Applied}
use neals.Daemon.Caddy.Build.{Picked, build_caddy_config-ports, pick_http_port_lem}
use neals.Daemon.State.{bound_snapshot, proxy_snapshot}
use neals.Daemon.State.Snapshots.{build_caddy_config-snapshots}
use neals.Tests.Starts.{demo, caddy_env, manager, api, with_blog}

abbrev one_project : Snapshot
one_project = (demo, api) ∷ []

-- A proxy whose admin socket refuses until the process is started again.
abbrev dead : CaddyEnv
dead = record caddy_env {
  admin_connects = λ i. if i == 0 then false else true;
  post = λ i. if i == 0 then err (io (codes "no listener")) else ok (codes "HTTP/1.1 200 OK");
}

apply_routes-Applied_example :
    Applied dead manager one_project (apply_routes dead manager one_project)
apply_routes-Applied_example = apply_routes-Applied dead manager one_project refl

build_caddy_config-ports_example :
    let c =
      build_caddy_config
        (codes "/run")
        (codes "/run/a.sock")
        (codes "127.0.0.1" ++ b':' ∷ decimal 2015)
        (codes "/log")
        one_project in
    (c.http_port ≡ 2015)
    × (1024 ≤ c.https_port)
    × (c.https_port ≤ u16_max)
    × ((c.https_port == 2015) ≡ (2015 == u16_max))
build_caddy_config-ports_example =
    build_caddy_config-ports (codes "/run") (codes "/run/a.sock") (codes "127.0.0.1") (codes "/log")
      one_project 2015 (omega arith)

pick_http_port_lem_example : Picked (λ p. p == 2017) (pick_http_port (λ p. p == 2017))
pick_http_port_lem_example = pick_http_port_lem (λ p. p == 2017)

build_caddy_config-snapshots_example :
    build_caddy_config
      (codes "/run")
      (codes "/run/a.sock")
      (codes "127.0.0.1:80")
      (codes "/log")
      (proxy_snapshot with_blog)
    ≡ build_caddy_config
        (codes "/run")
        (codes "/run/a.sock")
        (codes "127.0.0.1:80")
        (codes "/log")
        (bound_snapshot with_blog)
build_caddy_config-snapshots_example =
    build_caddy_config-snapshots (codes "/run") (codes "/run/a.sock") (codes "127.0.0.1:80")
      (codes "/log") with_blog
