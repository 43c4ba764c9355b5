-- ===== src/Daemon/State/Snapshots.antt =====
-- The snapshots of crates/daemon/src/state.rs, and the configuration that each of them gives.
use neals.Prelude.{inr, inl, ◌≡◌, refl, List, [], ◌∷◌, ◌++◌, arith}
use neals.Prelude.{sym, ap, ◌∙◌, map}
use neals.Prelude.Text.{Str}
use neals.Prelude.Lists.{List-cases, select}
use neals.Daemon.Routes.{BoundRoute, Snapshot}
use neals.Daemon.Caddy.{project_routes, all_routes, build_caddy_config}
use neals.Daemon.State.{
  AppState, bound_of, proxied, proxy_snapshot, bound_snapshot, RunningProject, with_proxied,
  proxy_snapshot_of,
}

pub proxy_snapshot_of-append :
    (ps : List RunningProject) (p : RunningProject)
    → proxy_snapshot_of (ps ++ p ∷ []) ≡ proxy_snapshot_of ps ++ with_proxied p.name p.bound []
unfolding proxy_snapshot_of with_proxied
proxy_snapshot_of-append [] p = refl
proxy_snapshot_of-append (q ∷ qs) p = ground (arith, proxy_snapshot_of-append qs p)

project_routes-proxied :
    (runtime name : Str) (bound : List BoundRoute)
    → project_routes runtime name (proxied bound) ≡ project_routes runtime name bound
unfolding project_routes proxied select
project_routes-proxied runtime name [] = refl
project_routes-proxied runtime name (r ∷ rs) =
    ground (arith, project_routes-proxied runtime name rs)

all_routes-with_proxied :
    (runtime name : Str) (bound : List BoundRoute) (rest : Snapshot)
    → all_routes runtime (with_proxied name bound rest)
      ≡ project_routes runtime name bound ++ all_routes runtime rest
unfolding all_routes with_proxied
all_routes-with_proxied runtime name bound rest =
    let same = project_routes-proxied runtime name bound in
    elim (List-cases (proxied bound)) [
      | inl e ↦ rw e (rw (sym same, e) refl)
      | inr (r, rs, e) ↦ rw e (rw (sym same, e) refl)
    ]

all_routes-snapshots :
    (runtime : Str) (ps : List RunningProject)
    → all_routes runtime (proxy_snapshot_of ps) ≡ all_routes runtime (map bound_of ps)
unfolding proxy_snapshot_of all_routes
all_routes-snapshots runtime [] = refl
all_routes-snapshots runtime (p ∷ ps) =
    all_routes-with_proxied runtime p.name p.bound (proxy_snapshot_of ps)
    ∙ ap (λ rs. project_routes runtime p.name p.bound ++ rs) (all_routes-snapshots runtime ps)

-- The snapshot of the proxied routes gives the proxy the same configuration as the one of all
-- routes: private routes, and projects of private routes alone, add nothing to it.
pub build_caddy_config-snapshots :
    (runtime sock addr log : Str) (s : AppState)
    → build_caddy_config runtime sock addr log (proxy_snapshot s)
      ≡ build_caddy_config runtime sock addr log (bound_snapshot s)
unfolding build_caddy_config proxy_snapshot bound_snapshot
build_caddy_config-snapshots runtime sock addr log s =
    rw (all_routes-snapshots runtime s.projects) refl
