-- ===== src/Daemon/Handler/Race.antt =====
-- A stop that comes between two parts of a start of crates/daemon/src/handler.rs.
use neals.Prelude.{arith, ◌≡◌, refl, sym, ap, subst, ◌∙◌, false, some, List, [], ◌∷◌, ◌++◌}
use neals.Prelude.Lists.{find}
use neals.Prelude.Outcome.{Outcome, ok, err}
use neals.Prelude.Text.{Str}
use neals.Daemon.Routes.{BoundRoute, Snapshot}
use neals.Daemon.Caddy.{CaddyManager, CaddyEnv, CaddyError, apply_routes}
use neals.Daemon.Caddy.Apply.{Applied, apply_routes-Applied}
use neals.Daemon.State.{
  AppState, RunningProject, is_named, is_running, without, stop, finish_cleanup, proxy_snapshot,
  proxy_snapshot_of,
}
use neals.Daemon.Handler.Committed.{committed_fresh}
use neals.Daemon.Handler.{
  add_running, UpEnv, UpTask, Launch, committing, finished, task_step, commit, running_of,
}
use neals.Prelude.Bools.{take_else}
use neals.Daemon.Handler.Serving.{Serves, Serves-Applied}

-- What the proxy serves when an apply that succeeded is over.
Applied-Serves :
    (env : CaddyEnv) (m : CaddyManager) (projects : Snapshot)
    (r : Outcome CaddyError (Unit {0}) × CaddyManager)
    → r.0 ≡ ok tt
    → Applied env m projects r
    → Serves r.1 projects
Applied-Serves env m projects (ok u, n) e a = Serves-Applied env m n projects a
Applied-Serves env m projects (err x, n) e a = cc

abbrev pub rest : AppState → Str → List RunningProject
rest s other = without s.projects other

abbrev pub stopped : CaddyEnv → AppState → Str → AppState
stopped cleanup s other = (stop cleanup s other).1

abbrev pub committed : UpEnv → Str → Str → List BoundRoute → Launch → AppState → UpTask × AppState
committed env name path bound l s = task_step env (committing name path bound l) s

module _ (env : UpEnv) (cleanup : CaddyEnv) (name path other : Str) (bound : List BoundRoute)
    (l : Launch) (s : AppState) (p : RunningProject) where
  stopped_lem :
      find (is_named other) s.projects ≡ some p
      → ((stopped cleanup s other).projects ≡ (rest s other))
        × ((stopped cleanup s other).caddy
            ≡ (apply_routes cleanup s.caddy (proxy_snapshot_of (rest s other))).1)
  unfolding stop finish_cleanup proxy_snapshot
  stopped_lem found = (ground arith, ground arith)

  committed_lem :
      is_running (stopped cleanup s other) name ≡ false
      → ((committed env name path bound l (stopped cleanup s other)).0 ≡ finished (ok tt))
        × ((committed env name path bound l (stopped cleanup s other)).1.projects
            ≡ (stopped cleanup s other).projects ++ running_of env name path bound l ∷ [])
        × ((committed env name path bound l (stopped cleanup s other)).1.caddy
            ≡ (stopped cleanup s other).caddy)
  unfolding task_step commit add_running
  committed_lem fresh =
      take_else
        (λ (r : UpTask × AppState).
          (r.0 ≡ finished (ok tt))
          × (r.1.projects
              ≡ (stopped cleanup s other).projects ++ running_of env name path bound l ∷ [])
          × (r.1.caddy ≡ (stopped cleanup s other).caddy))
        (is_running (stopped cleanup s other) name) _ _ fresh
        (refl, committed_fresh env name path bound l (stopped cleanup s other) fresh, refl)

  -- Where project `other` is stopped, and the routes that are left are applied, while the start of
  -- `name` waits for its last part, the start then succeeds: the project runs, beside the others, but
  -- the proxy serves the routes of the others alone.
  pub stop_drops_starting :
      s.caddy.loose ≡ false
      → find (is_named other) s.projects ≡ some p
      → (apply_routes cleanup s.caddy (proxy_snapshot_of (rest s other))).0 ≡ ok tt
      → is_running (stopped cleanup s other) name ≡ false
      → ((committed env name path bound l (stopped cleanup s other)).0 ≡ finished (ok tt))
        × ((committed env name path bound l (stopped cleanup s other)).1.projects
            ≡ (rest s other) ++ running_of env name path bound l ∷ [])
        × Serves
            (committed env name path bound l (stopped cleanup s other)).1.caddy
            (proxy_snapshot_of (rest s other))
  stop_drops_starting strict found applied fresh =
      let (ps, m) = stopped_lem found in
      let (done, qs, n) = committed_lem fresh in
      (
        done,
        qs ∙ ap (λ l'. l' ++ running_of env name path bound l ∷ []) ps,
        subst (λ c. Serves c (proxy_snapshot_of (rest s other))) (sym (n ∙ m))
            (Applied-Serves cleanup s.caddy (proxy_snapshot_of (rest s other)) _ applied
              (apply_routes-Applied cleanup s.caddy (proxy_snapshot_of (rest s other)) strict)),
      )
