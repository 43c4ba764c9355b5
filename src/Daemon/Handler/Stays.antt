-- ===== src/Daemon/Handler/Stays.antt =====
-- The running projects under the daemon's steps: `commit` of crates/daemon/src/handler.rs looks the
-- name up again under the lock, so a start that comes late replaces nothing.
use neals.Prelude.{◌∙◌, ◌≡◌, false, some, List, [], ◌∷◌, inl, inr}
use neals.Prelude.Bools.{Bool-cases, Option-cases}
use neals.Prelude.Lists.{find}
use neals.Prelude.Outcome.{Outcome, ok, err}
use neals.Prelude.Text.{Str, str_eq}
use neals.Daemon.Routes.{BoundRoute}
use neals.Daemon.Caddy.{CaddyManager, CaddyEnv, CaddyError}
use neals.Daemon.State.{
  AppState, RunningProject, is_named, is_running, stop, reap_one, finish_cleanup,
}
use neals.Daemon.State.Inserted.{find-append, find-without}
use neals.Daemon.Handler.{
  UpEnv, UpTask, Launch, routing, failing, committing, task_step, commit, undo, leases_only,
  leases_and_routes, running_of, after_routing, add_running,
}
use neals.Daemon.Handler.Committed.{committed_fresh}
use neals.Daemon.Handler.Interleave.{System, Step, request, advance, down, reap, Reach, here, next}

-- A step that neither stops nor reaps the name.
abbrev pub Spares : {s t : System} → Str → Step s t → Type 0
Spares name (request other) = Unit
Spares name (advance env before after t e) = Unit
Spares name (down env other) = str_eq other name ≡ false
Spares name (reap env other) = str_eq other name ≡ false

abbrev pub SparesAll : {s t : System} → Str → Reach s t → Type 0
SparesAll name here = Unit
SparesAll name (next r st) = SparesAll name r × Spares name st

-- What is stored under the name.
abbrev pub Runs : Str → RunningProject → AppState → Type 0
Runs name p s = find (is_named name) s.projects ≡ some p

module _ (name : Str) (p : RunningProject) where
  routing-Runs :
      (other path : Str) (s : AppState) (bound : List BoundRoute)
      (r : Outcome CaddyError (Unit {0}) × CaddyManager)
      → Runs name p s
      → Runs name p (after_routing s other path bound r).1
  routing-Runs other path s bound (ok u, m) h = h
  routing-Runs other path s bound (err e, m) h = h

  commit-Runs :
      (env : UpEnv) (other path : Str) (bound : List BoundRoute) (l : Launch) (s : AppState)
      → Runs name p s
      → Runs name p (commit env other path bound l s).1
  unfolding commit add_running
  commit-Runs env other path bound l s h = elim (Bool-cases (is_running s other)) [
    | inl e ↦ rw e h
    | inr e ↦
        rw (e, committed_fresh env other path bound l s e)
          (find-append name p s.projects (running_of env other path bound l ∷ []) h)
  ]

  pub task_step-Runs :
      (env : UpEnv) (t : UpTask) (s : AppState) → Runs name p s → Runs name p (task_step env t s).1
  unfolding task_step undo
  task_step-Runs env (routing other path bound) s h = routing-Runs other path s bound _ h
  task_step-Runs env (failing bound leases_only e) s h = h
  task_step-Runs env (failing bound leases_and_routes e) s h = h
  task_step-Runs env (committing other path bound l) s h = commit-Runs env other path bound l s h
  task_step-Runs env _ s h = h

  stop-Runs :
      (env : CaddyEnv) (s : AppState) (other : Str)
      → str_eq other name ≡ false
      → Runs name p s
      → Runs name p (stop env s other).1
  unfolding stop finish_cleanup
  stop-Runs env s other d h = elim (Option-cases (find (is_named other) s.projects)) [
    | inl e ↦ rw (e, stop) h
    | inr (q, e) ↦ rw (e, stop) (find-without name other s.projects d ∙ h)
  ]

  reap-Runs :
      (env : CaddyEnv) (s : AppState) (other : Str)
      → str_eq other name ≡ false
      → Runs name p s
      → Runs name p (reap_one env s other)
  unfolding reap_one finish_cleanup
  reap-Runs env s other d h = elim (Option-cases (find (is_named other) s.projects)) [
    | inl e ↦ rw (e, reap_one) h
    | inr (q, e) ↦ rw (e, reap_one) (find-without name other s.projects d ∙ h)
  ]

  Step-Runs :
      {s t : System} (st : Step s t) → Spares name st → Runs name p s.app → Runs name p t.app
  Step-Runs (request other) d h = h
  Step-Runs {s} (advance env before after t e) d h = task_step-Runs env t s.app h
  Step-Runs {s} (down env other) d h = stop-Runs env s.app other d h
  Step-Runs {s} (reap env other) d h = reap-Runs env s.app other d h

  -- A project that runs is still running, with the same processes and routes, after any
  -- interleaving of starts, stops and reaps in which its name is neither stopped nor reaped: a
  -- start never takes the place of a running project, also where two starts of one name race.
  pub running_stays :
      (s t : System) (r : Reach s t) → SparesAll name r → Runs name p s.app → Runs name p t.app
  running_stays s t here d h = h
  running_stays s t (next {t = u} r st) d h = Step-Runs st d.1 (running_stays s u r d.0 h)
