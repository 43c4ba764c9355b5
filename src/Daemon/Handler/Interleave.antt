-- ===== src/Daemon/Handler/Interleave.antt =====
-- The daemon's tasks move one part at a time, in any order: starts in flight, stops and reaps. The
-- lock of crates/daemon/src/handler.rs makes each part one step.
use neals.Prelude.{
  ◌<◌, ℕ, ◌+◌, ◌≤◌, ◌≡◌, refl, ap, subst, some, List, [], ◌∷◌, ◌++◌, arith, inl, inr,
}
use neals.Prelude.Bools.{Bool-cases, Option-cases}
use neals.Prelude.Lists.{find}
use neals.Prelude.Outcome.{Outcome, ok, err}
use neals.Prelude.Text.{Str}
use neals.Common.Devenv.{ServiceDecl}
use neals.Daemon.Ports.{Ipv4Addr, LoopbackLeases, contains}
use neals.Daemon.Ports.Keys.{ip_eq, ip_eq_refl, ip_eq_sound}
use neals.Daemon.Routes.{BoundRoute}
use neals.Daemon.Caddy.{CaddyManager, CaddyEnv, CaddyError}
use neals.Daemon.State.{
  AppState, RunningProject, stopped_group, Effect, stop, reap_one, finish_cleanup, is_named,
  is_running, without, release_routes,
}
use neals.Daemon.State.Counts.{
  lease, holds, indicator, indicator_le, project_holds, project_holds-append, project_holds-without,
  release_routes-within,
}
use neals.Daemon.Binding.{UpError, bind_services}
use neals.Daemon.Handler.Committed.{committed_fresh}
use neals.Daemon.Handler.{
  add_running, UpEnv, UpTask, Undo, Launch, checking, reading, binding, routing, launching, failing,
  committing, finished, task_step, after_binding, after_routing, after_reading, read_project,
  launch, commit, undo, leases_only, leases_and_routes, running_of,
}
use neals.Daemon.Binding.Within.{Within, bind_services-Within}

-- How many routes of a start in flight are bound to the address.
abbrev pub task_holds : UpTask → Ipv4Addr → ℕ
task_holds (routing name path bound) ip = holds bound ip
task_holds (launching name path bound) ip = holds bound ip
task_holds (failing bound u e) ip = holds bound ip
task_holds (committing name path bound l) ip = holds bound ip
task_holds _ ip = 0

unfoldable pub tasks_hold : List UpTask → Ipv4Addr → ℕ
tasks_hold [] ip = 0
tasks_hold (t ∷ ts) ip = task_holds t ip + tasks_hold ts ip

pub record System : Type 0 where
  pub app : AppState
  pub tasks : List UpTask

-- One move of the daemon. `advance` moves the start that stands behind `before`.
pub data Step (s : System) : System → Type 0 where
  request : (name : Str) → Step s (record s { tasks = checking name ∷ s.tasks })
  advance :
      (env : UpEnv) (before after : List UpTask) (t : UpTask)
      → s.tasks ≡ before ++ t ∷ after
      → Step s (record {
        app = (task_step env t s.app).1;
        tasks = before ++ (task_step env t s.app).0 ∷ after;
      })
  down : (env : CaddyEnv) (name : Str) → Step s (record s { app = (stop env s.app name).1 })
  reap : (env : CaddyEnv) (name : Str) → Step s (record s { app = reap_one env s.app name })

pub data Reach (s : System) : System → Type 0 where
  here : Reach s s
  next : {t u : System} → Reach s t → Step t u → Reach s u

-- Each address is bound, by running projects and by starts in flight, and held back besides as
-- often as `slack` says, at most as often as it is leased: once.
abbrev pub Reserves : (Ipv4Addr → ℕ) → System → Type 0
Reserves slack s =
    (ip : Ipv4Addr)
    → slack ip + tasks_hold s.tasks ip + project_holds s.app.projects ip ≤ lease s.app.leases ip

-- Each address is bound at most as often as it is leased.
abbrev pub IsExclusive : System → Type 0
IsExclusive s =
    (ip : Ipv4Addr)
    → tasks_hold s.tasks ip + project_holds s.app.projects ip ≤ lease s.app.leases ip

-- A launch keeps its routes, or gives them to the part that undoes it, or drops them.
launch-holds :
    (env : UpEnv) (name path : Str) (bound : List BoundRoute) (done : List Effect)
    (r : Outcome Str (Unit {0})) (ip : Ipv4Addr)
    → task_holds (launch env name path bound done r).0 ip ≤ holds bound ip
unfolding launch
launch-holds env name path bound done (err e) ip = omega arith
launch-holds env name path bound done (ok u) ip = ground arith

abbrev Fits : (Ipv4Addr → ℕ) → UpTask × AppState → Type 0
Fits others (t, s) =
    (ip : Ipv4Addr) → others ip + project_holds s.projects ip + task_holds t ip ≤ lease s.leases ip

module _ (others : Ipv4Addr → ℕ) where
  binding-Fits :
      (name path : Str) (s : AppState) (r : Outcome UpError (List BoundRoute)) (l : LoopbackLeases)
      → Within (λ ip. others ip + project_holds s.projects ip) (r, l)
      → Fits others (after_binding name path r, record s { leases = l })
  binding-Fits name path s (ok bound) l h = h
  binding-Fits name path s (err e) l h = λ ip. omega (arith, h ip)

  released :
      (s : AppState) (bound : List BoundRoute) (ip : Ipv4Addr)
      → others ip + project_holds s.projects ip + holds bound ip ≤ lease s.leases ip
      → others ip + project_holds s.projects ip ≤ lease (release_routes s.leases bound) ip
  released s bound ip h =
      release_routes-within s.leases bound ip (others ip + project_holds s.projects ip) h

  routing-Fits :
      (name path : Str) (s : AppState) (bound : List BoundRoute)
      (r : Outcome CaddyError (Unit {0}) × CaddyManager)
      → Fits others (routing name path bound, s)
      → Fits others (after_routing s name path bound r)
  routing-Fits name path s bound (ok u, m) h = h
  routing-Fits name path s bound (err e, m) h = λ ip. omega (arith, released s bound ip (h ip))

  launching-Fits :
      (env : UpEnv) (name path : Str) (s : AppState) (bound : List BoundRoute)
      (r : Outcome Str (Unit {0}))
      → Fits others (launching name path bound, s)
      → Fits others (
        (launch env name path bound s.effects r).0,
        record s { effects = (launch env name path bound s.effects r).1 },
      )
  unfolding launch
  launching-Fits env name path s bound r h ip =
      omega (arith, h ip, launch-holds env name path bound s.effects r ip)

  undo-Fits :
      (env : UpEnv) (u : Undo) (bound : List BoundRoute) (s : AppState)
      (r : Outcome UpError (Unit {0}))
      → ((ip : Ipv4Addr)
          → others ip + project_holds s.projects ip + holds bound ip ≤ lease s.leases ip)
      → Fits others (finished r, undo env u bound s)
  unfolding undo
  undo-Fits env leases_only bound s r h = λ ip. omega (arith, released s bound ip (h ip))
  undo-Fits env leases_and_routes bound s r h = λ ip. omega (arith, released s bound ip (h ip))

  commit-Fits :
      (env : UpEnv) (name path : Str) (bound : List BoundRoute) (l : Launch) (s : AppState)
      → Fits others (committing name path bound l, s)
      → Fits others (commit env name path bound l s)
  unfolding commit add_running
  commit-Fits env name path bound l s h = elim (Bool-cases (is_running s name)) [
    | inl e ↦ rw e (λ ip. omega (arith, released s bound ip (h ip)))
    | inr e ↦ rw e (λ ip.
        unfold project_holds in
        omega (
          arith,
          h ip,
          project_holds-append s.projects (running_of env name path bound l ∷ []) ip,
          ap (λ ps. project_holds ps ip) (committed_fresh env name path bound l s e),
        ))
  ]

  reading_holds :
      (name : Str) (r : Outcome UpError (Str × List ServiceDecl)) (ip : Ipv4Addr)
      → task_holds (after_reading name r) ip ≡ 0
  reading_holds name (ok (path, services)) ip = refl
  reading_holds name (err e) ip = refl

  -- A part of a start keeps what it and the others bind within the leases.
  pub task_step-Fits :
      (env : UpEnv) (t : UpTask) (s : AppState)
      → Fits others (t, s)
      → Fits others (task_step env t s)
  unfolding task_step
  task_step-Fits env (checking name) s h = λ ip. ground (arith, h ip)
  task_step-Fits env (reading name) s h =
      λ ip. omega (arith, h ip, reading_holds name (read_project env name) ip)
  task_step-Fits env (binding name path services) s h =
      let (r, l) = bind_services env.sockets s.leases services in
      binding-Fits name path s r l (
        bind_services-Within env.sockets (λ ip. others ip + project_holds s.projects ip) s.leases
          services (λ ip. omega (arith, h ip)))
  task_step-Fits env (routing name path bound) s h = routing-Fits name path s bound _ h
  task_step-Fits env (launching name path bound) s h =
      launching-Fits env name path s bound env.open_log h
  task_step-Fits env (failing bound u e) s h = undo-Fits env u bound s (err e) h
  task_step-Fits env (committing name path bound l) s h = commit-Fits env name path bound l s h
  task_step-Fits env (finished r) s h = h

  stopped-Fits :
      (env : CaddyEnv) (s : AppState) (name : Str) (p : RunningProject) (es : List Effect)
      → find (is_named name) s.projects ≡ some p
      → ((ip : Ipv4Addr) → others ip + project_holds s.projects ip ≤ lease s.leases ip)
      → (ip : Ipv4Addr)
      → others ip + project_holds (without s.projects name) ip
        ≤ lease
            (finish_cleanup env
              (record s { projects = without s.projects name; effects = es })
              p).leases
            ip
  unfolding finish_cleanup
  stopped-Fits env s name p es e h ip =
      release_routes-within s.leases p.bound ip
        (others ip + project_holds (without s.projects name) ip)
        (omega (arith, h ip, project_holds-without s.projects name p ip e))

tasks_hold-middle :
    (before after : List UpTask) (t : UpTask) (ip : Ipv4Addr)
    → tasks_hold (before ++ t ∷ after) ip
      ≡ tasks_hold before ip + tasks_hold after ip + task_holds t ip
unfolding tasks_hold
tasks_hold-middle [] after t ip = omega arith
tasks_hold-middle (u ∷ before) after t ip = omega (arith, tasks_hold-middle before after t ip)

module _ (slack : Ipv4Addr → ℕ) where
  stop-Reserves :
      (s : System) (env : CaddyEnv) (name : Str)
      → Reserves slack s
      → Reserves slack (record s { app = (stop env s.app name).1 })
  unfolding stop
  stop-Reserves s env name h = elim (Option-cases (find (is_named name) s.app.projects)) [
    | inl e ↦ rw (e, stop) h
    | inr (p, e) ↦
        rw (e, stop)
          (stopped-Fits (λ ip. slack ip + tasks_hold s.tasks ip) env s.app name p
            (stopped_group p.pid ∷ s.app.effects) e h)
  ]

  reap-Reserves :
      (s : System) (env : CaddyEnv) (name : Str)
      → Reserves slack s
      → Reserves slack (record s { app = reap_one env s.app name })
  unfolding reap_one
  reap-Reserves s env name h = elim (Option-cases (find (is_named name) s.app.projects)) [
    | inl e ↦ rw (e, reap_one) h
    | inr (p, e) ↦
        rw (e, reap_one)
          (stopped-Fits (λ ip. slack ip + tasks_hold s.tasks ip) env s.app name p s.app.effects e h)
  ]

  Step-Reserves : {s t : System} → Step s t → Reserves slack s → Reserves slack t
  unfolding tasks_hold
  Step-Reserves (request name) h = λ ip. omega (arith, h ip)
  Step-Reserves {s} (advance env before after t e) h = λ ip. omega (
    arith,
    tasks_hold-middle before after (task_step env t s.app).0 ip,
    task_step-Fits (λ i. slack i + tasks_hold before i + tasks_hold after i) env t s.app
        (λ i. omega (arith, h i, ap (λ ts. tasks_hold ts i) e, tasks_hold-middle before after t i))
        ip,
  )
  Step-Reserves {s} (down env name) h = stop-Reserves s env name h
  Step-Reserves {s} (reap env name) h = reap-Reserves s env name h

  pub Reach-Reserves : {s t : System} → Reserves slack s → Reach s t → Reserves slack t
  Reach-Reserves h here = h
  Reach-Reserves h (next r st) = Step-Reserves st (Reach-Reserves h r)

-- From a state where every address is bound at most as often as it is leased, however starts,
-- stops and reaps interleave, no address is ever bound by two routes of running projects and starts
-- in flight, nor by one without its lease.
pub Reach-IsExclusive : (s t : System) → IsExclusive s → Reach s t → IsExclusive t
Reach-IsExclusive s t h r ip =
    omega (arith, Reach-Reserves (λ j. 0) {s = s} {t = t} (λ j. omega (arith, h j)) r ip)

-- An address that is leased and bound by nothing is lost: however the daemon goes on, it stays
-- leased and is never bound again.
pub lost_forever :
    (s t : System) (ip : Ipv4Addr)
    → IsExclusive s
    → Reach s t
    → lease s.app.leases ip ≡ 1
    → tasks_hold s.tasks ip + project_holds s.app.projects ip ≡ 0
    → (lease t.app.leases ip ≡ 1) × (tasks_hold t.tasks ip + project_holds t.app.projects ip ≡ 0)
lost_forever s t ip h r leased unbound =
    (ground (arith, kept, ip_eq_refl ip), ground (arith, kept, ip_eq_refl ip))
  where
    start : Reserves (λ j. indicator (ip_eq ip j)) s
    start j = elim (Bool-cases (ip_eq ip j)) [
      | inl e ↦
          subst
            (λ k.
              indicator (ip_eq ip k) + tasks_hold s.tasks k + project_holds s.app.projects k
              ≤ lease s.app.leases k)
            (ip_eq_sound ip j e) (omega (arith, ap indicator (ip_eq_refl ip)))
      | inr e ↦ omega (arith, h j, ap indicator e)
    ]

    kept :
        indicator (ip_eq ip ip) + tasks_hold t.tasks ip + project_holds t.app.projects ip
        ≤ lease t.app.leases ip
    kept = Reach-Reserves (λ j. indicator (ip_eq ip j)) {s = s} {t = t} start r ip

module _ (env : UpEnv) (name path : Str) (bound : List BoundRoute) (s : System) where
  abbrev pub launched : System
  launched = record {
    app = (task_step env (launching name path bound) s.app).1;
    tasks = (task_step env (launching name path bound) s.app).0 ∷ s.tasks;
  }

  abbrev pub at_launch : System
  at_launch = record s { tasks = launching name path bound ∷ s.tasks }

  -- A start whose log cannot be opened, after its services were bound, gives nothing back: each
  -- address that it had bound is leased from then on, and bound by nothing, whatever happens next.
  pub log_failure_loses :
      (message : Str) (ip : Ipv4Addr) (t : System)
      → env.open_log ≡ err message
      → IsExclusive at_launch
      → 0 < holds bound ip
      → Reach launched t
      → (lease t.app.leases ip ≡ 1) × (tasks_hold t.tasks ip + project_holds t.app.projects ip ≡ 0)
  unfolding task_step launch tasks_hold
  log_failure_loses message ip t e h bound_here r =
      lost_forever launched t ip
        (λ j. omega (arith, h j, launch-holds env name path bound s.app.effects env.open_log j)) r
        (omega (arith, h ip, indicator_le (contains s.app.leases ip)))
        (rw (e, launch) (omega (arith, h ip, indicator_le (contains s.app.leases ip))))
