-- ===== src/Cli/Commands.antt =====
-- The commands of crates/cli/src/main.rs that read or change the registry, or ask the daemon. What
-- the user answers, the registry's file and the daemon's answers are parameters.
pub mod Registered
use neals.Prelude.{ℕ, Bool, true, false, Option, none, some, List, [], ◌∷◌, ◌||◌}
use neals.Prelude.Bools.{if◌then◌else◌}
use neals.Prelude.Lists.{find, select}
use neals.Prelude.Outcome.{Outcome, ok, err, ◌>>=◌}
use neals.Prelude.Text.{Str, codes, str_eq, trim, is_empty, to_ascii_lower}
use neals.Common.Devenv.{ProjectName, from_devenv, fallback}
use neals.Common.Devenv.Services.{DeclError}
use neals.Common.Ipc.{
  Request, Response, ProjectRuntime, ServiceRuntime, summary, status, up, down, done, running,
  failed,
}
use neals.Common.Registry.{
  Project, Registry, RegistryError, get, add, upsert, remove, take_ghosts, is_ghost,
}

pub data CommandError : Type 0 where
  no_tty no_answer registration_cancelled prune_cancelled unexpected_response : CommandError
  not_loaded not_saved no_daemon refused_by_daemon unknown_project : Str → CommandError
  no_name : DeclError → CommandError
  not_entered : RegistryError → CommandError

-- The answer to each prompt, where the line can be read, and whether there is a terminal.
pub record User : Type 0 where
  pub yes : Bool
  pub terminal : Bool
  pub answers : ℕ → Option Str

unfoldable pub lower_case : Str → Str
lower_case [] = []
lower_case (c ∷ s) = to_ascii_lower c ∷ lower_case s

unfoldable pub agrees : Str → Bool
unfolding lower_case
agrees answer = str_eq (lower_case answer) (codes "y") || str_eq (lower_case answer) (codes "yes")

abbrev answered : Option Str → Outcome CommandError Bool
answered none = err no_answer
answered (some line) = ok (agrees (trim line))

-- The prompt with this number.
unfoldable pub confirm : User → ℕ → Outcome CommandError Bool
unfolding agrees
confirm user prompt =
    if user.yes
    then ok true
    else (if user.terminal then answered (user.answers prompt) else err no_tty)

-- The file of the registry: what is read, and how a write ends.
pub record RegistryFile : Type 0 where
  pub load : Outcome Str Registry
  pub save : Registry → Outcome Str (Unit {0})

-- A command ends with a result, and with the registry that it has written, if it has.
abbrev pub Ran : Type 0 → Type 0
Ran A = Outcome CommandError A × Option Registry

unfoldable pub saved : {A : Type 0} → RegistryFile → Registry → A → Ran A
saved file r a = elim (file.save r) [ ok u ↦ (ok a, some r) | err e ↦ (err (not_saved e), none) ]

abbrev pub loaded : {A : Type 0} → RegistryFile → (Registry → Ran A) → Ran A
loaded file f = elim file.load [ ok r ↦ f r | err e ↦ (err (not_loaded e), none) ]

pub data Entered : Type 0 where
  already overrode entered : Entered

-- The name that is registered; a folder's name only where the user agrees.
unfoldable pub chosen_name : User → Outcome DeclError ProjectName → Outcome CommandError Str
unfolding confirm
chosen_name user (err e) = err (no_name e)
chosen_name user (ok (from_devenv name)) = ok name
chosen_name user (ok (fallback name)) =
    confirm user 0 >>= λ agreed. if agreed then ok name else err registration_cancelled

unfoldable pub override : User → RegistryFile → Registry → Project → Ran Entered
unfolding saved confirm
override user file r p = elim (confirm user 1) [
  | err e ↦ (err e, none)
  | ok agreed ↦
      if agreed then saved file (upsert r p).1 overrode else (err registration_cancelled, none)
]

unfoldable pub enter : RegistryFile → Registry → Project → Ran Entered
unfolding saved
enter file r p = elim (add r p) [
  | ok r' ↦ saved file r' entered
  | err e ↦ (err (not_entered e), none)
]

unfoldable pub register_in : User → RegistryFile → Project → Registry → Ran Entered
unfolding override enter
register_in user file p r = elim (get r p.name) [
  | none ↦ enter file r p
  | some existing ↦
      if str_eq existing.path p.path then (ok already, none) else override user file r p
]

abbrev register_named : User → RegistryFile → Str → Outcome CommandError Str → Ran Entered
register_named user file path (err e) = (err e, none)
register_named user file path (ok name) =
    loaded file (register_in user file (record { name = name; path = path }))

-- `path` is the directory, resolved.
unfoldable pub cmd_register :
    User → RegistryFile → Str → Outcome DeclError ProjectName → Ran Entered
unfolding register_in
cmd_register user file path resolved = register_named user file path (chosen_name user resolved)

unfoldable pub unregister_in : RegistryFile → Str → Registry → Ran Project
unfolding saved
unregister_in file name r = elim (remove r name) [
  | err e ↦ (err (not_entered e), none)
  | ok removed ↦ saved file removed.1 removed.0
]

unfoldable pub cmd_unregister : RegistryFile → Str → Ran Project
unfolding unregister_in
cmd_unregister file name = loaded file (unregister_in file name)

-- The projects that are pruned; `is_dir` tells which paths are directories.
unfoldable pub prune_in : User → RegistryFile → (Str → Bool) → Registry → Ran (List Project)
unfolding saved confirm
prune_in user file is_dir r =
    let pruned = take_ghosts is_dir r in
    let asked : Ran (List Project) = elim (confirm user 0) [
      | err e ↦ (err e, none)
      | ok agreed ↦ if agreed then saved file pruned.1 pruned.0 else (err prune_cancelled, none)
    ] in
    if is_empty (take_ghosts is_dir r).0 then (ok [], none) else asked

unfoldable pub cmd_prune : User → RegistryFile → (Str → Bool) → Ran (List Project)
unfolding prune_in
cmd_prune user file is_dir = loaded file (prune_in user file is_dir)

unfoldable pub project_path : RegistryFile → Str → Outcome CommandError Str
project_path file name = elim file.load [
  | err e ↦ err (not_loaded e)
  | ok r ↦ elim (get r name) [ some p ↦ ok p.path | none ↦ err (unknown_project name) ]
]

-- The daemon: how it answers each request, in turn.
abbrev pub Daemon : Type 0
Daemon = Request → Outcome Str Response

unfoldable pub summaries : List ServiceRuntime → List Str
summaries [] = []
summaries (s ∷ ss) = summary s ∷ summaries ss

-- The lines on the services of the project that is up, where the daemon reports it.
unfoldable pub started_lines : Str → Outcome Str Response → List Str
unfolding summaries
started_lines name (ok (running projects)) = elim (find (λ p. str_eq p.name name) projects) [
  | some p ↦ summaries p.services
  | none ↦ []
]
started_lines name _ = []

abbrev daemon_done : Outcome Str Response → Outcome CommandError (Unit {0})
daemon_done (err e) = err (no_daemon e)
daemon_done (ok done) = ok tt
daemon_done (ok (failed message)) = err (refused_by_daemon message)
daemon_done (ok _) = err unexpected_response

-- What `cmd_up` prints before it goes on with the live view.
unfoldable pub cmd_up : Daemon → Str → Outcome CommandError (List Str)
unfolding started_lines
cmd_up daemon name = daemon_done (daemon (up name)) >>= λ _. ok (started_lines name (daemon status))

unfoldable pub cmd_down : Daemon → Str → Outcome CommandError (Unit {0})
cmd_down daemon name = daemon_done (daemon (down name))

abbrev daemon_running : Outcome Str Response → Outcome CommandError (List ProjectRuntime)
daemon_running (err e) = err (no_daemon e)
daemon_running (ok (running projects)) = ok projects
daemon_running (ok (failed message)) = err (refused_by_daemon message)
daemon_running (ok _) = err unexpected_response

-- The projects that `cmd_status` prints.
unfoldable pub cmd_status : Daemon → Outcome CommandError (List ProjectRuntime)
cmd_status daemon = daemon_running (daemon status)
