-- ===== src/Cli/Refresh.antt =====
-- `neals refresh` of crates/cli/src/refresh.rs: what it removes, and in which order it goes on. A
-- path is absolute and does not end in a slash. The file system, the daemon, the user and the
-- programs that are run are parameters.
pub mod Wiped
use neals.Prelude.{ℕ, Bool, true, false, not, Option, none, some, List, [], ◌∷◌, ◌++◌, ◌||◌, ◌&&◌}
use neals.Prelude.Bools.{◌==◌, if◌then◌else◌}
use neals.Prelude.Lists.{any}
use neals.Prelude.Paths.{dot, dots, file_name, parent}
use neals.Prelude.Outcome.{Outcome, ok, err, ◌>>=◌}
use neals.Prelude.Text.{Str, codes, str_eq, is_empty, contains_char}
use neals.Common.Ipc.{ProjectRuntime}
use neals.Common.Registry.{Project, Registry, get}
use neals.Common.Xdg.{join}

pub data RefreshError : Type 0 where
  not_registered path_missing unsafe_name refused not_resolved not_removed not_confirmed :
      Str → RefreshError
  not_asked not_stopped not_updated not_evaluated : RefreshError

pub record FileSystem : Type 0 where
  pub exists : Str → Bool
  pub is_dir : Str → Bool
  pub is_file : Str → Bool
  pub has_metadata : Str → Bool
  pub canonicalize : Str → Outcome Str Str
  pub remove : Str → Outcome Str (Unit {0})

unfoldable pub is_safe_project_name : Str → Bool
is_safe_project_name name =
    not (is_empty name)
    && not (contains_char name b'/')
    && not (contains_char name b'\\')
    && not (str_eq name dot)
    && not (str_eq name dots)
    && not (contains_char name 0)

abbrev pub system_root : Str
system_root = codes "/run/neals"

-- `runtime` is the runtime directory, `none` where it is not known; `system` tells whether the
-- socket or the directory of the system's daemon is there.
unfoldable pub managed_runtime_roots : Option Str → Bool → List Str
managed_runtime_roots none system = if system then system_root ∷ [] else []
managed_runtime_roots (some r) system =
    if system && not (str_eq r system_root) then r ∷ system_root ∷ [] else r ∷ []

unfoldable pub under : Str → List Str → List Str
under name [] = []
under name (root ∷ roots) = join root name ∷ under name roots

unfoldable pub managed_wipe_targets : List Str → Str → Str → List Str
unfolding under
managed_wipe_targets roots name project_path =
    join project_path (codes ".devenv") ∷ join project_path (codes ".neals") ∷ under name roots

module _ (fs : FileSystem) where
  unfoldable pub canonical_or : Str → Str
  canonical_or path = elim (fs.canonicalize path) [ ok c ↦ c | err e ↦ path ]

  -- A directory of the project itself: its parent must resolve to the project.
  unfoldable pub parent_agrees : Str → Str → Bool
  unfolding parent canonical_or
  parent_agrees path canon_root = elim (parent path) [
    | none ↦ true
    | some dir ↦ if fs.exists dir then str_eq (canonical_or dir) canon_root else true
  ]

  unfoldable pub is_runtime_path : List Str → Str → Str → Bool
  unfolding file_name parent
  is_runtime_path roots path project = elim (file_name path) [
    | none ↦ false
    | some name ↦
        if str_eq name project
        then elim (parent path) [ none ↦ false | some dir ↦ any (λ root. str_eq dir root) roots ]
        else false
  ]

  unfoldable pub is_allowed_wipe_path : List Str → Str → Str → Str → Outcome RefreshError Bool
  unfolding parent_agrees is_runtime_path
  is_allowed_wipe_path roots path project project_root = elim (fs.canonicalize project_root) [
    | err e ↦ err (not_resolved project_root)
    | ok canon_root ↦
        if str_eq path (join project_root (codes ".devenv"))
        then ok (parent_agrees path canon_root)
        else if str_eq path (join project_root (codes ".neals"))
        then ok (parent_agrees path canon_root)
        else ok (is_runtime_path roots path project)
  ]

  abbrev pub removed_path : Str → Outcome RefreshError (List Str)
  removed_path path = elim (fs.remove path) [
    | ok u ↦ ok (path ∷ [])
    | err e ↦ err (not_removed path)
  ]

  abbrev remove_if : Str → Bool → Outcome RefreshError (List Str)
  remove_if path allowed =
      if allowed
      then (if fs.is_dir path || fs.is_file path || fs.has_metadata path
          then removed_path path
          else ok [])
      else err (refused path)

  -- The path, if it was removed.
  unfoldable pub remove_managed_path : List Str → Str → Str → Str → Outcome RefreshError (List Str)
  unfolding is_allowed_wipe_path
  remove_managed_path roots path project project_root =
      if fs.exists path
      then is_allowed_wipe_path roots path project project_root >>= remove_if path
      else ok []

  -- What was removed, also where the next removal fails.
  unfoldable pub remove_all :
      List Str → List Str → Str → Str → List Str × Outcome RefreshError (Unit {0})
  unfolding remove_managed_path
  remove_all roots [] project project_root = ([], ok tt)
  remove_all roots (path ∷ paths) project project_root =
      let rest = remove_all roots paths project project_root in
      elim (remove_managed_path roots path project project_root) [
        | err e ↦ ([], err e)
        | ok gone ↦ (gone ++ rest.0, rest.1)
      ]

  unfoldable pub wipe_managed_state :
      List Str → Str → Str → List Str × Outcome RefreshError (Unit {0})
  unfolding remove_all managed_wipe_targets
  wipe_managed_state roots name project_path =
      remove_all roots (managed_wipe_targets roots name project_path) name project_path

  unfoldable pub resolve_registered : Registry → Str → Outcome RefreshError Project
  unfolding is_safe_project_name
  resolve_registered r name = elim (get r name) [
    | none ↦ err (not_registered name)
    | some p ↦
        if fs.is_dir p.path
        then (if is_safe_project_name p.name then ok p else err (unsafe_name p.name))
        else err (path_missing name)
  ]

-- What a refresh has done.
pub data RefreshStep : Type 0 where
  stopped updated evaluated : RefreshStep
  wiped : List Str → RefreshStep

-- The answers that a refresh meets: of the user, of the daemon, and of the programs that it runs.
pub record RefreshEnv : Type 0 where
  pub asked : Outcome RefreshError Bool
  pub projects : Outcome RefreshError (List ProjectRuntime)
  pub down : Outcome RefreshError (Unit {0})
  pub update : Outcome RefreshError (Unit {0})
  pub evaluate : Outcome RefreshError (Unit {0})

-- The steps that were done, and how it ended: `false` where the user declined.
abbrev pub Refreshed : Type 0
Refreshed = List RefreshStep × Outcome RefreshError Bool

abbrev pub and_then : List RefreshStep × Outcome RefreshError (Unit {0}) → Refreshed → Refreshed
and_then (steps, err e) rest = (steps, err e)
and_then (steps, ok u) rest = (steps ++ rest.0, rest.1)

abbrev noted :
    RefreshStep
    → Outcome RefreshError (Unit {0})
    → List RefreshStep × Outcome RefreshError (Unit {0})
noted step (ok u) = (step ∷ [], ok u)
noted step (err e) = ([], err e)

unfoldable pub stop_if_running :
    RefreshEnv → Str → List RefreshStep × Outcome RefreshError (Unit {0})
stop_if_running env name = elim env.projects [
  | err e ↦ ([], err e)
  | ok ps ↦ if any (λ p. str_eq p.name name) ps then noted stopped env.down else ([], ok tt)
]

abbrev if_asked :
    Bool
    → List RefreshStep × Outcome RefreshError (Unit {0})
    → List RefreshStep × Outcome RefreshError (Unit {0})
if_asked true act = act
if_asked false act = ([], ok tt)

abbrev wipe_step :
    List Str × Outcome RefreshError (Unit {0}) → List RefreshStep × Outcome RefreshError (Unit {0})
wipe_step (gone, result) = (wiped gone ∷ [], result)

-- The steps from the stop on.
unfoldable pub refresh_project :
    FileSystem → RefreshEnv → List Str → Project → Bool → Bool → Refreshed
unfolding stop_if_running wipe_managed_state
refresh_project fs env roots p update hard = and_then (stop_if_running env p.name) (
    and_then (if_asked hard (wipe_step (wipe_managed_state fs roots p.name p.path))) (
      and_then (if_asked update (noted updated env.update))
        (and_then (noted evaluated env.evaluate) ([], ok true))))

unfoldable pub run : FileSystem → RefreshEnv → List Str → Registry → Str → Bool → Bool → Refreshed
unfolding refresh_project resolve_registered
run fs env roots r name update hard = elim (resolve_registered fs r name) [
  | err e ↦ ([], err e)
  | ok p ↦
      if hard
      then elim env.asked [
        | err e ↦ ([], err e)
        | ok false ↦ ([], ok false)
        | ok true ↦ refresh_project fs env roots p update hard
      ]
      else refresh_project fs env roots p update hard
]
