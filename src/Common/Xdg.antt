-- ===== src/Common/Xdg.antt =====
-- crates/common/src/xdg.rs: the directories of neals, the daemon's socket, and the log that is opened.
-- A variable of the environment is `none` where it is not set.
pub mod Rotation
use neals.Prelude.{ℕ, ◌*◌, Bool, true, false, not, ◌&&◌, Option, none, some, List, [], ◌∷◌, ◌++◌}
use neals.Prelude.Bools.{ltb, if◌then◌else◌}
use neals.Prelude.Lists.{length}
use neals.Prelude.Outcome.{Outcome, ok, err}
use neals.Prelude.Text.{Str, codes, str_eq, trim, is_empty}

-- `path.join(name)`, of a relative name and a directory that does not end in a slash.
abbrev pub join : Str → Str → Str
join dir name = dir ++ b'/' ∷ name

unfoldable pub home_dir : Option Str → Outcome Str Str
home_dir none = err (codes "$HOME is not set")
home_dir (some home) = ok home

unfoldable pub config_dir_with : Option Str → Str → Str
config_dir_with (some xdg) home = join xdg (codes "neals")
config_dir_with none home = join (join home (codes ".config")) (codes "neals")

unfoldable pub state_dir_with : Option Str → Str → Str
state_dir_with (some xdg) home = join xdg (codes "neals")
state_dir_with none home = join (join (join home (codes ".local")) (codes "state")) (codes "neals")

unfoldable pub runtime_dir_with : Option Str → Str
runtime_dir_with (some xdg) = join xdg (codes "neals")
runtime_dir_with none = codes "/tmp/neals"

abbrev in_home : (Str → Str) → Outcome Str Str → Outcome Str Str
in_home dir (ok home) = ok (dir home)
in_home dir (err e) = err e

-- `HOME` is asked for even where the XDG variable is set.
unfoldable pub config_dir : Option Str → Option Str → Outcome Str Str
config_dir xdg home = in_home (config_dir_with xdg) (home_dir home)

unfoldable pub state_dir : Option Str → Option Str → Outcome Str Str
state_dir xdg home = in_home (state_dir_with xdg) (home_dir home)

unfoldable pub projects_file : Option Str → Option Str → Outcome Str Str
projects_file xdg home = in_home (λ dir. join dir (codes "projects.json")) (config_dir xdg home)

abbrev pub system_daemon_socket : Str
system_daemon_socket = codes "/run/neals/nealsd.sock"

unfoldable pub is_system_daemon_socket : Str → Bool
is_system_daemon_socket path = str_eq path system_daemon_socket

abbrev default_socket : Bool → Str → Str
default_socket system_exists runtime =
    if system_exists then system_daemon_socket else join runtime (codes "nealsd.sock")

unfoldable pub daemon_socket_with : Option Str → Bool → Str → Str
daemon_socket_with none system_exists runtime = default_socket system_exists runtime
daemon_socket_with (some raw) system_exists runtime =
    if is_empty (trim raw) then default_socket system_exists runtime else trim raw

abbrev pub log_max_bytes : ℕ
log_max_bytes = 8 * 1024 * 1024

-- A log and the file beside it that it is moved to, by their bytes.
pub record LogFiles : Type 0 where
  pub current : Option (List ℕ)
  pub rotated : Option (List ℕ)

-- The metadata can be read where there is a log.
abbrev pub is_too_long : Option (List ℕ) → Bool
is_too_long none = false
is_too_long (some bytes) = ltb log_max_bytes (length bytes)

abbrev pub or_new : Option (List ℕ) → List ℕ
or_new none = []
or_new (some bytes) = bytes

-- The log after the rename, which is tried where it is too long; its failure is passed over.
abbrev pub rotate : Bool → LogFiles → LogFiles
rotate renames files =
    if is_too_long files.current && renames
    then record { current = none; rotated = files.current }
    else files

-- `opens`: whether the log can be opened for appending, which creates it where there is none.
unfoldable pub open_log :
    Bool → Outcome Str (Unit {0}) → LogFiles → Outcome Str (Unit {0}) × LogFiles
open_log renames opens files =
    let moved = rotate renames files in
    elim opens [
      | ok u ↦ (ok tt, record moved { current = some (or_new moved.current) })
      | err e ↦ (err e, moved)
    ]
