-- ===== src/Cli/Logs/Mux.antt =====
-- `ProcessLogMux` and `attach_new_process_streams` of crates/cli/src/logs.rs: the logs of the
-- processes of one runtime directory, followed together. `files` are the names in the directory of
-- the logs, and `disk_of` tells of each log file what stands at its path.
pub mod Attached
use neals.Prelude.{
  not, ℕ, Bool, true, false, ◌&&◌, Option, none, some, List, [], ◌∷◌, ◌++◌, max, map,
}
use neals.Prelude.Bools.{if◌then◌else◌, is_some}
use neals.Prelude.Lists.{length, any}
use neals.Prelude.Outcome.{Outcome, ok, err, ◌>>=◌}
use neals.Prelude.Text.{Str, codes, str_eq}
use neals.Prelude.Utf8.{utf8}
use neals.Cli.Logs.Follower.{Disk, LogFollower, open_at_end, open_with_tail, poll_lines}
use neals.Cli.Logs.Names.{process_log_names}

pub record ProcessLogMux : Type 0 where
  pub known : List (Str × Str)
  pub streams : List (Str × LogFollower)
  pub width : ℕ

unfoldable pub new_mux : ProcessLogMux
new_mux = record { known = []; streams = []; width = 1 }

unfoldable pub same_key : Str × Str → Str × Str → Bool
same_key a b = str_eq a.0 b.0 && str_eq a.1 b.1

unfoldable pub tagged : Str → List Str → List (Str × Str)
tagged name [] = []
tagged name (l ∷ ls) = (name, l) ∷ tagged name ls

-- A follower of the log, with the lines of its tail where one is asked for.
unfoldable pub open_stream : Option ℕ → Disk → Outcome Str (LogFollower × List Str)
open_stream none d = do s ← open_at_end d; ok (s, [])
open_stream (some n) d = open_with_tail d d n

unfoldable pub widened : ProcessLogMux → Str → ProcessLogMux
widened m name = record m { width = max m.width (length (utf8 name)) }

module _ (disk_of : Str → Str → Disk) where
  unfoldable pub add_stream :
      Option ℕ → ProcessLogMux → Str → Str → Outcome Str (ProcessLogMux × List (Str × Str))
  unfolding open_stream
  add_stream tail m name stream = do
    r ← open_stream tail (disk_of name stream)
    let n : ProcessLogMux = record m {
      known = m.known ++ (name, stream) ∷ [];
      streams = m.streams ++ (name, r.0) ∷ [];
    }
    ok (n, tagged name r.1)

  -- One round of the inner loop of `refresh`. An error ends the view, so the state behind it is not
  -- kept.
  unfoldable pub attach :
      Option ℕ → ProcessLogMux → Str → Str → Outcome Str (ProcessLogMux × List (Str × Str))
  unfolding add_stream
  attach tail m name stream =
      let fresh = add_stream tail m name stream in
      if is_some (disk_of name stream).at_path
      then (if any (same_key (name, stream)) m.known then ok (m, []) else fresh)
      else ok (m, [])

  unfoldable pub refresh_names :
      Option ℕ → ProcessLogMux → List Str → Outcome Str (ProcessLogMux × List (Str × Str))
  unfolding attach widened
  refresh_names tail m [] = ok (m, [])
  refresh_names tail m (name ∷ names) = do
    out ← attach tail (widened m name) name (codes "stdout")
    both ← attach tail out.0 name (codes "stderr")
    rest ← refresh_names tail both.0 names
    ok (rest.0, out.1 ++ both.1 ++ rest.1)

  unfoldable pub refresh :
      Option ℕ → ProcessLogMux → List Str → Outcome Str (ProcessLogMux × List (Str × Str))
  unfolding refresh_names
  refresh tail m files = refresh_names tail m (process_log_names files)

-- `disks` are what the streams' paths name, in their order.
unfoldable pub poll_streams :
    List (Disk × Str × LogFollower) → Outcome Str (List (Str × LogFollower) × List (Str × Str))
poll_streams [] = ok ([], [])
poll_streams ((d, name, s) ∷ streams) = do
  r ← poll_lines d s
  rest ← poll_streams streams
  ok ((name, r.0) ∷ rest.0, tagged name r.1 ++ rest.1)

-- One round of `attach_new_process_streams`: the paths that are attached, and the followers.
unfoldable pub attach_path :
    Disk → Str → List Str × List LogFollower → Outcome Str (List Str × List LogFollower)
attach_path d path s =
    let opened : Outcome Str (List Str × List LogFollower) =
      open_at_end d >>= λ f. ok (path ∷ s.0, s.1 ++ f ∷ []) in
    if is_some d.at_path && not (any (str_eq path) s.0) then opened else ok s

unfoldable pub attach_new_process_streams :
    Disk × Str
    → Disk × Str
    → List Str × List LogFollower
    → Outcome Str (List Str × List LogFollower)
unfolding attach_path
attach_new_process_streams out err_log s =
    attach_path out.0 out.1 s >>= λ t. attach_path err_log.0 err_log.1 t
