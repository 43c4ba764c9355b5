-- ===== src/Cli/Live.antt =====
-- The live view of crates/cli/src/live.rs. One turn of its loop meets a `Look`: the key that was
-- pressed, the daemon's answer, and what the files hold by then.
pub mod Ends
pub mod Waits
use neals.Prelude.{
  ℕ, ◌+◌, ◌%◌, max, Bool, true, false, not, ◌&&◌, Option, none, some, List, [], ◌∷◌, ◌++◌,
}
use neals.Prelude.Bools.{◌==◌, ltb, if◌then◌else◌}
use neals.Prelude.Lists.{find}
use neals.Prelude.Outcome.{Outcome, ok, err, ◌>>=◌}
use neals.Prelude.Text.{Str, codes, str_eq}
use neals.Common.Ipc.{Response, ProjectRuntime, running}
use neals.Cli.Dedup.{CrossDeduper, new_deduper, take_process, take_merged}
use neals.Cli.Logs.Follower.{
  Disk, LogFollower, open_at_end, open_from_offset, open_with_tail, poll_lines,
}
use neals.Cli.Logs.Names.{format_process_line}
use neals.Cli.Logs.Mux.{ProcessLogMux, new_mux, refresh, poll_streams}

pub data LiveOutcome : Type 0 where
  detached stopped exited shell : LiveOutcome

-- The keys that are pressed with Control, and any other. At Control-C and Control-X the daemon is
-- asked to stop the project, whatever it answers.
pub data Key : Type 0 where
  ctrl_q ctrl_b ctrl_c ctrl_x other_key : Key

abbrev pub discover_every : ℕ
discover_every = 5

abbrev pub devenv_stream : Str
devenv_stream = codes "devenv"

-- `alive` tells which pids have a directory in /proc, and `files` are the names in the directory of
-- the process logs, where the runtime directory is known.
pub record Look : Type 0 where
  pub key : Outcome Str (Option Key)
  pub alive : ℕ → Bool
  pub status : Outcome Str Response
  pub runtime_known : Bool
  pub files : List Str
  pub disk_of : Str → Str → Disk
  pub merged_disk : Disk

pub record View : Type 0 where
  pub mux : Option ProcessLogMux
  pub ticks : ℕ
  pub dedup : CrossDeduper
  pub netns_pid : Option ℕ
  pub merged : LogFollower
  pub devenv_width : ℕ

unfoldable pub netns_alive : (ℕ → Bool) → ℕ → Bool
netns_alive alive pid = ltb 1 pid && alive pid

abbrev pub dead : (ℕ → Bool) → Option ℕ → Bool
dead alive none = false
dead alive (some pid) = not (netns_alive alive pid)

-- What the daemon reports of the project.
unfoldable pub reported_gone : Str → Option ℕ → Outcome Str Response → Bool × Option ℕ
reported_gone project known (ok (running projects)) =
    elim (find (λ p. str_eq p.name project) projects) [
      | none ↦ (true, known)
      | some p ↦ (false, (if ltb 1 p.netns_pid then some p.netns_pid else known))
    ]
reported_gone project known _ = (false, known)

unfoldable pub project_gone : Str → (ℕ → Bool) → Outcome Str Response → Option ℕ → Bool × Option ℕ
unfolding reported_gone
project_gone project alive status known =
    if dead alive known then (true, known) else reported_gone project known status

-- The lines that the other log has not shown, with the prefix of their process.
unfoldable pub show_process : ℕ → CrossDeduper → List (Str × Str) → CrossDeduper × List Str
show_process width d [] = (d, [])
show_process width d ((name, line) ∷ lines) =
    let taken = take_process d line in
    let rest = show_process width taken.1 lines in
    (rest.0, (if taken.0 then format_process_line name width line ∷ rest.1 else rest.1))

unfoldable pub show_merged : ℕ → CrossDeduper → List Str → CrossDeduper × List Str
show_merged width d [] = (d, [])
show_merged width d (line ∷ lines) =
    let taken = take_merged d line in
    let rest = show_merged width taken.1 lines in
    (rest.0, (if taken.0 then format_process_line devenv_stream width line ∷ rest.1 else rest.1))

-- Each stream with what stands at its path.
unfoldable pub with_disks :
    (Str → Str → Disk)
    → List (Str × Str)
    → List (Str × LogFollower)
    → List (Disk × Str × LogFollower)
with_disks disk_of (k ∷ ks) (s ∷ ss) = (disk_of k.0 k.1, s.0, s.1) ∷ with_disks disk_of ks ss
with_disks disk_of _ _ = []

unfoldable pub refresh_view : Look → View → ProcessLogMux → Outcome Str (View × List Str)
unfolding show_process
refresh_view look v m = do
  r ← refresh look.disk_of none m look.files
  let shown = show_process r.0.width v.dedup r.1
  let w : View = record v {
    mux = some r.0;
    dedup = shown.0;
    devenv_width = max v.devenv_width r.0.width;
  }
  ok (w, shown.1)

-- The multiplexer is made when the runtime directory is first known.
unfoldable pub discover : Look → View → Outcome Str (View × List Str)
unfolding refresh_view
discover look v = elim v.mux [
  | some m ↦ refresh_view look v m
  | none ↦ if look.runtime_known then refresh_view look v new_mux else ok (v, [])
]

abbrev pub width_of : View → ℕ
width_of v = elim v.mux [ none ↦ v.devenv_width | some m ↦ max m.width v.devenv_width ]

unfoldable pub poll_mux : Look → View → Outcome Str (View × List Str)
unfolding show_process with_disks
poll_mux look v = elim v.mux [
  | none ↦ ok (v, [])
  | some m ↦ poll_streams (with_disks look.disk_of m.known m.streams) >>= λ r.
      let shown = show_process (width_of v) v.dedup r.1 in
      let n : ProcessLogMux = record m { streams = r.0 } in
      let w : View = record v { mux = some n; dedup = shown.0 } in ok (w, shown.1)
]

unfoldable pub poll_merged : Look → View → Outcome Str (View × List Str)
unfolding show_merged
poll_merged look v = do
  r ← poll_lines look.merged_disk v.merged
  let shown = show_merged (width_of v) v.dedup r.1
  let w : View = record v { merged = r.0; dedup = shown.0 }
  ok (w, shown.1)

-- The view goes on with what it has shown, or it ends.
pub data Turn : Type 0 where
  goes_on : View → List Str → Turn
  leaves : LiveOutcome → Turn
  breaks : Str → Turn

abbrev pub turn_of : Outcome Str (View × List Str) → Turn
turn_of (ok r) = goes_on r.0 r.1
turn_of (err e) = breaks e

abbrev pub read_logs : Look → View → Outcome Str (View × List Str)
read_logs look v = poll_mux look v >>= λ a. poll_merged look a.0 >>= λ b. ok (b.0, a.1 ++ b.1)

unfoldable pub discover_turn : Look → View → Turn
unfolding discover poll_mux poll_merged
discover_turn look v =
    turn_of (discover look v >>= λ a. read_logs look a.0 >>= λ b. ok (b.0, a.1 ++ b.1))

-- Every fifth tick the daemon is asked; a tick is a `u8`, which wraps.
unfoldable pub tick : Str → Look → View → Turn
unfolding discover_turn project_gone poll_mux poll_merged
tick project look v =
    let t = (v.ticks + 1) % 256 in
    let n : View = record v { ticks = t } in
    let gone = project_gone project look.alive look.status v.netns_pid in
    let asked : View = record n { netns_pid = gone.1 } in
    let plain = turn_of (read_logs look n) in
    let found = discover_turn look asked in
    if t % discover_every == 0 then (if gone.0 then leaves exited else found) else plain

unfoldable pub checked_tick : Str → Look → View → Turn
unfolding tick
checked_tick project look v =
    let next = tick project look v in if dead look.alive v.netns_pid then leaves exited else next

abbrev pub key_turn : Turn → Key → Turn
key_turn next ctrl_q = leaves detached
key_turn next ctrl_b = leaves shell
key_turn next ctrl_c = leaves stopped
key_turn next ctrl_x = leaves stopped
key_turn next other_key = next

-- Keys are read on a terminal only.
unfoldable pub follow_step : Bool → Str → Look → View → Turn
unfolding checked_tick
follow_step raw project look v =
    let next = checked_tick project look v in
    let keyed : Turn = elim look.key [
      | err e ↦ breaks e
      | ok none ↦ next
      | ok (some k) ↦ key_turn next k
    ] in
    if raw then keyed else next

unfoldable pub follow_loop : Bool → Str → View → List Look → Turn
unfolding follow_step
follow_loop raw project v [] = goes_on v []
follow_loop raw project v (look ∷ looks) = elim (follow_step raw project look v) [
  | goes_on w shown ↦ follow_loop raw project w looks
  | leaves o ↦ leaves o
  | breaks e ↦ breaks e
]

unfoldable pub attach_devenv_merged :
    Disk → Disk → Bool → Option ℕ → Outcome Str (LogFollower × List Str)
attach_devenv_merged d later from_start (some offset) =
    open_from_offset d offset >>= λ s. poll_lines later s
attach_devenv_merged d later true none = open_at_end d >>= λ s. ok (s, [])
attach_devenv_merged d later false none = open_with_tail d later 100

-- The view before its first turn.
unfoldable pub first_view : Str → Look → LogFollower → View
unfolding project_gone
first_view project look s = record {
  mux = none;
  ticks = 0;
  dedup = new_deduper 128;
  netns_pid = (project_gone project look.alive look.status none).1;
  merged = s;
  devenv_width = 6;
}
