-- ===== src/Cli/Live/Waits.antt =====
-- The waits of crates/cli/src/logs.rs: `wait_for_log_file`, and `wait_for_process_logs`, which ends
-- when the log of a process appears, when there are only others, or when the project is gone.
pub mod Bounded
use neals.Prelude.{
  ℕ, zero, suc, ◌%◌, Bool, true, false, not, ◌&&◌, ◌||◌, Option, none, some, List, [], ◌∷◌,
}
use neals.Prelude.Bools.{◌==◌, leb, if◌then◌else◌, is_some}
use neals.Prelude.Lists.{any}
use neals.Prelude.Outcome.{Outcome, ok, err, ◌>>=◌}
use neals.Prelude.Text.{Str, codes, str_eq, is_empty}
use neals.Common.Ipc.{Response}
use neals.Cli.Live.{dead, project_gone, devenv_stream}
use neals.Cli.Logs.Follower.{Disk, LogFollower, open_at_end, poll_lines}
use neals.Cli.Logs.Names.{process_log_names, format_process_line}

-- `is_file` tells of each look whether the file is there, the last look first. There are 20 looks
-- before a pause, and one after the last.
unfoldable pub log_file_rounds : ℕ → (ℕ → Bool) → Bool
log_file_rounds zero is_file = is_file 0
log_file_rounds (suc n) is_file =
    let rest = log_file_rounds n is_file in if is_file (suc n) then true else rest

unfoldable pub wait_for_log_file : (ℕ → Bool) → Str → Outcome Str Str
unfolding log_file_rounds
wait_for_log_file is_file path =
    if log_file_rounds 20 is_file then ok path else err (codes "no log file")

-- What one round of the wait meets.
pub record Sight : Type 0 where
  pub alive : ℕ → Bool
  pub status : Outcome Str Response
  pub out_there : Bool
  pub err_there : Bool
  pub files : List Str
  pub merged_disk : Disk

pub record Waiting : Type 0 where
  pub ticks : ℕ
  pub netns_pid : Option ℕ
  pub merged : Option LogFollower

pub data Ending : Type 0 where
  ready stopped_before nothing_yet : Ending
  only_others : List Str → Ending
  broken : Str → Ending

pub data Wait : Type 0 where
  waits : Waiting → List Str → Wait
  over : Ending → Wait

unfoldable pub devenv_lines : List Str → List Str
devenv_lines [] = []
devenv_lines (l ∷ ls) = format_process_line devenv_stream 6 l ∷ devenv_lines ls

abbrev followed_merged :
    Outcome Str (LogFollower × List Str) → Outcome Str (Option LogFollower × List Str)
followed_merged (ok r) = ok (some r.0, devenv_lines r.1)
followed_merged (err e) = err e

abbrev opened_merged : Outcome Str LogFollower → Outcome Str (Option LogFollower × List Str)
opened_merged (ok s) = ok (some s, [])
opened_merged (err e) = err e

-- The project's own log is followed once it is there.
unfoldable pub show_bootstrap :
    Disk → Option LogFollower → Outcome Str (Option LogFollower × List Str)
unfolding devenv_lines
show_bootstrap d (some s) = followed_merged (poll_lines d s)
show_bootstrap d none = if is_some d.at_path then opened_merged (open_at_end d) else ok (none, [])

abbrev given_up : List Str → Ending
given_up [] = nothing_yet
given_up (n ∷ names) = only_others (n ∷ names)

-- Without `follow` the wait gives up at the 150th tick.
unfoldable pub bootstrap_turn : Bool → Sight → Waiting → Wait
unfolding show_bootstrap
bootstrap_turn follow look s = elim (show_bootstrap look.merged_disk s.merged) [
  | err e ↦ over (broken e)
  | ok r ↦
      if not follow && leb 150 s.ticks
      then over (given_up (process_log_names look.files))
      else waits (record s { merged = r.0 }) r.1
]

unfoldable pub names_turn : Bool → Str → Sight → Waiting → Wait
unfolding bootstrap_turn
names_turn follow process look s =
    let names = process_log_names look.files in
    let next = bootstrap_turn follow look s in
    if look.out_there || look.err_there
    then over ready
    else if not (is_empty names) && not (any (str_eq process) names)
    then over (only_others names)
    else next

unfoldable pub wait_turn : Bool → Str → Str → Sight → Waiting → Wait
unfolding names_turn project_gone
wait_turn follow project process look s =
    let gone = project_gone project look.alive look.status s.netns_pid in
    let counted : Waiting = record s { ticks = suc s.ticks } in
    let asked : Waiting = record s { ticks = suc s.ticks; netns_pid = gone.1 } in
    let plain = names_turn follow process look counted in
    let again = names_turn follow process look asked in
    if dead look.alive s.netns_pid
    then over stopped_before
    else if suc s.ticks % 5 == 0
    then (if gone.0 then over stopped_before else again)
    else plain

unfoldable pub wait_for_process_logs : Bool → Str → Str → Waiting → List Sight → Wait
unfolding wait_turn
wait_for_process_logs follow project process s [] = waits s []
wait_for_process_logs follow project process s (look ∷ looks) =
    elim (wait_turn follow project process look s) [
      | waits t shown ↦ wait_for_process_logs follow project process t looks
      | over e ↦ over e
    ]
