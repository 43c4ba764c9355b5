-- ===== src/Tests/Logs.antt =====
-- Logs that are read at their end, followed, and followed together.
use neals.Prelude.{◌||◌, none, some, List, [], ◌∷◌, ◌++◌, ◌≡◌, refl}
use neals.Prelude.Bools.{if◌then◌else◌}
use neals.Prelude.Lists.{All, any, length}
use neals.Prelude.Outcome.{ok}
use neals.Prelude.Text.{Str, codes, lines, unlines, str_eq, contains_char}
use neals.Prelude.Text.Trim.{Lacks}
use neals.Prelude.Utf8.{
  from_utf8_lossy, decode_from, byte_step, start_char, next_byte, utf8, encode_char,
}
use neals.Daemon.Commands.{last_lines}
use neals.Cli.Logs.{tail_lines, concat}
use neals.Cli.Logs.Tail.Whole.{tail_lines_lem}
use neals.Cli.Logs.Follower.{open_at_end, open_file, Disk, LogFollower, drain_lines}
use neals.Cli.Logs.Follower.Polls.{IsWhole, decoded}
use neals.Cli.Logs.Follower.Shown.{followed, followed_lem, tail_followed, tail_followed_lem}
use neals.Cli.Logs.Names.{
  log_names, log_name, strip_suffix, sort_names, insert_name, dedup, dedup_after, process_log_names,
  stdout_suffix, stderr_suffix,
}
use neals.Cli.Logs.Names.Listed.{IsIncreasing, process_log_names_lem}
use neals.Cli.Logs.Mux.{
  refresh_names, widened, attach, add_stream, open_stream, tagged, same_key, ProcessLogMux, new_mux,
  refresh,
}
use neals.Cli.Logs.Mux.Attached.{IsMux, Settled, refresh_lem}

abbrev two_lines : Str
two_lines = codes "a\nb\nc"

tail_lines_lem_example :
    tail_lines (some two_lines) 2 ≡ ok (last_lines 2 (lines (from_utf8_lossy two_lines)))
tail_lines_lem_example = tail_lines_lem two_lines 2

abbrev no_disk : Disk
no_disk = record { at_path = none; bytes = λ f. [] }

abbrev two_pieces : List Str
two_pieces = codes "on" ∷ codes "e\ntwo" ∷ []

two_pieces-AreWhole : All IsWhole two_pieces
unfolding byte_step start_char next_byte
two_pieces-AreWhole = (refl, (refl, tt))

two_pieces-Lacks : Lacks 13 (from_utf8_lossy (concat two_pieces))
unfolding from_utf8_lossy decode_from byte_step start_char next_byte concat contains_char
two_pieces-Lacks = refl

followed_lem_example :
    (s : LogFollower) × (shown : List Str) × (followed no_disk 7 two_lines two_pieces
      ≡ ok (s, shown))
    × (unlines shown ++ s.pending ≡ from_utf8_lossy (concat two_pieces))
    × Lacks 10 s.pending
    × (s.offset ≡ length (two_lines ++ concat two_pieces))
followed_lem_example =
    followed_lem no_disk 7 two_lines two_pieces two_pieces-AreWhole two_pieces-Lacks

tail_followed_lem_example :
    (s : LogFollower) × (tail_followed no_disk 7 two_lines (codes "lost\n") two_pieces 2
      ≡ ok (
        s,
        last_lines 2 (lines (from_utf8_lossy two_lines)) ++ (drain_lines (decoded two_pieces)).0,
      ))
tail_followed_lem_example = tail_followed_lem no_disk 7 two_lines (codes "lost\n") two_pieces 2

abbrev short_disk : Disk
short_disk = record { at_path = some 4; bytes = λ f. two_lines }

abbrev web_logs : List Str
web_logs = codes "web.stderr.log" ∷ codes "db.stdout.log" ∷ codes "web.stdout.log" ∷ codes "x" ∷ []

process_log_names_lem_example :
    IsIncreasing (process_log_names web_logs)
    × ((name : Str)
        → any (str_eq name) (process_log_names web_logs) ≡ (
            any (str_eq (name ++ stdout_suffix)) web_logs
            || any (str_eq (name ++ stderr_suffix)) web_logs))
process_log_names_lem_example = process_log_names_lem web_logs

web_disk : Str → Str → Disk
web_disk name stream = if str_eq stream (codes "stdout") then short_disk else no_disk

abbrev web_files : List Str
web_files = codes "web.stdout.log" ∷ []

abbrev web_mux : ProcessLogMux
web_mux = record {
  known = (codes "web", codes "stdout") ∷ [];
  streams = (codes "web", record { file = 4; offset = 5; pending = [] }) ∷ [];
  width = 3;
}

refresh-web : refresh web_disk none new_mux web_files ≡ ok (web_mux, [])
unfolding refresh new_mux refresh_names widened attach add_stream open_stream open_at_end open_file
    tagged process_log_names log_names log_name strip_suffix sort_names insert_name dedup
    dedup_after str_eq utf8 encode_char any same_key web_disk
refresh-web = refl

new_mux-IsMux : IsMux new_mux
unfolding new_mux
new_mux-IsMux = record { distinct = tt; followed = refl }

refresh_lem_example :
    IsMux web_mux
    × All (Settled web_disk web_mux) (process_log_names web_files)
    × (refresh web_disk (some 10) web_mux web_files ≡ ok (web_mux, []))
refresh_lem_example =
    refresh_lem web_disk none (some 10) new_mux web_files web_mux [] new_mux-IsMux refresh-web
