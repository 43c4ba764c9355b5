-- ===== src/Cli/Logs/Follower/Shown.antt =====
-- The lines that a followed log shows, from `open_at_end` or `open_with_tail` of
-- crates/cli/src/logs.rs and the polls after that.
use neals.Prelude.{ℕ, List, some, [], ◌++◌, ◌≡◌, refl, ◌∙◌}
use neals.Prelude.Lists.{All, length}
use neals.Prelude.Outcome.{Outcome, ok, ◌>>=◌}
use neals.Prelude.Text.{contains_char, Str, unlines, lines}
use neals.Prelude.Text.Trim.{Lacks}
use neals.Prelude.Utf8.{from_utf8_lossy}
use neals.Daemon.Commands.{last_lines}
use neals.Cli.Logs.{concat}
use neals.Cli.Logs.Tail.Whole.{tail_lines_lem}
use neals.Cli.Logs.Follower.{
  Disk, LogFollower, drain_lines, follow, disk_with, open_at_end, open_file, open_with_tail,
  content,
}
use neals.Cli.Logs.Follower.Drained.{drain_from-Lacks, unlines-drain_from}
use neals.Cli.Logs.Follower.Polls.{
  IsWhole, decoded, decoded-concat, follow_grown, bytes_with, after,
}

-- A follower of file `f`, opened when the file is `file`, and its polls.
unfoldable pub followed : Disk → ℕ → Str → List Str → Outcome Str (LogFollower × List Str)
followed d f file pieces = open_at_end (disk_with d f file) >>= λ s. follow d file s pieces

-- The tail is read when the file is `file`, and the follower opened when it has grown by `gap`.
unfoldable pub tail_followed :
    Disk → ℕ → Str → Str → List Str → ℕ → Outcome Str (LogFollower × List Str)
tail_followed d f file gap pieces n = do
  r ← open_with_tail (disk_with d f file) (disk_with d f (file ++ gap)) n
  q ← follow d (file ++ gap) r.0 pieces
  ok (q.0, r.1 ++ q.1)

at_end : Disk → ℕ → Str → LogFollower
at_end d f file = record { file = f; offset = length file; pending = [] }

open_at_end-with :
    (d : Disk) (f : ℕ) (file : Str) → open_at_end (disk_with d f file) ≡ ok (at_end d f file)
unfolding open_at_end open_file disk_with at_end
open_at_end-with d f file = rw (bytes_with d f file) refl

content-with : (d : Disk) (f : ℕ) (file : Str) → content (disk_with d f file) ≡ some file
unfolding content disk_with
content-with d f file = rw (bytes_with d f file) refl

followed_grown :
    (d : Disk) (f : ℕ) (file : Str) (pieces : List Str)
    → followed d f file pieces
      ≡ ok (
        after (at_end d f file) (file ++ concat pieces) (decoded pieces),
        (drain_lines (decoded pieces)).0,
      )
unfolding followed at_end drain_lines contains_char
followed_grown d f file pieces =
    rw (open_at_end-with d f file) (follow_grown d file (at_end d f file) pieces refl refl)

-- However the text that is appended is cut by the polls, as long as no poll cuts a character: the
-- lines that are shown and what is pending are that text, once and in order, if it has no carriage
-- return.
pub followed_lem :
    (d : Disk) (f : ℕ) (file : Str) (pieces : List Str)
    → All IsWhole pieces
    → Lacks 13 (from_utf8_lossy (concat pieces))
    → (s : LogFollower) × (shown : List Str) × (followed d f file pieces ≡ ok (s, shown))
      × (unlines shown ++ s.pending ≡ from_utf8_lossy (concat pieces))
      × Lacks 10 s.pending
      × (s.offset ≡ length (file ++ concat pieces))
unfolding drain_lines at_end contains_char
followed_lem d f file pieces whole plain =
    let same = decoded-concat pieces whole in
    (
      _,
      _,
      followed_grown d f file pieces,
      unlines-drain_from [] (decoded pieces) refl (rw same plain) ∙ same,
      drain_from-Lacks [] (decoded pieces) refl,
      refl,
    )

-- What is appended between the reading of the tail and the opening of the follower is never shown.
pub tail_followed_lem :
    (d : Disk) (f : ℕ) (file gap : Str) (pieces : List Str) (n : ℕ)
    → (s : LogFollower) × (tail_followed d f file gap pieces n
        ≡ ok (s, last_lines n (lines (from_utf8_lossy file)) ++ (drain_lines (decoded pieces)).0))
unfolding tail_followed open_with_tail drain_lines at_end contains_char
tail_followed_lem d f file gap pieces n = (
  after (at_end d f (file ++ gap)) ((file ++ gap) ++ concat pieces) (decoded pieces),
  rw
      (
        content-with d f file,
        tail_lines_lem file n,
        open_at_end-with d f (file ++ gap),
        follow_grown d (file ++ gap) (at_end d f (file ++ gap)) pieces refl refl,
      )
      refl,
)
