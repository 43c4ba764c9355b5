-- ===== src/Cli/Logs/Follower.antt =====
-- `LogFollower` of crates/cli/src/logs.rs, and a follower that polls a file as it grows.
pub mod Drained
pub mod Polls
pub mod Shown
use neals.Prelude.{ℕ, ◌+◌, ◌-◌, min, Bool, true, false, Option, none, some, List, [], ◌∷◌, ◌++◌}
use neals.Prelude.Bools.{◌==◌, ltb, leb, if◌then◌else◌}
use neals.Prelude.Lists.{length, take, drop}
use neals.Prelude.Outcome.{Outcome, ok, err, ◌>>=◌}
use neals.Prelude.Text.{Str, codes}
use neals.Prelude.Utf8.{from_utf8_lossy}
use neals.Cli.Logs.{tail_lines}

-- The path names a file by its number, or none.
pub record Disk : Type 0 where
  pub at_path : Option ℕ
  pub bytes : ℕ → Str

-- `file` is the number of the file that was opened, which a rotation leaves as it is.
pub record LogFollower : Type 0 where
  pub file : ℕ
  pub offset : ℕ
  pub pending : Str

unfoldable pub open_file : Disk → Outcome Str ℕ
open_file d = elim d.at_path [ none ↦ err (codes "failed to open") | some f ↦ ok f ]

unfoldable pub open_at_end : Disk → Outcome Str LogFollower
unfolding open_file
open_at_end d = do
  f ← open_file d
  let s : LogFollower = record { file = f; offset = length (d.bytes f); pending = [] }
  ok s

unfoldable pub open_from_offset : Disk → ℕ → Outcome Str LogFollower
unfolding open_file
open_from_offset d offset = do
  f ← open_file d
  let s : LogFollower = record { file = f; offset = min offset (length (d.bytes f)); pending = [] }
  ok s

unfoldable pub content : Disk → Option Str
content d = elim d.at_path [ none ↦ none | some f ↦ some (d.bytes f) ]

-- The log is read first, and opened again after that: `later` is the disk by then.
unfoldable pub open_with_tail : Disk → Disk → ℕ → Outcome Str (LogFollower × List Str)
open_with_tail d later n = do shown ← tail_lines (content d) n; s ← open_at_end later; ok (s, shown)

-- `trim_end_matches('\r')`
unfoldable pub trim_returns : Str → Str
trim_returns [] = []
trim_returns (c ∷ s) = elim (trim_returns s) [
  | [] ↦ if c == 13 then [] else c ∷ []
  | d ∷ t ↦ c ∷ d ∷ t
]

-- The loop that takes the lines out of `pending`; `cur` is the line that is open.
unfoldable pub drain_from : Str → Str → List Str × Str
unfolding trim_returns
drain_from cur [] = ([], cur)
drain_from cur (c ∷ s) =
    let closed = drain_from [] s in
    let longer = drain_from (cur ++ c ∷ []) s in
    if c == 10 then (trim_returns cur ∷ closed.0, closed.1) else longer

unfoldable pub drain_lines : Str → List Str × Str
drain_lines pending = drain_from [] pending

unfoldable pub read_exact : Str → ℕ → ℕ → Outcome Str Str
read_exact file offset size =
    if leb (offset + size) (length file)
    then ok (take size (drop offset file))
    else err (codes "failed to read")

-- A log that is shorter than what was read is a new one.
unfoldable pub reopened : LogFollower → ℕ → ℕ → LogFollower
reopened s here len =
    if ltb len s.offset then record { file = here; offset = 0; pending = [] } else s

unfoldable pub read_chunk : Disk → LogFollower → ℕ → Outcome Str (LogFollower × List Str)
unfolding read_exact drain_lines
read_chunk d s len = do
  chunk ← read_exact (d.bytes s.file) s.offset (len - s.offset)
  let drained = drain_lines (s.pending ++ from_utf8_lossy chunk)
  let t : LogFollower = record s { offset = len; pending = drained.1 }
  ok (t, drained.0)

unfoldable pub poll_at : Disk → LogFollower → Option ℕ → Outcome Str (LogFollower × List Str)
unfolding reopened read_chunk
poll_at d s none = err (codes "failed to stat")
poll_at d s (some here) =
    let len = length (d.bytes here) in
    let r = reopened s here len in
    let chunk = read_chunk d r len in if ltb r.offset len then chunk else ok (r, [])

unfoldable pub poll_lines : Disk → LogFollower → Outcome Str (LogFollower × List Str)
unfolding poll_at
poll_lines d s = poll_at d s d.at_path

-- The disk on which the path names file `f`, with this content.
unfoldable pub disk_with : Disk → ℕ → Str → Disk
disk_with d f file = record { at_path = some f; bytes = λ g. if g == f then file else d.bytes g }

-- The rounds of a followed log, with what is appended to the file before each of them, and all the
-- lines that they print.
unfoldable pub follow : Disk → Str → LogFollower → List Str → Outcome Str (LogFollower × List Str)
unfolding poll_lines disk_with
follow d file s [] = ok (s, [])
follow d file s (piece ∷ pieces) = do
  r ← poll_lines (disk_with d s.file (file ++ piece)) s
  rest ← follow d (file ++ piece) r.0 pieces
  ok (rest.0, r.1 ++ rest.1)
