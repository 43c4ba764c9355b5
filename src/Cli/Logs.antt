-- ===== src/Cli/Logs.antt =====
-- `tail_lines` and `LogFollower` of crates/cli/src/logs.rs, on files of bytes. The directory of the
-- log names a file by its number, and a follower holds the number that it opened; what is read does
-- not change while one operation runs.
pub mod Tail
pub mod Follower
pub mod Names
pub mod Mux
use neals.Prelude.{
  ℕ, suc, zero, ◌+◌, ◌-◌, min, Bool, true, false, Option, none, some, List, [], ◌∷◌, ◌++◌, reverse,
}
use neals.Prelude.Bools.{◌==◌, ltb, leb, if◌then◌else◌}
use neals.Prelude.Lists.{length, take, drop}
use neals.Prelude.Outcome.{Outcome, ok, err, ◌>>=◌}
use neals.Prelude.Text.{Str, codes, is_empty, lines}
use neals.Prelude.Utf8.{from_utf8_lossy}

abbrev pub tail_block : ℕ
tail_block = 8192

abbrev pub log_tail_lines : ℕ
log_tail_lines = 100

-- A block is read from its end; `after` are the bytes behind the one that is read. Behind the first
-- line feed over the threshold the block is cut.
unfoldable pub scan_block : ℕ → ℕ → Str → Str → Option Str × ℕ
scan_block threshold count after [] = (none, count)
scan_block threshold count after (b ∷ before) =
    let on = scan_block threshold count (b ∷ after) before in
    let on_line = scan_block threshold (suc count) (b ∷ after) before in
    if b == 10 then (if ltb threshold (suc count) then (some after, suc count) else on_line) else on

-- `blocks` stands in the order of the file.
unfoldable pub tail_loop : ℕ → Str → ℕ → ℕ → ℕ → List Str → List Str
unfolding scan_block
tail_loop zero file threshold pos count blocks = blocks
tail_loop (suc fuel) file threshold pos count blocks =
    let size = min pos tail_block in
    let block = take size (drop (pos - size) file) in
    let (cut, seen) = scan_block threshold count [] (reverse block) in
    let rest = tail_loop fuel file threshold (pos - size) seen (block ∷ blocks) in
    if ltb 0 pos
    then (if leb count threshold
        then elim cut [ some part ↦ part ∷ blocks | none ↦ rest ]
        else blocks)
    else blocks

unfoldable pub concat : List Str → Str
concat [] = []
concat (b ∷ bs) = b ++ concat bs

-- Whether the last byte is a line feed.
unfoldable pub ends_line : Str → Bool
ends_line [] = false
ends_line (b ∷ []) = b == 10
ends_line (b ∷ c ∷ s) = ends_line (c ∷ s)

-- Each round of the loop reads a byte at least, so the length of the file is enough of them.
unfoldable pub tail_bytes : Str → ℕ → Str
tail_bytes file n =
    let threshold = if ends_line file then n else n - 1 in
    concat (tail_loop (length file) file threshold (length file) 0 [])

-- The file is `none` where it cannot be opened.
unfoldable pub tail_lines : Option Str → ℕ → Outcome Str (List Str)
tail_lines file zero = ok []
tail_lines none (suc n) = err (codes "failed to open")
tail_lines (some file) (suc n) =
    if is_empty file then ok [] else ok (lines (from_utf8_lossy (tail_bytes file (suc n))))
