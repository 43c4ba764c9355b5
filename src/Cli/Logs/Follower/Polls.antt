-- ===== src/Cli/Logs/Follower/Polls.antt =====
-- `poll_lines` and `open_with_tail` of crates/cli/src/logs.rs, while the log grows.
use neals.Prelude.{
  ◌<◌, ℕ, ◌+◌, ◌-◌, ◌≤◌, List, [], ◌∷◌, ◌++◌, append_assoc, ◌≡◌, refl, sym, ap, ◌∙◌, arith, inl,
  inr,
}
use neals.Prelude.Bools.{if◌then◌else◌, take_else, take_then, ltb, leb, Bool-cases, ==_refl}
use neals.Prelude.Lists.{All, length, drop, take, length-append}
use neals.Prelude.Outcome.{Outcome, ok}
use neals.Prelude.Text.{contains_char, contains_char, Str}
use neals.Prelude.Text.Trim.{Lacks}
use neals.Prelude.Utf8.{from_utf8_lossy, decode_from, byte_step, Partial, idle}
use neals.Cli.Logs.{some, concat}
use neals.Cli.Logs.Follower.{
  Disk, LogFollower, drain_from, drain_lines, follow, disk_with, poll_lines, poll_at, read_chunk,
  read_exact, reopened,
}
use neals.Cli.Logs.Follower.Drained.{drain_from-append, drain_from-open, drain_from-Lacks}

-- What is left of a sequence that the text has begun.
abbrev pub rest_from : Partial → Str → Partial
rest_from p [] = p
rest_from p (b ∷ s) = rest_from (byte_step p b).1 s

-- The text ends between two characters.
abbrev pub IsWhole : Str → Type 0
IsWhole s = rest_from idle s ≡ idle

decode_from-append :
    (p : Partial) (s t : Str)
    → rest_from p s ≡ idle
    → decode_from p (s ++ t) ≡ decode_from p s ++ decode_from idle t
unfolding decode_from
decode_from-append p [] t h = rw h refl
decode_from-append p (b ∷ s) t h =
    rw (decode_from-append (byte_step p b).1 s t h)
      (sym (append_assoc (byte_step p b).0 (decode_from (byte_step p b).1 s) (decode_from idle t)))

abbrev pub decoded : List Str → Str
decoded [] = []
decoded (piece ∷ pieces) = from_utf8_lossy piece ++ decoded pieces

pub decoded-concat :
    (pieces : List Str) → All IsWhole pieces → decoded pieces ≡ from_utf8_lossy (concat pieces)
unfolding from_utf8_lossy concat decode_from
decoded-concat [] h = refl
decoded-concat (piece ∷ pieces) h =
    ap (λ t. decode_from idle piece ++ t) (decoded-concat pieces h.1)
    ∙ sym (decode_from-append idle piece (concat pieces) h.0)

drop-append : (s t : Str) → drop (length s) (s ++ t) ≡ t
drop-append [] t = refl
drop-append (c ∷ s) t = drop-append s t

take-same : (s : Str) → take (length s) s ≡ s
take-same [] = refl
take-same (c ∷ s) = ap (λ t. c ∷ t) (take-same s)

-- The follower after the text was read.
abbrev pub after : LogFollower → Str → Str → LogFollower
after s file text = record s { offset = length file; pending = (drain_from s.pending text).1 }

reopened_same : (s : LogFollower) (here len : ℕ) → s.offset ≤ len → reopened s here len ≡ s
unfolding reopened
reopened_same s here len h = take_else (λ r. r ≡ s) (ltb len s.offset) _ _ (ground arith) refl

pub bytes_with : (d : Disk) (f : ℕ) (file : Str) → (disk_with d f file).bytes f ≡ file
unfolding disk_with
bytes_with d f file = rw (==_refl f) refl

read_exact_rest :
    (file piece : Str) (offset : ℕ)
    → offset ≡ length file
    → read_exact (file ++ piece) offset (length (file ++ piece) - offset) ≡ ok piece
unfolding read_exact
read_exact_rest file piece offset h =
    take_then (λ r. r ≡ ok piece)
      (leb (offset + (length (file ++ piece) - offset)) (length (file ++ piece))) _ _
      (ground (arith, length-append file piece))
      (ap ok (
        rw h (
          ap (λ n. take n (drop (length file) (file ++ piece))) {y = length piece}
            (omega (arith, length-append file piece))
          ∙ rw (drop-append file piece) (take-same piece))))

read_chunk_grown :
    (d : Disk) (file : Str) (s : LogFollower) (piece : Str)
    → d.bytes s.file ≡ file ++ piece
    → s.offset ≡ length file
    → Lacks 10 s.pending
    → read_chunk d s (length (file ++ piece))
      ≡ ok (
        after s (file ++ piece) (from_utf8_lossy piece),
        (drain_from s.pending (from_utf8_lossy piece)).0,
      )
unfolding read_chunk drain_lines
read_chunk_grown d file s piece e h k =
    rw
      (
        e,
        read_exact_rest file piece s.offset h,
        drain_from-open [] s.pending (from_utf8_lossy piece) k,
      )
      refl

-- Where nothing was appended, nothing is read.
unread_nothing :
    (s : LogFollower) (file t : Str)
    → s.offset ≡ length file
    → t ≡ []
    → ◌≡◌ {A = Outcome Str (LogFollower × List Str)}
        (ok (s, []))
        (ok (after s (file ++ t) t, (drain_from s.pending t).0))
unfolding drain_from
unread_nothing s file t h e =
    rw e (ap (λ n. ok (record s { offset = n }, [])) (omega (arith, h, length-append file [])))

from_utf8_lossy_nil : (t : Str) → t ≡ [] → from_utf8_lossy t ≡ t
unfolding from_utf8_lossy decode_from
from_utf8_lossy_nil t e = rw e refl

nil_of_length : (s t : Str) → length (s ++ t) ≤ length s → t ≡ []
nil_of_length s [] h = refl
nil_of_length s (c ∷ t) h = absurd (omega (arith, length-append s (c ∷ t)))

chunk_grown :
    (d : Disk) (file : Str) (s : LogFollower) (piece : Str)
    → d.bytes s.file ≡ file ++ piece
    → s.offset ≡ length file
    → Lacks 10 s.pending
    → (if ltb s.offset (length (file ++ piece))
        then read_chunk d s (length (file ++ piece))
        else ok (s, []))
      ≡ ok (
        after s (file ++ piece) (from_utf8_lossy piece),
        (drain_from s.pending (from_utf8_lossy piece)).0,
      )
chunk_grown d file s piece b h k = elim (Bool-cases (ltb s.offset (length (file ++ piece)))) [
  | inl more ↦ rw more (read_chunk_grown d file s piece b h k)
  | inr same ↦
      let e = nil_of_length file piece (ground (arith, same)) in
      rw (same, from_utf8_lossy_nil piece e) (unread_nothing s file piece h e)
]

-- One poll of a file that was read to the end and has grown by `piece`.
poll_grown :
    (d : Disk) (file : Str) (s : LogFollower) (piece : Str)
    → s.offset ≡ length file
    → Lacks 10 s.pending
    → poll_lines (disk_with d s.file (file ++ piece)) s
      ≡ ok (
        after s (file ++ piece) (from_utf8_lossy piece),
        (drain_from s.pending (from_utf8_lossy piece)).0,
      )
unfolding poll_lines poll_at disk_with
poll_grown d file s piece h k =
    let e = bytes_with d s.file (file ++ piece) in
    rw
      (e, reopened_same s s.file (length (file ++ piece)) (omega (arith, length-append file piece)))
      (chunk_grown (disk_with d s.file (file ++ piece)) file s piece e h k)

restarted : Disk → ℕ → LogFollower
restarted d here = record { file = here; offset = 0; pending = [] }

reopened_short :
    (d : Disk) (s : LogFollower) (here len : ℕ)
    → len < s.offset
    → reopened s here len ≡ restarted d here
unfolding reopened restarted
reopened_short d s here len short =
    take_then (λ r. r ≡ restarted d here) (ltb len s.offset) (restarted d here) s (ground arith)
      refl

-- A log that is shorter than what was read of it is read from its start, whether it is the same
-- file or another.
pub poll_lines-restart :
    (d : Disk) (s : LogFollower) (here : ℕ)
    → d.at_path ≡ some here
    → length (d.bytes here) < s.offset
    → (t : LogFollower) × (poll_lines d s
        ≡ ok (t, (drain_lines (from_utf8_lossy (d.bytes here))).0))
      × (t.file ≡ here)
      × (t.offset ≡ length (d.bytes here))
      × (t.pending ≡ (drain_lines (from_utf8_lossy (d.bytes here))).1)
unfolding poll_lines poll_at restarted contains_char drain_lines
poll_lines-restart d s here at short = (
  after (restarted d here) (d.bytes here) (from_utf8_lossy (d.bytes here)),
  ap (poll_at d s) at
      ∙ rw (reopened_short d s here (length (d.bytes here)) short)
          (chunk_grown d [] (restarted d here) (d.bytes here) refl refl refl),
  refl,
  refl,
  refl,
)

-- All polls together print the lines of all that was appended.
pub follow_grown :
    (d : Disk) (file : Str) (s : LogFollower) (pieces : List Str)
    → s.offset ≡ length file
    → Lacks 10 s.pending
    → follow d file s pieces
      ≡ ok (
        after s (file ++ concat pieces) (decoded pieces),
        (drain_from s.pending (decoded pieces)).0,
      )
unfolding follow concat
follow_grown d file s [] h k = unread_nothing s file [] h refl
follow_grown d file s (piece ∷ pieces) h k =
    rw
      (
        poll_grown d file s piece h k,
        follow_grown d (file ++ piece) (after s (file ++ piece) (from_utf8_lossy piece)) pieces refl
            (drain_from-Lacks s.pending (from_utf8_lossy piece) k),
        append_assoc file piece (concat pieces),
      )
      (rw (drain_from-append s.pending (from_utf8_lossy piece) (decoded pieces)) refl)
