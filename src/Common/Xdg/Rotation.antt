-- ===== src/Common/Xdg/Rotation.antt =====
-- The log that `open_log` of crates/common/src/xdg.rs opens, and the one beside it.
use neals.Prelude.{
  inl, inr, ℕ, ◌≤◌, ◌≡◌, ◌⊎◌, refl, true, false, Option, none, some, List, [], arith,
}
use neals.Prelude.Bools.{Bool-cases}
use neals.Prelude.Lists.{length}
use neals.Prelude.Outcome.{Outcome, ok, err}
use neals.Prelude.Text.{Str}
use neals.Common.Xdg.{LogFiles, is_too_long, or_new, open_log, log_max_bytes}

-- The text of the log before, `old`, is still in it, or it is in the file beside it.
abbrev pub Opened : Option (List ℕ) → Outcome Str (Unit {0}) × LogFiles → Type 0
Opened old (ok u, files) =
    (length (or_new files.current) ≤ log_max_bytes)
    × ((files.current ≡ some (or_new old)) ⊎ ((files.current ≡ some []) × (files.rotated ≡ old)))
Opened old (err e, files) = (files.current ≡ old) ⊎ ((files.current ≡ none) × (files.rotated ≡ old))

short_length :
    (old : Option (List ℕ)) → is_too_long old ≡ false → length (or_new old) ≤ log_max_bytes
short_length none h = omega arith
short_length (some bytes) h = ground arith

-- Where renames succeed, a log that is opened has at most 8 MiB, and its text from before is still
-- in it or in the file beside it; where the log cannot be opened, the text is in one of the two too.
pub open_log_lem :
    (opens : Outcome Str (Unit {0})) (files : LogFiles)
    → Opened files.current (open_log true opens files)
unfolding open_log
open_log_lem (ok u) files = elim (Bool-cases (is_too_long files.current)) [
  | inl long ↦ rw long (omega arith, inr (refl, refl))
  | inr short ↦ rw short (short_length files.current short, inl refl)
]
open_log_lem (err e) files = elim (Bool-cases (is_too_long files.current)) [
  | inl long ↦ rw long (inr (refl, refl))
  | inr short ↦ rw short (inl refl)
]
