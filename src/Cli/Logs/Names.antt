-- ===== src/Cli/Logs/Names.antt =====
-- The processes that have a log, `process_log_names` and `running_process_names` of
-- crates/cli/src/logs.rs, and how a line of theirs is printed. A directory is the list of the names
-- in it that are text, empty where it cannot be read.
pub mod Listed
use neals.Prelude.{
  ℕ, ◌+◌, ◌-◌, ◌*◌, ◌%◌, ◌^◌, max, Bool, true, false, Option, none, some, List, [], ◌∷◌, ◌++◌,
}
use neals.Prelude.Bools.{if◌then◌else◌}
use neals.Prelude.Lists.{length, replicate}
use neals.Prelude.Utf8.{utf8}
use neals.Prelude.Text.{Str, codes, str_eq, str_leb, starts_with}

abbrev pub put_char : ℕ → Option Str → Option Str
put_char c none = none
put_char c (some s) = some (c ∷ s)

unfoldable pub strip_suffix : Str → Str → Option Str
strip_suffix suffix [] = if str_eq [] suffix then some [] else none
strip_suffix suffix (c ∷ s) =
    let rest = put_char c (strip_suffix suffix s) in if str_eq (c ∷ s) suffix then some [] else rest

abbrev pub stdout_suffix : Str
stdout_suffix = codes ".stdout.log"

abbrev pub stderr_suffix : Str
stderr_suffix = codes ".stderr.log"

unfoldable pub log_name : Str → Option Str
log_name file = elim (strip_suffix stdout_suffix file) [
  | some name ↦ some name
  | none ↦ strip_suffix stderr_suffix file
]

unfoldable pub log_names : List Str → List Str
log_names [] = []
log_names (f ∷ fs) = elim (log_name f) [ some name ↦ name ∷ log_names fs | none ↦ log_names fs ]

unfoldable pub insert_name : Str → List Str → List Str
insert_name a [] = a ∷ []
insert_name a (b ∷ bs) = let rest = insert_name a bs in if str_leb a b then a ∷ b ∷ bs else b ∷ rest

-- `names.sort()`
unfoldable pub sort_names : List Str → List Str
sort_names [] = []
sort_names (a ∷ rest) = insert_name a (sort_names rest)

-- `names.dedup()` on what follows the name `a`, which is kept.
unfoldable pub dedup_after : Str → List Str → List Str
dedup_after a [] = []
dedup_after a (b ∷ bs) =
    let same = dedup_after a bs in
    let other = b ∷ dedup_after b bs in if str_eq a b then same else other

unfoldable pub dedup : List Str → List Str
unfolding dedup_after
dedup [] = []
dedup (a ∷ rest) = a ∷ dedup_after a rest

unfoldable pub process_log_names : List Str → List Str
process_log_names files = dedup (sort_names (log_names files))

-- A directory under the base: its name, and the names in its `processes/logs`, where that is a
-- directory.
abbrev pub Runtime : Type 0
Runtime = Str × Option (List Str)

unfoldable pub runtime_names : List Runtime → List Str
runtime_names [] = []
runtime_names ((dir, none) ∷ rs) = runtime_names rs
runtime_names ((dir, some files) ∷ rs) =
    let rest = runtime_names rs in
    if starts_with dir (codes "devenv-") then process_log_names files ++ rest else rest

unfoldable pub running_process_names : List Runtime → List Str
running_process_names runtimes = dedup (sort_names (runtime_names runtimes))

-- A hash of the bytes of the name, in a `usize` of 64 bits.
unfoldable pub name_hash : ℕ → Str → ℕ
name_hash h [] = h
name_hash h (b ∷ s) = name_hash ((h * 31 % 2 ^ 64 + b) % 2 ^ 64) s

unfoldable pub process_color_index : Str → ℕ
unfolding name_hash
process_color_index name = name_hash 0 (utf8 name) % 8

-- The name is padded with blanks up to so many characters, where the width is one of bytes. The
-- line is printed without colours.
unfoldable pub format_process_line : Str → ℕ → Str → Str
format_process_line name width line =
    let full = max (max width (length (utf8 name))) 1 in
    name ++ replicate (full - length name) b' ' ++ codes " | " ++ line
