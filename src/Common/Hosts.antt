-- ===== src/Common/Hosts.antt =====
-- crates/common/src/hosts.rs: the block of neals in a hosts file, put in, replaced and taken out.
-- The files are parameters: what the program reads of them, and whether a write succeeds.
pub mod Merge
pub mod Replace
use neals.Prelude.{Bool, true, false, not, ◌&&◌, Option, none, some, List, [], ◌∷◌, ◌++◌, map}
use neals.Prelude.Bools.{if◌then◌else◌}
use neals.Prelude.Net.{Ipv4Addr, show_ip}
use neals.Prelude.Outcome.{Outcome, ok, err, ◌>>=◌}
use neals.Prelude.Text.{Str, codes, str_eq, trim, trim_end, is_empty, contains, lines, unlines}

abbrev pub begin_marker : Str
begin_marker = codes "# BEGIN neals"

abbrev pub end_marker : Str
end_marker = codes "# END neals"

abbrev pub host_line : Ipv4Addr × Str → Str
host_line (ip, name) = show_ip ip ++ b' ' ∷ name

-- `lines.join("\n") + "\n"`
unfoldable pub render_host_block : List (Ipv4Addr × Str) → Str
unfolding unlines
render_host_block entries = unlines (begin_marker ∷ (map host_line entries ++ end_marker ∷ []))

-- The block that `sync_host_aliases` hands on: nothing where there is no entry.
abbrev pub block_of : List (Ipv4Addr × Str) → Str
block_of [] = []
block_of (e ∷ es) = render_host_block (e ∷ es)

-- The flag `skipping` after a line.
abbrev pub skips_after : Str → Bool → Bool
skips_after line skipping =
    if str_eq (trim line) begin_marker
    then true
    else if str_eq (trim line) end_marker
    then false
    else skipping

abbrev pub keeps : Str → Bool → Bool
keeps line skipping =
    not (str_eq (trim line) begin_marker) && not (str_eq (trim line) end_marker) && not skipping

unfoldable pub strip_lines : Bool → List Str → List Str
strip_lines skipping [] = []
strip_lines skipping (l ∷ ls) =
    let rest = strip_lines (skips_after l skipping) ls in
    if keeps l skipping then l ∷ rest else rest

unfoldable pub strip_neals_block : Str → Str
unfolding strip_lines lines unlines
strip_neals_block existing = unlines (strip_lines false (lines existing))

-- `out`, and a line feed if there is anything before it.
abbrev pub closed : Str → Str
closed out = if is_empty out then [] else out ++ 10 ∷ []

abbrev pub is_block : Str → Bool
is_block block = not (is_empty (trim block)) && contains block begin_marker

unfoldable pub merge_hosts_file : Str → Str → Str
merge_hosts_file existing block =
    let out = closed (trim_end (strip_neals_block existing)) in
    if is_block block then out ++ 10 ∷ (trim_end block ++ 10 ∷ []) else out

unfoldable pub hosts_file_equivalent : Str → Str → Bool
hosts_file_equivalent a b = str_eq (trim_end a) (trim_end b)

-- A hosts file: its text, or that there is none, and what was written to it, the newest first.
pub record HostsFile : Type 0 where
  pub text : Option Str
  pub writes : List Str

-- How `write_in_place` ends: the file does not open; or it is truncated and left with this text, for
-- the writing or the sync fails; or all is written.
pub data Write : Type 0 where
  not_opened : (message : Str) → Write
  cut_short : (left message : Str) → Write
  complete : Write

unfoldable pub write_in_place : Write → HostsFile → Str → Outcome Str (Unit {0}) × HostsFile
write_in_place (not_opened message) file text = (err message, file)
write_in_place (cut_short left message) file text =
    (err message, record file { text = some left; writes = left ∷ file.writes })
write_in_place complete file text =
    (ok tt, record { text = some text; writes = text ∷ file.writes })

abbrev pub read_text : Option Str → Str
read_text none = []
read_text (some text) = text

-- `read` fails where the text of a file that exists cannot be read.
unfoldable pub existing_text : Outcome Str (Unit {0}) → HostsFile → Outcome Str Str
existing_text read file = elim file.text [
  | none ↦ ok []
  | some text ↦ elim read [ ok u ↦ ok text | err e ↦ err e ]
]

abbrev pub apply_to : Write → HostsFile → Str → Outcome Str Str → Outcome Str (Unit {0}) × HostsFile
apply_to write file block (err e) = (err e, file)
apply_to write file block (ok existing) =
    if hosts_file_equivalent existing (merge_hosts_file existing block)
    then (ok tt, file)
    else write_in_place write file (merge_hosts_file existing block)

unfoldable pub apply_hosts_file :
    Outcome Str (Unit {0}) → Write → HostsFile → Str → Outcome Str (Unit {0}) × HostsFile
apply_hosts_file read write file block = apply_to write file block (existing_text read file)

-- What the host answers to the mirror: the mode, and how the calls on the files end.
pub record MirrorEnv : Type 0 where
  pub system_mode : Bool
  pub parent_is_dir : Bool
  pub reads : Bool
  pub writes_tmp : Bool
  pub renames : Bool

abbrev pub holds_text : Bool → Option Str → Str → Bool
holds_text reads none block = false
holds_text reads (some text) block = reads && str_eq text block

-- Whether the mirror holds the block, and what it holds; the temporary file is gone in every case
-- but that of a failed write.
unfoldable pub mirror_system_hosts_fragment : MirrorEnv → Option Str → Str → Bool × Option Str
mirror_system_hosts_fragment env mirror block =
    if not env.system_mode
    then (false, mirror)
    else if not env.parent_is_dir
    then (false, mirror)
    else if holds_text env.reads mirror block
    then (true, mirror)
    else if env.writes_tmp && env.renames
    then (true, some block)
    else (false, mirror)
