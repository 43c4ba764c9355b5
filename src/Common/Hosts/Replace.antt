-- ===== src/Common/Hosts/Replace.antt =====
-- Merging and applying one block after another, in crates/common/src/hosts.rs.
use neals.Prelude.{
  subst, inl, inr, inl, [], none, some, Option, ℕ, ◌≡◌, refl, ap, ◌∙◌, true, false, ◌∷◌, ◌++◌,
  arith,
}
use neals.Prelude.Bools.{if◌then◌else◌, Bool-cases, ◌==◌}
use neals.Prelude.Decimal.{decimal_digits, decimal_head, decimal}
use neals.Prelude.Lists.{All}
use neals.Prelude.Net.{Ipv4Addr, show_ip}
use neals.Prelude.Text.{str_eq_refl, Str, str_eq, trim, contains_char, is_ascii_digit, is_space}
use neals.Prelude.Text.Trim.{Lacks, contains_char-append, digits-Lacks, trim_head}
use neals.Prelude.Text.Lines.{IsPlain}
use neals.Common.Hosts.{
  err, ok, map, Write, not_opened, cut_short, complete, write_in_place, apply_to, apply_hosts_file,
  HostsFile, existing_text, read_text, hosts_file_equivalent, render_host_block, existing_text,
  render_host_block, HostsFile, strip_neals_block, Write, block_of, trim_end, Outcome,
  merge_hosts_file, List, begin_marker, end_marker, host_line,
}
use neals.Common.Hosts.Merge.{rest_kept, rest_kept_empty, IsClean}

append-Lacks : (k : ℕ) (s t : Str) → Lacks k s → Lacks k t → Lacks k (s ++ t)
append-Lacks k s t h i = contains_char-append s t k ∙ rw (h, i) refl

cons-Lacks : (k c : ℕ) (s : Str) → (c == k) ≡ false → Lacks k s → Lacks k (c ∷ s)
unfolding contains_char
cons-Lacks k c s h i = rw (h, i) refl

show_ip-Lacks :
    (k : ℕ) (ip : Ipv4Addr) → is_ascii_digit k ≡ false → (b'.' == k) ≡ false → Lacks k (show_ip ip)
unfolding show_ip
show_ip-Lacks k ip n d =
    append-Lacks k (decimal ip.a ++ b'.' ∷ decimal ip.b ++ b'.' ∷ decimal ip.c)
      (b'.' ∷ decimal ip.d)
      (append-Lacks k (decimal ip.a ++ b'.' ∷ decimal ip.b) (b'.' ∷ decimal ip.c)
        (append-Lacks k (decimal ip.a) (b'.' ∷ decimal ip.b) (part ip.a)
          (cons-Lacks k b'.' (decimal ip.b) d (part ip.b)))
        (cons-Lacks k b'.' (decimal ip.c) d (part ip.c)))
      (cons-Lacks k b'.' (decimal ip.d) d (part ip.d))
  where
    part : (m : ℕ) → Lacks k (decimal m)
    part m = digits-Lacks k (decimal m) n (decimal_digits m)

-- A line that begins with a digit is no marker.
digit_first :
    (c : ℕ) (s : Str)
    → is_ascii_digit c ≡ true
    → (str_eq (trim (c ∷ s)) begin_marker ≡ false) × (str_eq (trim (c ∷ s)) end_marker ≡ false)
unfolding is_ascii_digit is_space str_eq
digit_first c s h = let (t, e) = trim_head c s (ground arith) in rw e (ground arith, ground arith)

host_line-IsClean : (ip : Ipv4Addr) (name : Str) → IsPlain name → IsClean (host_line (ip, name))
unfolding is_ascii_digit show_ip
host_line-IsClean ip name h =
    let (c, t, e, digit) = decimal_head ip.a in
    let rest =
      t ++ b'.' ∷ decimal ip.b ++ b'.' ∷ decimal ip.c ++ b'.' ∷ decimal ip.d ++ b' ' ∷ name in
    let line =
      ap
        (λ u. u ++ b'.' ∷ decimal ip.b ++ b'.' ∷ decimal ip.c ++ b'.' ∷ decimal ip.d ++ b' ' ∷ name)
        e in
    record {
      plain = (
        append-Lacks 10 (show_ip ip) (b' ' ∷ name) (show_ip-Lacks 10 ip refl refl)
            (cons-Lacks 10 b' ' name refl h.0),
        append-Lacks 13 (show_ip ip) (b' ' ∷ name) (show_ip-Lacks 13 ip refl refl)
            (cons-Lacks 13 b' ' name refl h.1),
      );
      no_begin = ap (λ u. str_eq (trim u) begin_marker) line ∙ (digit_first c rest digit).0;
      no_end = ap (λ u. str_eq (trim u) end_marker) line ∙ (digit_first c rest digit).1;
    }

-- The names of the entries are single lines.
abbrev pub IsNamed : List (Ipv4Addr × Str) → Type 0
IsNamed [] = Unit
IsNamed ((ip, name) ∷ es) = IsPlain name × IsNamed es

host_lines-IsClean : (es : List (Ipv4Addr × Str)) → IsNamed es → All IsClean (map host_line es)
host_lines-IsClean [] h = tt
host_lines-IsClean ((ip, name) ∷ es) h = (host_line-IsClean ip name h.0, host_lines-IsClean es h.1)

merge_same :
    (a b block : Str)
    → trim_end (strip_neals_block a) ≡ trim_end (strip_neals_block b)
    → merge_hosts_file a block ≡ merge_hosts_file b block
unfolding merge_hosts_file
merge_same a b block e = rw e refl

-- In a hosts file without carriage returns, the block of some entries replaces the one of others
-- before it, whose names hold no line break: the file is then the same as if only the last block
-- had been merged into it. The block of no entries is the empty text.
pub merge_hosts_file-twice :
    (existing : Str) (es fs : List (Ipv4Addr × Str))
    → Lacks 13 existing
    → IsNamed es
    → merge_hosts_file (merge_hosts_file existing (block_of es)) (block_of fs)
      ≡ merge_hosts_file existing (block_of fs)
merge_hosts_file-twice existing [] fs plain h =
    merge_same (merge_hosts_file existing []) existing (block_of fs)
      (rest_kept_empty existing plain)
merge_hosts_file-twice existing (e ∷ es) fs plain h =
    merge_same (merge_hosts_file existing (block_of (e ∷ es))) existing (block_of fs) (
      unfold render_host_block in
      rest_kept existing (map host_line (e ∷ es)) plain (host_lines-IsClean (e ∷ es) h))

text_read :
    (read : Outcome Str (Unit {0})) (file : HostsFile) (text : Str) (o : Option Str)
    → file.text ≡ o
    → existing_text read file ≡ ok text
    → (existing_text (ok tt) file ≡ ok text) × (read_text file.text ≡ text)
unfolding existing_text
text_read read file text none e h = ground arith
text_read (ok u) file text (some t) e h = ground arith
text_read (err m) file text (some t) e h = ground arith

unchanged :
    (again : Write) (file : HostsFile) (text block : Str)
    → existing_text (ok tt) file ≡ ok text
    → hosts_file_equivalent text (merge_hosts_file text block) ≡ true
    → apply_hosts_file (ok tt) again file block ≡ (ok tt, file)
unfolding apply_hosts_file
unchanged again file text block e same = rw (e, same) refl

merged_is_stable :
    (text : Str) (es : List (Ipv4Addr × Str))
    → Lacks 13 text
    → IsNamed es
    → hosts_file_equivalent
        (merge_hosts_file text (block_of es))
        (merge_hosts_file (merge_hosts_file text (block_of es)) (block_of es))
      ≡ true
unfolding hosts_file_equivalent
merged_is_stable text es plain h =
    rw (merge_hosts_file-twice text es es plain h)
      (str_eq_refl (trim_end (merge_hosts_file text (block_of es))))

written_again :
    (write again : Write) (file : HostsFile) (text : Str) (es : List (Ipv4Addr × Str))
    → Lacks 13 text
    → IsNamed es
    → (write_in_place write file (merge_hosts_file text (block_of es))).0 ≡ ok tt
    → apply_hosts_file
        (ok tt)
        again
        (write_in_place write file (merge_hosts_file text (block_of es))).1
        (block_of es)
      ≡ (ok tt, (write_in_place write file (merge_hosts_file text (block_of es))).1)
unfolding write_in_place existing_text
written_again (not_opened m) again file text es plain h done = ground arith
written_again (cut_short l m) again file text es plain h done = ground arith
written_again complete again file text es plain h done =
    let merged = merge_hosts_file text (block_of es) in
    unchanged again (record { text = some merged; writes = merged ∷ file.writes }) merged
      (block_of es) refl (merged_is_stable text es plain h)

applied_again :
    (read : Outcome Str (Unit {0})) (write again : Write) (file : HostsFile)
    (es : List (Ipv4Addr × Str)) (o : Outcome Str Str)
    → existing_text read file ≡ o
    → Lacks 13 (read_text file.text)
    → IsNamed es
    → (apply_to write file (block_of es) o).0 ≡ ok tt
    → apply_hosts_file (ok tt) again (apply_to write file (block_of es) o).1 (block_of es)
      ≡ (ok tt, (apply_to write file (block_of es) o).1)
applied_again read write again file es (err m) e plain h done = ground arith
applied_again read write again file es (ok text) e plain h done =
    let (again_read, same) = text_read read file text file.text refl e in
    elim (Bool-cases (hosts_file_equivalent text (merge_hosts_file text (block_of es)))) [
      | inl eq ↦ rw eq (unchanged again file text (block_of es) again_read eq)
      | inr neq ↦ rw neq (
          written_again write again file text es (subst (Lacks 13) same plain) h (
            subst
              (λ b.
                (if b
                  then (ok tt, file)
                  else write_in_place write file (merge_hosts_file text (block_of es))).0
                ≡ ok tt)
              neq done))
    ]

-- Where the block of entries whose names hold no line break has been applied with success to a
-- hosts file without carriage returns, and the file can be read, applying that block again
-- succeeds, and changes and writes nothing.
pub apply_hosts_file-twice :
    (read : Outcome Str (Unit {0})) (write again : Write) (file : HostsFile)
    (es : List (Ipv4Addr × Str))
    → Lacks 13 (read_text file.text)
    → IsNamed es
    → (apply_hosts_file read write file (block_of es)).0 ≡ ok tt
    → apply_hosts_file
        (ok tt)
        again
        (apply_hosts_file read write file (block_of es)).1
        (block_of es)
      ≡ (ok tt, (apply_hosts_file read write file (block_of es)).1)
apply_hosts_file-twice read write again file es plain h done =
    unfold apply_hosts_file in
    applied_again read write again file es (existing_text read file) refl plain h done
