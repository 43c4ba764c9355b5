-- ===== src/Daemon/Hosts/Sync.antt =====
-- Two calls of `sync_host_aliases` of crates/daemon/src/hosts.rs, one after the other.
use neals.Prelude.{subst, Option, List, ◌∙◌, ◌⊎◌, inl, inr, ◌≡◌, refl, ap, sym, true, some, none}
use neals.Prelude.Bools.{Bool-cases}
use neals.Prelude.Outcome.{ok}
use neals.Prelude.Text.{Str, str_eq_refl, trim_end}
use neals.Prelude.Text.Trim.{Lacks}
use neals.Common.Hosts.{
  HostsFile, complete, write_in_place, merge_hosts_file, hosts_file_equivalent, apply_hosts_file,
  existing_text, read_text, block_of,
}
use neals.Common.Hosts.Replace.{IsNamed, merge_hosts_file-twice}
use neals.Daemon.Routes.{Snapshot}
use neals.Daemon.Hosts.{SyncEnv, HostsState, host_entries, sync_host_aliases, Entry}

-- The text of a hosts file.
abbrev pub text_of : HostsState → Str
text_of st = read_text st.system.text

-- Every call succeeds.
pub record IsWorking (env : SyncEnv) : Type 0 where
  pub path : env.state_path ≡ ok tt
  pub fragment : env.write_fragment ≡ complete
  pub read : env.read_system ≡ ok tt
  pub write : env.write_system ≡ complete

existing_all :
    (file : HostsFile) (o : Option Str)
    → file.text ≡ o
    → existing_text (ok tt) file ≡ ok (read_text o)
unfolding existing_text
existing_all file none e = rw (e, existing_text) refl
existing_all file (some text) e = rw (e, existing_text) refl

sync_system :
    (env : SyncEnv) (projects : Snapshot) (st : HostsState)
    → IsWorking env
    → (sync_host_aliases env projects st).1.system
      ≡ (apply_hosts_file (ok tt) complete st.system (block_of (host_entries projects))).1
unfolding sync_host_aliases write_in_place
sync_system env projects st w = rw (w.path, w.fragment, w.read, w.write) refl

-- The file is left as it is where it has the block, or the block is merged into it.
applied_text :
    (file : HostsFile) (block : Str)
    → let r = read_text (apply_hosts_file (ok tt) complete file block).1.text in
      ((r ≡ read_text file.text)
        × (hosts_file_equivalent r (merge_hosts_file (read_text file.text) block) ≡ true))
      ⊎ (r ≡ merge_hosts_file (read_text file.text) block)
unfolding apply_hosts_file write_in_place
applied_text file block =
    let text = read_text file.text in
    rw (existing_all file file.text refl)
      (elim (Bool-cases (hosts_file_equivalent text (merge_hosts_file text block))) [
        | inl same ↦ rw same (inl (refl, same))
        | inr differs ↦ rw differs (inr refl)
      ])

applied_equivalent :
    (file : HostsFile) (block : Str)
    → hosts_file_equivalent
        (read_text (apply_hosts_file (ok tt) complete file block).1.text)
        (merge_hosts_file (read_text file.text) block)
      ≡ true
unfolding hosts_file_equivalent
applied_equivalent file block = elim (applied_text file block) [
  | inl h ↦ unfold hosts_file_equivalent in h.1
  | inr e ↦ rw e (str_eq_refl (trim_end (merge_hosts_file (read_text file.text) block)))
]

merged_again :
    (file : HostsFile) (es fs : List Entry)
    → Lacks 13 (read_text file.text)
    → IsNamed es
    → merge_hosts_file
        (read_text (apply_hosts_file (ok tt) complete file (block_of es)).1.text)
        (block_of fs)
      ≡ merge_hosts_file (read_text file.text) (block_of fs)
merged_again file es fs plain named = elim (applied_text file (block_of es)) [
  | inl h ↦ ap (λ t. merge_hosts_file t (block_of fs)) h.0
  | inr e ↦
      ap (λ t. merge_hosts_file t (block_of fs)) e
      ∙ merge_hosts_file-twice (read_text file.text) es fs plain named
]

-- Where every call succeeds, the hosts file has no carriage return and the names in the first
-- block hold no line break, the file after two synchronisations is what merging the block of the
-- last one into the first text gives, up to blank space at the end: nothing of the first block
-- is left.
pub sync_host_aliases-twice :
    (env env' : SyncEnv) (old new : Snapshot) (st : HostsState)
    → IsWorking env
    → IsWorking env'
    → Lacks 13 (text_of st)
    → IsNamed (host_entries old)
    → hosts_file_equivalent
        (text_of (sync_host_aliases env' new (sync_host_aliases env old st).1).1)
        (merge_hosts_file (text_of st) (block_of (host_entries new)))
      ≡ true
sync_host_aliases-twice env env' old new st w w' plain named =
    let between = (sync_host_aliases env old st).1 in
    let first = sync_system env old st w in
    let second = sync_system env' new between w' in
    subst
      (λ t.
        hosts_file_equivalent t (merge_hosts_file (text_of st) (block_of (host_entries new)))
        ≡ true)
      (sym (ap (λ (f : HostsFile). read_text f.text) second))
      (subst
        (λ t.
          hosts_file_equivalent
            (read_text
              (apply_hosts_file (ok tt) complete between.system
                (block_of (host_entries new))).1.text)
            t
          ≡ true)
        (ap (λ (f : HostsFile). merge_hosts_file (read_text f.text) (block_of (host_entries new)))
            first
          ∙ merged_again st.system (host_entries old) (host_entries new) plain named)
        (applied_equivalent between.system (block_of (host_entries new))))
