-- ===== src/Tests/Names.antt =====
-- A hosts file with entries of its own.
use neals.Prelude.{none, ◌≡◌, refl, some, [], ◌∷◌}
use neals.Prelude.Outcome.{ok}
use neals.Prelude.Net.{show_ip, Ipv4Addr}
use neals.Prelude.Decimal.{decimal}
use neals.Prelude.Text.{str_eq, trim_end, trim, contains, Str, codes, contains_char}
use neals.Prelude.Text.Trim.{Lacks}
use neals.Common.Hosts.{
  existing_text, hosts_file_equivalent, render_host_block, strip_neals_block, write_in_place,
  HostsFile, complete, merge_hosts_file, apply_hosts_file, block_of,
}
use neals.Prelude.{true, false}
use neals.Prelude.Text.{str_leb}
use neals.Common.Devenv.{service_host_name}
use neals.Daemon.Routes.{Snapshot, BoundTarget}
use neals.Daemon.Hosts.{
  Entry, SyncEnv, HostsState, host_entries, sort_entries, insert_entry, tcp_entries,
  project_entries, sync_host_aliases,
}
use neals.Daemon.Hosts.Entries.{AreSorted, times, publications, host_entries_lem}
use neals.Daemon.Hosts.Sync.{IsWorking, text_of, sync_host_aliases-twice}
use neals.Common.Hosts.Replace.{IsNamed, merge_hosts_file-twice, apply_hosts_file-twice}

abbrev web : Ipv4Addr × Str
web = (record { a = 127; b = 53; c = 0; d = 1 }, codes "demo_web")

abbrev api : Ipv4Addr × Str
api = (record { a = 127; b = 53; c = 0; d = 2 }, codes "demo_api")

abbrev own : Str
own = codes "127.0.0.1 localhost\n"

abbrev hosts : HostsFile
hosts = record { text = some own; writes = [] }

own-Lacks : Lacks 13 own
unfolding contains_char
own-Lacks = refl

web-IsNamed : IsNamed (web ∷ [])
unfolding contains_char
web-IsNamed = ((refl, refl), tt)

merge_hosts_file-twice_example :
    merge_hosts_file (merge_hosts_file own (block_of (web ∷ []))) (block_of (api ∷ []))
    ≡ merge_hosts_file own (block_of (api ∷ []))
merge_hosts_file-twice_example =
    merge_hosts_file-twice own (web ∷ []) (api ∷ []) own-Lacks web-IsNamed

-- `render_host_block` and the merge, run on the sample.
applied : (apply_hosts_file (ok tt) complete hosts (block_of (web ∷ []))).0 ≡ ok tt
unfolding apply_hosts_file existing_text hosts_file_equivalent str_eq trim_end merge_hosts_file trim
    render_host_block show_ip decimal contains strip_neals_block write_in_place
applied = refl

apply_hosts_file-twice_example :
    apply_hosts_file
      (ok tt)
      complete
      (apply_hosts_file (ok tt) complete hosts (block_of (web ∷ []))).1
      (block_of (web ∷ []))
    ≡ (ok tt, (apply_hosts_file (ok tt) complete hosts (block_of (web ∷ []))).1)
apply_hosts_file-twice_example =
    apply_hosts_file-twice (ok tt) complete complete hosts (web ∷ []) own-Lacks web-IsNamed applied

abbrev demo_routes : Snapshot
demo_routes =
    (
      codes "demo",
      record { service = codes "web"; target = BoundTarget.tcp web.0 8000 8000; proxy = true }
          ∷ record {
            service = codes "api";
            target = BoundTarget.tcp api.0 8001 8001;
            proxy = false;
          }
          ∷ [],
    )
    ∷ []

host_entries_lem_example :
    AreSorted (host_entries demo_routes)
    × ((e : Entry) → times e (host_entries demo_routes) ≡ publications e demo_routes)
host_entries_lem_example = host_entries_lem demo_routes

abbrev sync_env : SyncEnv
sync_env = record {
  state_path = ok tt;
  write_fragment = complete;
  mirror = record {
    system_mode = false;
    parent_is_dir = true;
    reads = true;
    writes_tmp = true;
    renames = true;
  };
  read_system = ok tt;
  write_system = complete;
}

sync_env-IsWorking : IsWorking sync_env
sync_env-IsWorking = record { path = refl; fragment = refl; read = refl; write = refl }

abbrev fresh : HostsState
fresh = record {
  fragment = record { text = none; writes = [] };
  mirror = none;
  system = hosts;
  warnings = [];
}

demo_routes-IsNamed : IsNamed (host_entries demo_routes)
unfolding host_entries sort_entries insert_entry tcp_entries project_entries service_host_name
    str_leb contains_char
demo_routes-IsNamed = ((refl, refl), ((refl, refl), tt))

sync_host_aliases-twice_example :
    hosts_file_equivalent
      (text_of (sync_host_aliases sync_env [] (sync_host_aliases sync_env demo_routes fresh).1).1)
      (merge_hosts_file (text_of fresh) (block_of (host_entries [])))
    ≡ true
sync_host_aliases-twice_example =
    sync_host_aliases-twice sync_env sync_env demo_routes [] fresh sync_env-IsWorking
      sync_env-IsWorking own-Lacks demo_routes-IsNamed
