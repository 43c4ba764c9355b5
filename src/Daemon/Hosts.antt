-- ===== src/Daemon/Hosts.antt =====
-- crates/daemon/src/hosts.rs: the names of the running services, in the guest's hosts file and in the
-- one of the host.
pub mod Entries
pub mod Sync
use neals.Prelude.{Bool, true, false, not, ◌&&◌, Option, none, some, List, [], ◌∷◌, ◌++◌}
use neals.Prelude.Bools.{if◌then◌else◌}
use neals.Prelude.Net.{Ipv4Addr}
use neals.Prelude.Outcome.{Outcome, ok, err}
use neals.Prelude.Text.{Str, codes, str_leb}
use neals.Common.Devenv.{service_host_name}
use neals.Common.Hosts.{
  HostsFile, Write, write_in_place, MirrorEnv, mirror_system_hosts_fragment, apply_hosts_file,
  block_of,
}
use neals.Daemon.Routes.{BoundRoute, BoundTarget, Snapshot}

unfoldable pub guest_lines : Str → List Str → Str
guest_lines project [] = []
guest_lines project (service ∷ services) =
    codes "127.0.0.1 "
    ++ (service ++ b' ' ∷ (service_host_name project service ++ 10 ∷ guest_lines project services))

unfoldable pub guest_hosts_body : Str → List Str → Str
guest_hosts_body project services =
    codes "127.0.0.1 localhost\n::1 localhost\n" ++ guest_lines project services

abbrev pub Entry : Type 0
Entry = Ipv4Addr × Str

-- A route that is no TCP route is passed over.
abbrev pub route_entry : Str → BoundRoute → BoundTarget → List Entry → List Entry
route_entry project r (BoundTarget.unix file) rest = rest
route_entry project r (BoundTarget.tcp ip host_port guest_port) rest =
    (ip, service_host_name project r.service) ∷ rest

unfoldable pub project_entries : Str → List BoundRoute → List Entry
project_entries project [] = []
project_entries project (r ∷ rs) = route_entry project r r.target (project_entries project rs)

unfoldable pub tcp_entries : Snapshot → List Entry
tcp_entries [] = []
tcp_entries ((project, routes) ∷ projects) = project_entries project routes ++ tcp_entries projects

-- `sort_by` the names, which keeps equal names in order.
unfoldable pub insert_entry : Entry → List Entry → List Entry
insert_entry e [] = e ∷ []
insert_entry e (f ∷ fs) =
    let rest = insert_entry e fs in if str_leb e.1 f.1 then e ∷ f ∷ fs else f ∷ rest

unfoldable pub sort_entries : List Entry → List Entry
sort_entries [] = []
sort_entries (e ∷ es) = insert_entry e (sort_entries es)

unfoldable pub host_entries : Snapshot → List Entry
host_entries projects = sort_entries (tcp_entries projects)

-- How the calls of one synchronisation end.
pub record SyncEnv : Type 0 where
  pub state_path : Outcome Str (Unit {0})
  pub write_fragment : Write
  pub mirror : MirrorEnv
  pub read_system : Outcome Str (Unit {0})
  pub write_system : Write

-- The three files, and the warnings that were printed.
pub record HostsState : Type 0 where
  pub fragment : HostsFile
  pub mirror : Option Str
  pub system : HostsFile
  pub warnings : List Str

abbrev pub warned : Bool → Outcome Str (Unit {0}) → List Str → List Str
warned mirrored (ok u) warnings = warnings
warned mirrored (err e) warnings = if mirrored then warnings else e ∷ warnings

-- What follows the writing of the fragment.
abbrev pub published :
    SyncEnv
    → Str
    → HostsState
    → Outcome Str (Unit {0}) × HostsFile
    → Outcome Str (Unit {0}) × HostsState
published env block st (err e, fragment) = (err e, record st { fragment = fragment })
published env block st (ok u, fragment) =
    let (mirrored, mirror) = mirror_system_hosts_fragment env.mirror st.mirror block in
    let (done, system) = apply_hosts_file env.read_system env.write_system st.system block in
    (
      ok tt,
      record {
        fragment = fragment;
        mirror = mirror;
        system = system;
        warnings = warned mirrored done st.warnings;
      },
    )

abbrev pub sync_in :
    SyncEnv → Str → HostsState → Outcome Str (Unit {0}) → Outcome Str (Unit {0}) × HostsState
sync_in env block st (err e) = (err e, st)
sync_in env block st (ok u) =
    published env block st (write_in_place env.write_fragment st.fragment block)

unfoldable pub sync_host_aliases :
    SyncEnv → Snapshot → HostsState → Outcome Str (Unit {0}) × HostsState
sync_host_aliases env projects st = sync_in env (block_of (host_entries projects)) st env.state_path
