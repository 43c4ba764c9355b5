-- ===== src/Daemon/Routes.antt =====
-- crates/daemon/src/state.rs: bound routes, and how a status shows them.
use neals.Prelude.{ℕ, Bool, Option, none, some, List, [], ◌∷◌, ◌++◌}
use neals.Prelude.Bools.{◌==◌, if◌then◌else◌}
use neals.Prelude.Decimal.{decimal}
use neals.Prelude.Text.{Str, codes}
use neals.Common.Devenv
use neals.Common.Devenv.{service_host_name}
use neals.Prelude.Net.{show_ip}
use neals.Common.Ipc.{ServiceRuntime}
use neals.Daemon.Ports.{Ipv4Addr}

pub data BoundTarget : Type 0 where
  unix : (socket_file : Str) → BoundTarget
  tcp : (host_ip : Ipv4Addr) → (host_port guest_port : ℕ) → BoundTarget

pub record BoundRoute : Type 0 where
  pub service : Str
  pub target : BoundTarget
  pub proxy : Bool

-- `format!("{host_ip}:{host_port}")`
unfoldable pub socket_addr : Ipv4Addr → ℕ → Str
unfolding show_ip
socket_addr ip port = show_ip ip ++ b':' ∷ decimal port

unfoldable pub http_url : Str → ℕ → Str
http_url host proxy_port =
    if proxy_port == 80
    then codes "http://" ++ host ++ codes "/"
    else codes "http://" ++ host ++ b':' ∷ decimal proxy_port ++ codes "/"

unfoldable pub tcp_address : Ipv4Addr → ℕ → ℕ → Str
unfolding socket_addr
tcp_address ip host_port guest_port =
    if host_port == guest_port
    then socket_addr ip host_port
    else socket_addr ip host_port ++ codes " (guest :" ++ decimal guest_port ++ codes ")"

unfoldable pub public_host : BoundRoute → Str → Str
public_host r project = Devenv.public_host r.service project

unfoldable pub dns_name : BoundRoute → Str → Str
dns_name r project = service_host_name project r.service

unfoldable pub to_runtime : BoundRoute → Str → ℕ → ServiceRuntime
to_runtime r project proxy_port = elim r.target [
  | unix file ↦ record {
    name = r.service;
    host = dns_name r project;
    address = [];
    url = http_url (public_host r project) proxy_port;
  }
  | tcp ip host_port guest_port ↦
      if r.proxy
      then record {
        name = r.service;
        host = dns_name r project;
        address = tcp_address ip host_port guest_port;
        url = http_url (public_host r project) proxy_port;
      }
      else record {
        name = r.service;
        host = dns_name r project;
        address = tcp_address ip host_port guest_port;
        url = [];
      }
]

abbrev target_ip : BoundTarget → Option Ipv4Addr
target_ip (unix file) = none
target_ip (tcp ip host_port guest_port) = some ip

abbrev target_port : BoundTarget → Option ℕ
target_port (unix file) = none
target_port (tcp ip host_port guest_port) = some host_port

abbrev target_guest : BoundTarget → Option ℕ
target_guest (unix file) = none
target_guest (tcp ip host_port guest_port) = some guest_port

abbrev pub host_ip : BoundRoute → Option Ipv4Addr
host_ip r = target_ip r.target

abbrev pub tcp_port : BoundRoute → Option ℕ
tcp_port r = target_port r.target

abbrev pub guest_tcp_port : BoundRoute → Option ℕ
guest_tcp_port r = target_guest r.target

abbrev pub Snapshot : Type 0
Snapshot = List (Str × List BoundRoute)
