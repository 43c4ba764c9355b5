-- ===== src/Daemon/State/Counts.antt =====
-- How often an address is leased, and how often it is bound, as numbers: an address of the pool is
-- used properly if it is bound at most as often as it is leased, which is at most once.
use neals.Prelude.{
  inr, inl, ℕ, ◌+◌, ◌≤◌, ◌≡◌, refl, Bool, true, false, Option, none, some, List, [], ◌∷◌, ◌++◌,
  arith,
}
use neals.Prelude.Bools.{◌==◌, if◌then◌else◌, Bool-cases}
use neals.Prelude.Lists.{find}
use neals.Prelude.Text.{Str, str_eq}
use neals.Daemon.Ports.{Ipv4Addr, LoopbackLeases, contains}
use neals.Daemon.Ports.Keys.{ip_eq, contains-release}
use neals.Daemon.Routes.{BoundRoute, host_ip}
use neals.Daemon.State.{RunningProject, release_ip, release_routes, without, is_named}

abbrev pub indicator : Bool → ℕ
indicator true = 1
indicator false = 0

pub indicator_le : (b : Bool) → indicator b ≤ 1
indicator_le true = omega arith
indicator_le false = omega arith

abbrev pub lease : LoopbackLeases → Ipv4Addr → ℕ
lease l ip = indicator (contains l ip)

abbrev pub one_ip : Option Ipv4Addr → Ipv4Addr → ℕ
one_ip none ip = 0
one_ip (some j) ip = indicator (ip_eq j ip)

-- How many of the routes are bound to the address.
unfoldable pub holds : List BoundRoute → Ipv4Addr → ℕ
holds [] ip = 0
holds (r ∷ rs) ip = one_ip (host_ip r) ip + holds rs ip

unfoldable pub project_holds : List RunningProject → Ipv4Addr → ℕ
project_holds [] ip = 0
project_holds (p ∷ ps) ip = holds p.bound ip + project_holds ps ip

pub holds-append :
    (xs ys : List BoundRoute) (ip : Ipv4Addr) → holds (xs ++ ys) ip ≡ holds xs ip + holds ys ip
unfolding holds
holds-append [] ys ip = omega arith
holds-append (r ∷ rs) ys ip = omega (arith, holds-append rs ys ip)

pub project_holds-append :
    (xs ys : List RunningProject) (ip : Ipv4Addr)
    → project_holds (xs ++ ys) ip ≡ project_holds xs ip + project_holds ys ip
unfolding project_holds
project_holds-append [] ys ip = omega arith
project_holds-append (p ∷ ps) ys ip = omega (arith, project_holds-append ps ys ip)

contains-release_ip :
    (l : LoopbackLeases) (o : Option Ipv4Addr) (ip : Ipv4Addr)
    → contains (release_ip l o) ip ≡ (if one_ip o ip == 0 then contains l ip else false)
contains-release_ip l none ip = refl
contains-release_ip l (some j) ip = ground (arith, contains-release l j ip)

-- Releasing routes ends the leases of their addresses and of no others.
pub contains-release_routes :
    (l : LoopbackLeases) (rs : List BoundRoute) (ip : Ipv4Addr)
    → contains (release_routes l rs) ip ≡ (if holds rs ip == 0 then contains l ip else false)
unfolding release_routes holds
contains-release_routes l [] ip = refl
contains-release_routes l (r ∷ rs) ip = ground (
  arith,
  contains-release_ip l (host_ip r) ip,
  contains-release_routes (release_ip l (host_ip r)) rs ip,
)

-- Giving routes back keeps what others bind within the leases.
pub release_routes-within :
    (l : LoopbackLeases) (rs : List BoundRoute) (ip : Ipv4Addr) (others : ℕ)
    → others + holds rs ip ≤ lease l ip
    → others ≤ lease (release_routes l rs) ip
release_routes-within l rs ip others h = ground (arith, contains-release_routes l rs ip)

pub project_holds-without :
    (ps : List RunningProject) (name : Str) (p : RunningProject) (ip : Ipv4Addr)
    → find (is_named name) ps ≡ some p
    → project_holds ps ip ≡ holds p.bound ip + project_holds (without ps name) ip
unfolding find without project_holds
project_holds-without [] name p ip h = ground arith
project_holds-without (q ∷ qs) name p ip h = elim (Bool-cases (str_eq q.name name)) [
  | inl e ↦ ground arith
  | inr e ↦ ground (arith, project_holds-without qs name p ip)
]
