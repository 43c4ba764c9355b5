-- ===== src/Daemon/Hosts/Entries.antt =====
-- The order and the number of the entries of `host_entries` of crates/daemon/src/hosts.rs.
use neals.Prelude.{ℕ, ◌+◌, ◌∙◌, ◌++◌, ◌≡◌, refl, Bool, true, false, ◌&&◌, List, [], ◌∷◌, arith}
use neals.Prelude.Bools.{if◌then◌else◌, take_both}
use neals.Prelude.Text.{Str, str_eq, str_leb}
use neals.Prelude.Text.Order.{str_leb_total}
use neals.Common.Devenv.{service_host_name}
use neals.Daemon.Ports.Keys.{ip_eq}
use neals.Daemon.Routes.{Snapshot, BoundRoute, BoundTarget}
use neals.Daemon.Hosts.{
  route_entry, project_entries, Entry, tcp_entries, insert_entry, sort_entries, host_entries,
}

abbrev entry_eq : Entry → Entry → Bool
entry_eq (ip, name) (jp, other) = ip_eq ip jp && str_eq name other

-- How often an entry stands in a list.
abbrev pub times : Entry → List Entry → ℕ
times e [] = 0
times e (f ∷ fs) = (if entry_eq f e then 1 else 0) + times e fs

abbrev Heads : Str → List Entry → Type 0
Heads name [] = Unit
Heads name (e ∷ es) = str_leb name e.1 ≡ true

abbrev pub AreSorted : List Entry → Type 0
AreSorted [] = Unit
AreSorted (e ∷ es) = Heads e.1 es × AreSorted es

Heads-insert :
    (name : Str) (e : Entry) (es : List Entry)
    → str_leb name e.1 ≡ true
    → Heads name es
    → Heads name (insert_entry e es)
unfolding insert_entry
Heads-insert name e [] h k = h
Heads-insert name e (f ∷ fs) h k =
    take_both (Heads name) (str_leb e.1 f.1) (e ∷ f ∷ fs) (f ∷ insert_entry e fs) (λ le. h)
      (λ gt. k)

insert-AreSorted : (e : Entry) (es : List Entry) → AreSorted es → AreSorted (insert_entry e es)
unfolding insert_entry
insert-AreSorted e [] h = (tt, tt)
insert-AreSorted e (f ∷ fs) h =
    take_both AreSorted (str_leb e.1 f.1) (e ∷ f ∷ fs) (f ∷ insert_entry e fs) (λ le. (le, h))
      (λ gt. (Heads-insert f.1 e fs (str_leb_total e.1 f.1 gt) h.0, insert-AreSorted e fs h.1))

sort-AreSorted : (es : List Entry) → AreSorted (sort_entries es)
unfolding sort_entries
sort-AreSorted [] = tt
sort-AreSorted (e ∷ es) = insert-AreSorted e (sort_entries es) (sort-AreSorted es)

times-insert : (x e : Entry) (es : List Entry) → times x (insert_entry e es) ≡ times x (e ∷ es)
unfolding insert_entry
times-insert x e [] = refl
times-insert x e (f ∷ fs) = ground (arith, times-insert x e fs)

times-sort : (x : Entry) (es : List Entry) → times x (sort_entries es) ≡ times x es
unfolding sort_entries
times-sort x [] = refl
times-sort x (e ∷ es) = omega (arith, times-insert x e (sort_entries es), times-sort x es)

-- Whether a route of a project has its address published as the entry: a TCP route, under the name
-- of the project and the service.
abbrev pub publishes : Entry → Str → BoundRoute → Bool
publishes (ip, name) project r = elim r.target [
  | BoundTarget.unix file ↦ false
  | BoundTarget.tcp host_ip host_port guest_port ↦
      ip_eq host_ip ip && str_eq (project ++ b'_' ∷ r.service) name
]

-- How many routes of the projects do.
abbrev pub route_count : Entry → Str → List BoundRoute → ℕ
route_count e project [] = 0
route_count e project (r ∷ rs) = (if publishes e project r then 1 else 0) + route_count e project rs

abbrev pub publications : Entry → Snapshot → ℕ
publications e [] = 0
publications e ((project, routes) ∷ projects) =
    route_count e project routes + publications e projects

times-append : (e : Entry) (xs ys : List Entry) → times e (xs ++ ys) ≡ times e xs + times e ys
times-append e [] ys = omega arith
times-append e (x ∷ xs) ys = omega (arith, times-append e xs ys)

times-route :
    (e : Entry) (project : Str) (r : BoundRoute) (t : BoundTarget) (rest : List Entry)
    → r.target ≡ t
    → times e (route_entry project r t rest)
      ≡ (if publishes e project r then 1 else 0) + times e rest
unfolding service_host_name
times-route (ip, name) project r (BoundTarget.unix file) rest h = rw h (omega arith)
times-route (ip, name) project r (BoundTarget.tcp host_ip host_port guest_port) rest h = rw h refl

times-project :
    (e : Entry) (project : Str) (routes : List BoundRoute)
    → times e (project_entries project routes) ≡ route_count e project routes
unfolding project_entries
times-project e project [] = refl
times-project e project (r ∷ rs) = omega (
  arith,
  times-route e project r r.target (project_entries project rs) refl,
  times-project e project rs,
)

times-tcp :
    (e : Entry) (projects : Snapshot) → times e (tcp_entries projects) ≡ publications e projects
unfolding tcp_entries
times-tcp e [] = refl
times-tcp e ((project, routes) ∷ projects) = omega (
  arith,
  times-append e (project_entries project routes) (tcp_entries projects),
  times-project e project routes,
  times-tcp e projects,
)

-- The entries of a snapshot stand in the order of their names, and an entry stands there once for
-- each TCP route that has its address and, with the project before it, its name; no other route
-- adds one.
pub host_entries_lem :
    (projects : Snapshot)
    → AreSorted (host_entries projects)
      × ((e : Entry) → times e (host_entries projects) ≡ publications e projects)
unfolding host_entries
host_entries_lem projects = (
  sort-AreSorted (tcp_entries projects),
  λ e. times-sort e (tcp_entries projects) ∙ times-tcp e projects,
)
