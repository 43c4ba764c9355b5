-- ===== src/Daemon/Ports/Keys.antt =====
-- The set of leased keys of crates/daemon/src/ports.rs.
use neals.Prelude.{◌≡◌, Bool, true, false, ◌||◌, ◌&&◌, List, [], ◌∷◌, arith}
use neals.Prelude.Bools.{◌==◌, if◌then◌else◌}
use neals.Daemon.Ports.{
  Key, key_eq, has_key, insert_key, remove_key, Ipv4Addr, LoopbackLeases, loopback, octet_key,
  release, contains,
}

pub key_eq_sound : (j k : Key) → key_eq j k ≡ true → j ≡ k
key_eq_sound (x, y) (u, v) h = ground arith

pub key_eq_refl : (k : Key) → key_eq k k ≡ true
key_eq_refl (x, y) = ground arith

pub has_key-insert :
    (js : List Key) (k j : Key) → has_key (insert_key js k) j ≡ (key_eq k j || has_key js j)
unfolding has_key insert_key
has_key-insert js k j = ground (arith, key_eq_sound k j, key_eq_refl k)

pub has_key-remove :
    (js : List Key) (k j : Key)
    → has_key (remove_key js k) j ≡ (if key_eq k j then false else has_key js j)
unfolding has_key remove_key
has_key-remove [] (x, y) (u, v) = ground arith
has_key-remove ((p, q) ∷ js) (x, y) (u, v) = ground (arith, has_key-remove js (x, y) (u, v))

-- The addresses that the daemon hands out.
abbrev pub IsLoopback : Ipv4Addr → Type 0
IsLoopback ip = (ip.a ≡ 127) × (ip.b ≡ 53)

abbrev pub ip_eq : Ipv4Addr → Ipv4Addr → Bool
ip_eq i j = i.a == j.a && i.b == j.b && i.c == j.c && i.d == j.d

pub ip_eq_sound : (i j : Ipv4Addr) → ip_eq i j ≡ true → i ≡ j
ip_eq_sound i j h = ground arith

pub ip_eq_refl : (i : Ipv4Addr) → ip_eq i i ≡ true
ip_eq_refl i = ground arith

-- Releasing an address removes that address, and no other, from the leases.
pub contains-release :
    (l : LoopbackLeases) (ip other : Ipv4Addr)
    → contains (release l ip) other ≡ (if ip_eq ip other then false else contains l other)
unfolding contains release octet_key
contains-release l ip other = ground (arith, has_key-remove l.used (ip.c, ip.d) (other.c, other.d))

pub contains-loopback : (l : LoopbackLeases) (k : Key) → contains l (loopback k) ≡ has_key l.used k
unfolding contains octet_key
contains-loopback l (x, y) = ground arith
