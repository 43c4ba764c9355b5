-- ===== src/Daemon/Ports/Leases.antt =====
-- What `allocate` of crates/daemon/src/ports.rs does to the set of leases.
use neals.Prelude.{ℕ, ◌≡◌, ◌⊎◌, inl, inr, true, false, ◌||◌, Option, arith, refl}
use neals.Prelude.Bools.{Option-cases}
use neals.Prelude.Outcome.{Outcome, ok, err}
use neals.Daemon.Ports.{
  Ipv4Addr, Key, insert_key, LoopbackLeases, HostEndpoint, PortError, Sockets, loopback, is_free,
  scan_rows, next_ip, contains, allocate, release, bind_port, endpoint_of, finish_allocate,
}
use neals.Daemon.Ports.Keys.{
  ip_eq, ip_eq_sound, has_key-insert, contains-loopback, contains-release,
}
use neals.Daemon.Ports.Scan.{InGrid, scan_sound, scan_complete}

-- The address `ip` was free in `l`, and `m` is `l` with the lease of `ip` added.
pub record Leased (l m : LoopbackLeases) (ip : Ipv4Addr) : Type 0 where
  pub fresh : contains l ip ≡ false
  pub added : (other : Ipv4Addr) → contains m other ≡ (ip_eq ip other || contains l other)
  pub key : Key
  pub in_grid : InGrid key
  pub is_loopback : ip ≡ loopback key

contains-insert :
    (l : LoopbackLeases) (k : Key) (other : Ipv4Addr)
    → contains (record { used = insert_key l.used k }) other
      ≡ (ip_eq (loopback k) other || contains l other)
unfolding contains
contains-insert l (x, y) other = ground (arith, has_key-insert l.used (x, y) (other.c, other.d))

Leased-insert :
    (l : LoopbackLeases) (s : Sockets) (k : Key)
    → (is_free l s k ≡ true) × InGrid k
    → Leased l (record { used = insert_key l.used k }) (loopback k)
Leased-insert l s k h = record {
  fresh = ground (arith, contains-loopback l k, h.0);
  added = contains-insert l k;
  key = k;
  in_grid = h.1;
  is_loopback = refl;
}

-- No key of the grid can be leased.
abbrev pub IsExhausted : LoopbackLeases → Sockets → Type 0
IsExhausted l s = (k : Key) → InGrid k → is_free l s k ≡ false

abbrev pub NextIp : LoopbackLeases → Sockets → Outcome PortError Ipv4Addr × LoopbackLeases → Type 0
NextIp l s (ok ip, m) = Leased l m ip × (s.probe ip ≡ true)
NextIp l s (err e, m) = (m ≡ l) × IsExhausted l s

-- `next_ip` leases a fresh address that the stack accepts, or leaves the leases alone where no key
-- of the grid is free.
pub next_ip_lem : (l : LoopbackLeases) (s : Sockets) → NextIp l s (next_ip l s)
unfolding next_ip
next_ip_lem l s = elim (Option-cases (scan_rows (is_free l s) 256 0)) [
  | inl e ↦ rw (e, next_ip) (refl, λ k g. scan_complete (is_free l s) k e g)
  | inr (k, e) ↦
      let found = scan_sound (is_free l s) k e in
      rw (e, next_ip) (Leased-insert l s k found, ground (arith, found.0))
]

abbrev pub Allocated :
    LoopbackLeases → Sockets → Option ℕ → Outcome PortError HostEndpoint × LoopbackLeases → Type 0
Allocated l s preferred (ok ep, m) = Leased l m ep.ip × (bind_port s ep.ip preferred ≡ ok ep.port)
Allocated l s preferred (err e, m) =
    ((m ≡ l) × IsExhausted l s)
    ⊎ ((ip : Ipv4Addr) × Leased l m ip × (bind_port s ip preferred ≡ err e))

finish_allocate_lem :
    (l m : LoopbackLeases) (s : Sockets) (preferred : Option ℕ) (ip : Ipv4Addr)
    (port : Outcome PortError ℕ)
    → bind_port s ip preferred ≡ port
    → Leased l m ip
    → Allocated l s preferred (endpoint_of ip port, m)
finish_allocate_lem l m s preferred ip (ok port) e h = (h, e)
finish_allocate_lem l m s preferred ip (err x) e h = inr (ip, h, e)

finish_lem :
    (l : LoopbackLeases) (s : Sockets) (preferred : Option ℕ)
    (r : Outcome PortError Ipv4Addr × LoopbackLeases)
    → NextIp l s r
    → Allocated l s preferred (finish_allocate s preferred r)
finish_lem l s preferred (ok ip, m) h =
    finish_allocate_lem l m s preferred ip (bind_port s ip preferred) refl h.0
finish_lem l s preferred (err e, m) h = inl h

-- A call of `allocate` that succeeds leases one fresh address 127.53.x.y, 0 ≤ x ≤ 255 and
-- 1 ≤ y ≤ 255, and binds its port there. One that fails has found no free key and changed nothing,
-- or it has leased a fresh address whose port did not bind, and that lease stays.
pub allocate_lem :
    (l : LoopbackLeases) (s : Sockets) (preferred : Option ℕ)
    → Allocated l s preferred (allocate l s preferred)
unfolding allocate
allocate_lem l s preferred = finish_lem l s preferred (next_ip l s) (next_ip_lem l s)

-- Releasing what was just leased gives the leases back as they were.
pub release-allocate :
    (l m : LoopbackLeases) (ip other : Ipv4Addr)
    → Leased l m ip
    → contains (release m ip) other ≡ contains l other
release-allocate l m ip other h =
    ground (arith, contains-release m ip other, h.added other, h.fresh, ip_eq_sound ip other)
