-- ===== src/Daemon/Ports.antt =====
-- crates/daemon/src/ports.rs: the loopback addresses 127.53.x.y and the host ports of services.
-- The sockets of the host are a parameter: what a bind of an address and a port answers.
pub mod Keys
pub mod Scan
pub mod Leases
pub mod Preferred
use neals.Prelude.{
  ℕ, zero, suc, ◌+◌, Bool, true, false, not, ◌&&◌, ◌||◌, Option, none, some, List, [], ◌∷◌,
}
use neals.Prelude.Bools.{◌==◌, if◌then◌else◌}
use neals.Prelude.Outcome.{Outcome, ok, err, ◌>>=◌}
pub use neals.Prelude.Net.{Ipv4Addr}

abbrev pub Key : Type 0
Key = ℕ × ℕ

abbrev pub key_eq : Key → Key → Bool
key_eq (x, y) (u, v) = x == u && y == v

-- `HashSet<(u8, u8)>`, as a list of keys.
pub record LoopbackLeases : Type 0 where
  pub used : List Key

pub record HostEndpoint : Type 0 where
  pub ip : Ipv4Addr
  pub port : ℕ

-- What `TcpListener::bind` answers: an error, or a listener whose `local_addr` may fail.
pub data Listen : Type 0 where
  refused : Listen
  opened : Option ℕ → Listen

-- The host's sockets during one call of `allocate`: the probe of an address at port 0, and the
-- bind that follows it.
pub record Sockets : Type 0 where
  pub probe : Ipv4Addr → Bool
  pub listen : Ipv4Addr → ℕ → Listen

pub data PortError : Type 0 where
  no_free_address : PortError
  no_ephemeral_port : Ipv4Addr → PortError
  no_free_port : Ipv4Addr → ℕ → PortError
  bind_failed local_addr_failed : PortError

abbrev pub u16_max : ℕ
u16_max = 65535

unfoldable pub has_key : List Key → Key → Bool
has_key [] k = false
has_key (j ∷ js) k = key_eq j k || has_key js k

unfoldable pub insert_key : List Key → Key → List Key
unfolding has_key
insert_key js k = if has_key js k then js else k ∷ js

unfoldable pub remove_key : List Key → Key → List Key
remove_key [] k = []
remove_key (j ∷ js) k = let rest = remove_key js k in if key_eq j k then rest else j ∷ rest

abbrev pub loopback : Key → Ipv4Addr
loopback (x, y) = record { a = 127; b = 53; c = x; d = y }

unfoldable pub octet_key : Ipv4Addr → Option Key
octet_key ip = if ip.a == 127 && ip.b == 53 then some (ip.c, ip.d) else none

unfoldable pub release : LoopbackLeases → Ipv4Addr → LoopbackLeases
unfolding octet_key remove_key
release l ip = elim (octet_key ip) [ some k ↦ record { used = remove_key l.used k } | none ↦ l ]

unfoldable pub contains : LoopbackLeases → Ipv4Addr → Bool
unfolding octet_key has_key
contains l ip = elim (octet_key ip) [ some k ↦ has_key l.used k | none ↦ false ]

-- The inner loop of `next_ip`, with the rounds that are left of `for y in 1..=255`.
pub scan_row : (Key → Bool) → ℕ → ℕ → ℕ → Option Key
scan_row free zero x y = none
scan_row free (suc n) x y = elim (free (x, y)) [
  | true ↦ some (x, y)
  | false ↦ scan_row free n x (y + 1)
]

-- The outer loop, `for x in 0..=255`.
pub scan_rows : (Key → Bool) → ℕ → ℕ → Option Key
scan_rows free zero x = none
scan_rows free (suc n) x = elim (scan_row free 255 x 1) [
  | some k ↦ some k
  | none ↦ scan_rows free n (x + 1)
]

-- A key is taken if it is not leased and the stack accepts its address.
abbrev pub is_free : LoopbackLeases → Sockets → Key → Bool
is_free l s k = not (has_key l.used k) && s.probe (loopback k)

unfoldable pub next_ip : LoopbackLeases → Sockets → Outcome PortError Ipv4Addr × LoopbackLeases
unfolding insert_key scan_rows scan_row
next_ip l s = elim (scan_rows (is_free l s) 256 0) [
  | some k ↦ (ok (loopback k), record { used = insert_key l.used k })
  | none ↦ (err no_free_address, l)
]

local_port : Option ℕ → Outcome PortError ℕ
local_port none = err local_addr_failed
local_port (some p) = ok p

-- Each of the 64 rounds returns or fails, so only the first is made.
ephemeral_rounds : ℕ → Sockets → Ipv4Addr → Outcome PortError ℕ
unfolding local_port
ephemeral_rounds zero s ip = err (no_ephemeral_port ip)
ephemeral_rounds (suc n) s ip = elim (s.listen ip 0) [
  | refused ↦ err bind_failed
  | opened p ↦ local_port p
]

unfoldable pub bind_ephemeral : Sockets → Ipv4Addr → Outcome PortError ℕ
unfolding ephemeral_rounds
bind_ephemeral s ip = ephemeral_rounds 64 s ip

-- `start` is kept for the message; `port` moves up and never passes `u16::MAX`.
unfoldable pub preferred_rounds : ℕ → Sockets → Ipv4Addr → ℕ → ℕ → Outcome PortError ℕ
unfolding local_port
preferred_rounds zero s ip start port = err (no_free_port ip start)
preferred_rounds (suc n) s ip start port = elim (s.listen ip port) [
  | opened p ↦ local_port p
  | refused ↦ elim (port == u16_max) [
    | true ↦ err (no_free_port ip start)
    | false ↦ preferred_rounds n s ip start (port + 1)
  ]
]

unfoldable pub bind_preferred : Sockets → Ipv4Addr → ℕ → Outcome PortError ℕ
unfolding preferred_rounds
bind_preferred s ip start = preferred_rounds 1024 s ip start start

abbrev pub bind_port : Sockets → Ipv4Addr → Option ℕ → Outcome PortError ℕ
bind_port s ip none = bind_ephemeral s ip
bind_port s ip (some start) = if start == 0 then bind_ephemeral s ip else bind_preferred s ip start

abbrev pub endpoint_of : Ipv4Addr → Outcome PortError ℕ → Outcome PortError HostEndpoint
endpoint_of ip (ok port) = ok (record { ip = ip; port = port })
endpoint_of ip (err e) = err e

abbrev pub finish_allocate :
    Sockets
    → Option ℕ
    → Outcome PortError Ipv4Addr × LoopbackLeases
    → Outcome PortError HostEndpoint × LoopbackLeases
finish_allocate s preferred (ok ip, l) = (endpoint_of ip (bind_port s ip preferred), l)
finish_allocate s preferred (err e, l) = (err e, l)

-- The set keeps an address whose port then fails to bind.
unfoldable pub allocate :
    LoopbackLeases → Sockets → Option ℕ → Outcome PortError HostEndpoint × LoopbackLeases
allocate l s preferred = finish_allocate s preferred (next_ip l s)
