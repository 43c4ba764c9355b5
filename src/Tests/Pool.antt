-- ===== src/Tests/Pool.antt =====
-- The pool of addresses and the search for a port, at a host where some ports are taken.
use neals.Prelude.{refl, true, ◌≡◌, ◌↔◌, some, [], arith}
use neals.Prelude.Bools.{ltb, if◌then◌else◌}
use neals.Prelude.Outcome.{ok}
use neals.Daemon.Ports.{
  Sockets, LoopbackLeases, Ipv4Addr, refused, opened, no_free_port, allocate, bind_preferred,
  preferred_rounds,
}
use neals.Daemon.Ports.Leases.{Allocated, allocate_lem}
use neals.Daemon.Ports.Preferred.{FoundAt, NoneFound, bind_preferred_iff, bind_preferred_err}

-- Every address can be bound, and every port but those below 8002.
abbrev busy : Sockets
busy = record {
  probe = λ ip. true;
  listen = λ ip port. if ltb port 8002 then refused else opened (some port);
}

abbrev full : Sockets
full = record { probe = λ ip. true; listen = λ ip port. refused }

abbrev none_leased : LoopbackLeases
none_leased = record { used = [] }

abbrev first_ip : Ipv4Addr
first_ip = record { a = 127; b = 53; c = 0; d = 1 }

allocate_lem_example :
    Allocated none_leased busy (some 8000) (allocate none_leased busy (some 8000))
allocate_lem_example = allocate_lem none_leased busy (some 8000)

bind_preferred_iff_example :
    (bind_preferred busy first_ip 8000 ≡ ok 8002) ↔ FoundAt busy first_ip 8000 1024 8002
bind_preferred_iff_example = bind_preferred_iff busy first_ip 8000 8002 (omega arith)

bind_preferred_err_example : NoneFound full first_ip 65534 1024
unfolding bind_preferred preferred_rounds
bind_preferred_err_example =
    bind_preferred_err full first_ip 65534 (no_free_port first_ip 65534) refl
