-- ===== src/Daemon/Binding/Within.antt =====
-- The leases of `bind_services` of crates/daemon/src/handler.rs, beside the routes that it returns.
use neals.Prelude.{inr, inl, ℕ, suc, ◌+◌, ◌≤◌, ◌≡◌, Bool, Option, List, [], ◌∷◌, ◌++◌, arith}
use neals.Prelude.Outcome.{Outcome, ok, err}
use neals.Common.Devenv.{ServiceDecl, ServiceKind}
use neals.Daemon.Ports.{Ipv4Addr, LoopbackLeases, HostEndpoint, PortError, Sockets, allocate}
use neals.Daemon.Ports.Keys.{ip_eq, ip_eq_sound}
use neals.Daemon.Ports.Leases.{Leased, Allocated, allocate_lem}
use neals.Daemon.Routes.{BoundRoute, host_ip}
use neals.Daemon.State.Counts.{lease, one_ip, holds, indicator, holds-append, release_routes-within}
use neals.Daemon.Binding.{
  UpError, bound_endpoint, bind_kind, bind_one, bind_next, bind_from, bind_services,
}

-- One more address is leased: the route's, which was free. An error may leave one leased too.
abbrev BoundOne : LoopbackLeases → Outcome UpError BoundRoute × LoopbackLeases → Type 0
BoundOne l (ok r, m) = (ip : Ipv4Addr) → lease m ip ≡ lease l ip + one_ip (host_ip r) ip
BoundOne l (err e, m) = (ip : Ipv4Addr) → lease l ip ≤ lease m ip

lease-Leased :
    (l m : LoopbackLeases) (j ip : Ipv4Addr)
    → Leased l m j
    → lease m ip ≡ lease l ip + indicator (ip_eq j ip)
lease-Leased l m j ip h = ground (arith, h.added ip, h.fresh, ip_eq_sound j ip)

endpoint-BoundOne :
    (l : LoopbackLeases) (s : Sockets) (decl : ServiceDecl) (preferred : Option ℕ) (proxy : Bool)
    (r : Outcome PortError HostEndpoint × LoopbackLeases)
    → Allocated l s preferred r
    → BoundOne l (bound_endpoint decl preferred proxy r)
endpoint-BoundOne l s decl preferred proxy (ok ep, m) h = λ ip. lease-Leased l m ep.ip ip h.0
endpoint-BoundOne l s decl preferred proxy (err e, m) (inl h) = λ ip. rw (h.0) (omega arith)
endpoint-BoundOne l s decl preferred proxy (err e, m) (inr h) =
    λ ip. omega (arith, lease-Leased l m h.0 ip h.1)

bind_kind-BoundOne :
    (s : Sockets) (l : LoopbackLeases) (decl : ServiceDecl) (k : ServiceKind)
    → BoundOne l (bind_kind s l decl k)
unfolding bind_kind
bind_kind-BoundOne s l decl (ServiceKind.unix file) = λ ip. omega arith
bind_kind-BoundOne s l decl (ServiceKind.tcp preferred proxy) =
    endpoint-BoundOne l s decl preferred proxy (allocate l s preferred) (allocate_lem l s preferred)

-- Whatever else is bound within the leases stays within them, with the new routes on top.
abbrev pub Within : (Ipv4Addr → ℕ) → Outcome UpError (List BoundRoute) × LoopbackLeases → Type 0
Within others (ok bound, m) = (ip : Ipv4Addr) → others ip + holds bound ip ≤ lease m ip
Within others (err e, m) = (ip : Ipv4Addr) → others ip ≤ lease m ip

module _ (sockets : ℕ → Sockets) (others : Ipv4Addr → ℕ) where
  bind_next-Within :
      (bound : List BoundRoute) (l : LoopbackLeases)
      (rest : List BoundRoute → LoopbackLeases → Outcome UpError (List BoundRoute) × LoopbackLeases)
      (r : Outcome UpError BoundRoute × LoopbackLeases)
      → ((ip : Ipv4Addr) → others ip + holds bound ip ≤ lease l ip)
      → BoundOne l r
      → ((bound' : List BoundRoute) (l' : LoopbackLeases)
          → ((ip : Ipv4Addr) → others ip + holds bound' ip ≤ lease l' ip)
          → Within others (rest bound' l'))
      → Within others (bind_next bound r rest)
  unfolding holds
  bind_next-Within bound l rest (ok route, m) h b next =
      next (bound ++ route ∷ []) m
        (λ ip. omega (arith, holds-append bound (route ∷ []) ip, h ip, b ip))
  bind_next-Within bound l rest (err e, m) h b next =
      λ ip. release_routes-within m bound ip (others ip) (omega (arith, h ip, b ip))

  bind_from-Within :
      (i : ℕ) (decls : List ServiceDecl) (bound : List BoundRoute) (l : LoopbackLeases)
      → ((ip : Ipv4Addr) → others ip + holds bound ip ≤ lease l ip)
      → Within others (bind_from sockets i decls bound l)
  unfolding bind_from bind_one
  bind_from-Within i [] bound l h = h
  bind_from-Within i (decl ∷ decls) bound l h =
      bind_next-Within bound l _ (bind_one (sockets i) l decl) h
        (bind_kind-BoundOne (sockets i) l decl decl.kind)
        (λ bound' l' h'. bind_from-Within (suc i) decls bound' l' h')

  -- If what others have bound lies within the leases, then after `bind_services` it still does,
  -- with the routes that were bound on top; after an error, without any.
  pub bind_services-Within :
      (l : LoopbackLeases) (services : List ServiceDecl)
      → ((ip : Ipv4Addr) → others ip ≤ lease l ip)
      → Within others (bind_services sockets l services)
  unfolding bind_services holds
  bind_services-Within l services h = bind_from-Within 0 services [] l (λ ip. omega (arith, h ip))
