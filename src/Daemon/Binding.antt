-- ===== src/Daemon/Binding.antt =====
-- crates/daemon/src/handler.rs, `bind_services`: an address and a port for each service of a project
-- that is started. The errors are those of a start.
pub mod Within
use neals.Prelude.{ℕ, zero, suc, ◌+◌, Bool, true, false, Option, none, some, List, [], ◌∷◌, ◌++◌}
use neals.Prelude.Outcome.{Outcome, ok, err}
use neals.Prelude.Text.{Str}
use neals.Common.Devenv.{ServiceDecl, ServiceKind}
use neals.Daemon.Ports.{LoopbackLeases, HostEndpoint, PortError, Sockets, allocate}
use neals.Daemon.Routes.{BoundRoute, BoundTarget}
use neals.Daemon.Caddy.{CaddyError}
use neals.Daemon.State.{release_routes}

pub data UpError : Type 0 where
  already_running not_registered path_missing : Str → UpError
  host : Str → UpError
  endpoint_failed : Str → PortError → UpError
  caddy : CaddyError → UpError
  no_pid exited_early : UpError

abbrev pub or_else : Option ℕ → ℕ → ℕ
or_else none d = d
or_else (some n) d = n

abbrev pub bound_endpoint :
    ServiceDecl
    → Option ℕ
    → Bool
    → Outcome PortError HostEndpoint × LoopbackLeases
    → Outcome UpError BoundRoute × LoopbackLeases
bound_endpoint decl preferred proxy (err e, l) = (err (endpoint_failed decl.service e), l)
bound_endpoint decl preferred proxy (ok ep, l) = (
  ok (record {
    service = decl.service;
    target = BoundTarget.tcp ep.ip ep.port (or_else preferred ep.port);
    proxy = proxy;
  }),
  l,
)

unfoldable pub bind_kind :
    Sockets
    → LoopbackLeases
    → ServiceDecl
    → ServiceKind
    → Outcome UpError BoundRoute × LoopbackLeases
bind_kind s l decl (ServiceKind.unix file) =
    (ok (record { service = decl.service; target = BoundTarget.unix file; proxy = true }), l)
bind_kind s l decl (ServiceKind.tcp preferred proxy) =
    bound_endpoint decl preferred proxy (allocate l s preferred)

unfoldable pub bind_one :
    Sockets → LoopbackLeases → ServiceDecl → Outcome UpError BoundRoute × LoopbackLeases
unfolding bind_kind
bind_one s l decl = bind_kind s l decl decl.kind

abbrev pub bind_next :
    List BoundRoute
    → Outcome UpError BoundRoute × LoopbackLeases
    → (List BoundRoute → LoopbackLeases → Outcome UpError (List BoundRoute) × LoopbackLeases)
    → Outcome UpError (List BoundRoute) × LoopbackLeases
bind_next bound (err e, l) rest = (err e, release_routes l bound)
bind_next bound (ok route, l) rest = rest (bound ++ route ∷ []) l

-- The loop of `bind_services` over the services left, with the routes bound so far; the host's
-- sockets are asked anew for each service.
unfoldable pub bind_from :
    (ℕ → Sockets)
    → ℕ
    → List ServiceDecl
    → List BoundRoute
    → LoopbackLeases
    → Outcome UpError (List BoundRoute) × LoopbackLeases
bind_from sockets i [] bound l = (ok bound, l)
bind_from sockets i (decl ∷ decls) bound l =
    bind_next bound (bind_one (sockets i) l decl)
      (λ bound' l'. bind_from sockets (suc i) decls bound' l')

unfoldable pub bind_services :
    (ℕ → Sockets)
    → LoopbackLeases
    → List ServiceDecl
    → Outcome UpError (List BoundRoute) × LoopbackLeases
unfolding bind_from bind_one
bind_services sockets l services = bind_from sockets 0 services [] l
