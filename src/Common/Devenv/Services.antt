-- ===== src/Common/Devenv/Services.antt =====
-- crates/common/src/devenv.rs: the services that the literals of `devenv.nix` declare. A hash map is
-- the list of its entries; in which order it yields them decides only which of several errors comes.
pub mod Drafted
pub mod Declared
pub mod Sorted
use neals.Prelude.{
  ℕ, ◌+◌, Bool, true, false, not, ◌&&◌, ◌||◌, Option, none, some, List, [], ◌∷◌, ◌++◌, map,
}
use neals.Prelude.Bools.{ltb, leb, if◌then◌else◌}
use neals.Prelude.Lists.{any}
use neals.Prelude.Outcome.{Outcome, ok, err, ◌>>=◌}
use neals.Prelude.Text.{Str, codes, str_eq, str_leb}
use neals.Common.Devenv.{
  ServiceDecl, ServiceKind, RouteDecl, RouteKind, ProjectName, from_devenv, fallback,
  is_valid_service_name, is_valid_project_name, is_valid_socket_file,
}
use neals.Common.Devenv.Nix.{
  ℤ, pos, negsuc, NixLit, NixError, AttrPath, Literals, Expr, get_lit, collect_neals_literals,
}

pub data DeclError : Type 0 where
  nix : NixError → DeclError
  invalid_service unset_service not_attrset both_port_and_socket socket_not_proxied :
      Str → DeclError
  unsupported_path : AttrPath → DeclError
  unknown_field not_integer not_boolean not_string : Str → Str → DeclError
  port_out_of_range : Str → ℤ → DeclError
  duplicate_field : Str → Str → DeclError
  invalid_socket : Str → Str → DeclError
  invalid_route conflicting_route route_not_string : Str → DeclError
  invalid_route_value : Str → Str → DeclError
  not_readable invalid_folder : Str → DeclError
  no_folder : DeclError

pub record ServiceDraft : Type 0 where
  pub port : Option ℕ
  pub proxy : Option Bool
  pub socket : Option Str

-- `ServiceDraft::default()`
abbrev pub no_draft : ServiceDraft
no_draft = record { port = none; proxy = none; socket = none }

abbrev unwrap_or : Bool → Option Bool → Bool
unwrap_or b none = b
unwrap_or b (some c) = c

abbrev pub is_false : Option Bool → Bool
is_false none = false
is_false (some b) = not b

abbrev pub decl_of : Str → Option Bool → Option ℕ → Option Str → Outcome DeclError ServiceDecl
decl_of service proxy (some port) none =
    ok (record { service = service; kind = ServiceKind.tcp (some port) (unwrap_or false proxy) })
decl_of service proxy none (some socket_file) =
    if is_false proxy
    then err (socket_not_proxied service)
    else ok (record { service = service; kind = ServiceKind.unix socket_file })
decl_of service proxy (some port) (some socket_file) = err (both_port_and_socket service)
decl_of service proxy none none = err (unset_service service)

unfoldable pub into_decl : ServiceDraft → Str → Outcome DeclError ServiceDecl
into_decl draft service = decl_of service draft.proxy draft.port draft.socket

unfoldable pub lit_port : NixLit → Str → Outcome DeclError ℕ
lit_port (NixLit.int (pos n)) service =
    if ltb n 1 || ltb 65535 n then err (port_out_of_range service (pos n)) else ok n
lit_port (NixLit.int (negsuc n)) service = err (port_out_of_range service (negsuc n))
lit_port (NixLit.str s) service = err (not_integer service (codes "port"))
lit_port (NixLit.bool b) service = err (not_integer service (codes "port"))

unfoldable pub lit_bool : NixLit → Str → Outcome DeclError Bool
lit_bool (NixLit.bool b) service = ok b
lit_bool (NixLit.int n) service = err (not_boolean service (codes "proxy"))
lit_bool (NixLit.str s) service = err (not_boolean service (codes "proxy"))

unfoldable pub lit_str : NixLit → Str → Outcome DeclError Str
lit_str (NixLit.str s) service = ok s
lit_str (NixLit.int n) service = err (not_string service (codes "socket"))
lit_str (NixLit.bool b) service = err (not_string service (codes "socket"))

-- A field is set once.
abbrev pub put_port : ServiceDraft → Str → ℕ → Option ℕ → Outcome DeclError ServiceDraft
put_port draft service port (some old) = err (duplicate_field service (codes "port"))
put_port draft service port none = ok (record draft { port = some port })

abbrev pub put_proxy : ServiceDraft → Str → Bool → Option Bool → Outcome DeclError ServiceDraft
put_proxy draft service proxy (some old) = err (duplicate_field service (codes "proxy"))
put_proxy draft service proxy none = ok (record draft { proxy = some proxy })

abbrev pub put_socket : ServiceDraft → Str → Str → Option Str → Outcome DeclError ServiceDraft
put_socket draft service sock (some old) = err (duplicate_field service (codes "socket"))
put_socket draft service sock none = ok (record draft { socket = some sock })

abbrev pub set_port : ServiceDraft → Str → NixLit → Outcome DeclError ServiceDraft
set_port draft service value =
    lit_port value service >>= λ port. put_port draft service port draft.port

abbrev pub set_proxy : ServiceDraft → Str → NixLit → Outcome DeclError ServiceDraft
set_proxy draft service value =
    lit_bool value service >>= λ proxy. put_proxy draft service proxy draft.proxy

abbrev pub set_socket : ServiceDraft → Str → NixLit → Outcome DeclError ServiceDraft
set_socket draft service value = lit_str value service >>= λ sock.
    if is_valid_socket_file sock
    then put_socket draft service sock draft.socket
    else err (invalid_socket service sock)

unfoldable pub set_field : ServiceDraft → Str → Str → NixLit → Outcome DeclError ServiceDraft
set_field draft service field value =
    if str_eq field (codes "port")
    then set_port draft service value
    else if str_eq field (codes "proxy")
    then set_proxy draft service value
    else if str_eq field (codes "socket")
    then set_socket draft service value
    else err (unknown_field service field)

abbrev pub Drafts : Type 0
Drafts = List (Str × ServiceDraft)

-- `entry(service).or_default()`, and the draft stored in its place.
unfoldable pub draft_of : Drafts → Str → ServiceDraft
draft_of [] service = no_draft
draft_of ((s, d) ∷ drafts) service = if str_eq s service then d else draft_of drafts service

unfoldable pub put_draft : Drafts → Str → ServiceDraft → Drafts
put_draft [] service draft = (service, draft) ∷ []
put_draft ((s, d) ∷ drafts) service draft =
    let rest = put_draft drafts service draft in
    if str_eq s service then (s, draft) ∷ drafts else (s, d) ∷ rest

-- What follows the service in the path is one field.
abbrev pub draft_field : Drafts → Str → AttrPath → NixLit → Outcome DeclError Drafts
draft_field drafts service [] value = err (not_attrset service)
draft_field drafts service (field ∷ []) value =
    set_field (draft_of drafts service) service field value >>= λ draft.
    ok (put_draft drafts service draft)
draft_field drafts service (field ∷ more ∷ path) value =
    err (unsupported_path (codes "services" ∷ service ∷ field ∷ more ∷ path))

unfoldable pub draft_binding : Drafts → AttrPath × NixLit → Outcome DeclError Drafts
draft_binding drafts ([], value) = ok drafts
draft_binding drafts (head ∷ [], value) = ok drafts
draft_binding drafts (head ∷ service ∷ path, value) =
    if str_eq head (codes "services")
    then if is_valid_service_name service
      then draft_field drafts service path value
      else err (invalid_service service)
    else ok drafts

unfoldable pub draft_all : Drafts → Literals → Outcome DeclError Drafts
draft_all drafts [] = ok drafts
draft_all drafts (b ∷ bindings) = draft_binding drafts b >>= λ drafts'. draft_all drafts' bindings

unfoldable pub decl_all : Drafts → Outcome DeclError (List ServiceDecl)
decl_all [] = ok []
decl_all ((service, draft) ∷ drafts) =
    into_decl draft service >>= λ decl. decl_all drafts >>= λ decls. ok (decl ∷ decls)

-- `seen` has the names of the services so far, so it is looked up among these.
abbrev pub is_seen : List ServiceDecl → Str → Bool
is_seen services service = any (λ (d : ServiceDecl). str_eq d.service service) services

abbrev pub route_decl : Str → NixLit → Outcome DeclError ServiceDecl
route_decl service (NixLit.int n) = err (route_not_string service)
route_decl service (NixLit.bool b) = err (route_not_string service)
route_decl service (NixLit.str raw) =
    if str_eq raw (codes "tcp")
    then ok (record { service = service; kind = ServiceKind.tcp none true })
    else if is_valid_socket_file raw
    then ok (record { service = service; kind = ServiceKind.unix raw })
    else err (invalid_route_value service raw)

abbrev pub add_route : List ServiceDecl → Str → NixLit → Outcome DeclError (List ServiceDecl)
add_route services service value =
    if is_valid_service_name service
    then if is_seen services service
      then err (conflicting_route service)
      else (route_decl service value >>= λ decl. ok (services ++ decl ∷ []))
    else err (invalid_route service)

unfoldable pub route_binding :
    List ServiceDecl → AttrPath × NixLit → Outcome DeclError (List ServiceDecl)
route_binding services (head ∷ service ∷ [], value) =
    if str_eq head (codes "route") then add_route services service value else ok services
route_binding services (head ∷ service ∷ more ∷ path, value) = ok services
route_binding services (head ∷ [], value) = ok services
route_binding services ([], value) = ok services

unfoldable pub route_all : List ServiceDecl → Literals → Outcome DeclError (List ServiceDecl)
route_all services [] = ok services
route_all services (b ∷ bindings) =
    route_binding services b >>= λ services'. route_all services' bindings

-- `sort_by`, which keeps equal names in order.
unfoldable pub insert_sorted : ServiceDecl → List ServiceDecl → List ServiceDecl
insert_sorted d [] = d ∷ []
insert_sorted d (e ∷ es) =
    let rest = insert_sorted d es in if str_leb d.service e.service then d ∷ e ∷ es else e ∷ rest

unfoldable pub sort_decls : List ServiceDecl → List ServiceDecl
sort_decls [] = []
sort_decls (d ∷ ds) = insert_sorted d (sort_decls ds)

-- `parse_neals_services`, of the literals that it collects.
unfoldable pub services_of : Literals → Outcome DeclError (List ServiceDecl)
services_of bindings = draft_all [] bindings >>= λ drafts.
    decl_all drafts >>= λ services. route_all services bindings >>= λ all. ok (sort_decls all)

abbrev pub lift_nix : Outcome NixError Literals → Outcome DeclError Literals
lift_nix (ok out) = ok out
lift_nix (err e) = err (nix e)

unfoldable pub parse_neals_services : Expr → Outcome DeclError (List ServiceDecl)
parse_neals_services expr = lift_nix (collect_neals_literals expr) >>= services_of

abbrev pub to_route_kind : ServiceKind → RouteKind
to_route_kind (ServiceKind.unix socket_file) = RouteKind.unix socket_file
to_route_kind (ServiceKind.tcp preferred proxy) = RouteKind.tcp

abbrev pub to_route : ServiceDecl → RouteDecl
to_route d = record { service = d.service; kind = to_route_kind d.kind }

unfoldable pub parse_neals_routes : Expr → Outcome DeclError (List RouteDecl)
parse_neals_routes expr = parse_neals_services expr >>= λ services. ok (map to_route services)

abbrev name_in : Option NixLit → Option Str
name_in (some (NixLit.str name)) = if is_valid_project_name name then some name else none
name_in (some (NixLit.int n)) = none
name_in (some (NixLit.bool b)) = none
name_in none = none

abbrev name_from : Outcome NixError Literals → Option Str
name_from (ok bindings) = name_in (get_lit bindings (codes "name" ∷ []))
name_from (err e) = none

unfoldable pub parse_neals_name : Expr → Option Str
parse_neals_name expr = name_from (collect_neals_literals expr)

-- `devenv.nix` is missing, or it is read and parsed, or it cannot be read.
abbrev pub File : Type 0
File = Option (Outcome Str Expr)

unfoldable pub read_neals_services : File → Outcome DeclError (List ServiceDecl)
read_neals_services none = ok []
read_neals_services (some (ok expr)) = parse_neals_services expr
read_neals_services (some (err e)) = err (not_readable e)

unfoldable pub read_neals_routes : File → Outcome DeclError (List RouteDecl)
read_neals_routes file = read_neals_services file >>= λ services. ok (map to_route services)

-- The folder's name is `none` where it is no text.
unfoldable pub fallback_name : Option Str → Outcome DeclError ProjectName
fallback_name none = err no_folder
fallback_name (some name) =
    if is_valid_project_name name then ok (fallback name) else err (invalid_folder name)

abbrev named_or : Option Str → Option Str → Outcome DeclError ProjectName
named_or folder (some name) = ok (from_devenv name)
named_or folder none = fallback_name folder

unfoldable pub resolve_project_name : File → Option Str → Outcome DeclError ProjectName
resolve_project_name none folder = fallback_name folder
resolve_project_name (some (ok expr)) folder = named_or folder (parse_neals_name expr)
resolve_project_name (some (err e)) folder = err (not_readable e)
