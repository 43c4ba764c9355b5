-- ===== src/Tests/Nix.antt =====
-- A `devenv.nix` with a service of a port, one of a socket, and a route of the older form.
use neals.Prelude.{◌≡◌, refl, none, some, [], ◌∷◌, true, false}
use neals.Prelude.Outcome.{ok}
use neals.Prelude.Text.{
  str_eq, str_leb, contains_char, is_ascii_digit, is_ascii_lower, starts_with, codes,
}
use neals.Prelude.Lists.{all, any}
use neals.Common.Devenv.{is_valid_project_name, is_valid_socket_file, ServiceKind}
use neals.Common.Devenv.Nix.{
  walk_attrset, walk_value, top_level_attrset, attr_path_idents, get_lit, put_lit, path_eq,
  below_neals, top_level_attrset, walk_value, walk_attrset, pos, Expr, attr_set, lambda,
  attrpath_value, no_values, literal, Attr, Literals, NixLit, collect_neals_literals,
}
use neals.Common.Devenv.Nix.Paths.{Collected, file_bindings, collect_neals_literals-Collected}
use neals.Common.Devenv.Services.{
  draft_all, draft_binding, set_field, lit_port, draft_of, lit_str, put_draft, decl_all, into_decl,
  route_all, route_binding, sort_decls, insert_sorted, services_of,
}
use neals.Common.Devenv.Services.Sorted.{Services, services_of-Services}
use Prim.Native.String.{String}

abbrev key : String → Attr
key s = Attr.ident (some (codes s))

-- `{ ... }: { neals.services = { web.port = 8000; api.socket = "api.sock"; }; neals.route.old = "tcp"; }`
abbrev sample : Expr
sample = lambda (
    attr_set (
      attrpath_value (some (key "neals" ∷ key "services" ∷ []))
        (attr_set (
          attrpath_value (some (key "web" ∷ key "port" ∷ [])) (Expr.integer (ok (pos 8000))) (
            attrpath_value (some (key "api" ∷ key "socket" ∷ []))
              (Expr.str (literal (codes "api.sock") ∷ [])) no_values)))
        (attrpath_value (some (key "neals" ∷ key "route" ∷ key "old" ∷ []))
          (Expr.str (literal (codes "tcp") ∷ [])) no_values)))

abbrev found : Literals
found =
    (codes "services" ∷ codes "web" ∷ codes "port" ∷ [], NixLit.int (pos 8000))
    ∷ (codes "services" ∷ codes "api" ∷ codes "socket" ∷ [], NixLit.str (codes "api.sock"))
    ∷ (codes "route" ∷ codes "old" ∷ [], NixLit.str (codes "tcp"))
    ∷ []

sample-found : collect_neals_literals sample ≡ ok found
unfolding collect_neals_literals walk_attrset walk_value top_level_attrset attr_path_idents get_lit
    put_lit path_eq str_eq below_neals
sample-found = refl

sample-services :
    services_of found
    ≡ ok (
        record { service = codes "api"; kind = ServiceKind.unix (codes "api.sock") }
        ∷ record { service = codes "old"; kind = ServiceKind.tcp none true }
        ∷ record { service = codes "web"; kind = ServiceKind.tcp (some 8000) false }
        ∷ [])
unfolding services_of draft_all draft_binding str_eq is_valid_project_name set_field lit_port
    draft_of lit_str is_valid_socket_file put_draft decl_all into_decl route_all route_binding any
    sort_decls insert_sorted all contains_char is_ascii_digit is_ascii_lower starts_with str_leb
sample-services = refl

collect_neals_literals-Collected_example :
    Collected (file_bindings (top_level_attrset sample)) (collect_neals_literals sample)
collect_neals_literals-Collected_example = collect_neals_literals-Collected sample

services_of-Services_example : Services (services_of found)
services_of-Services_example = services_of-Services found
