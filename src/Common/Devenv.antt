-- ===== src/Common/Devenv.antt =====
-- crates/common/src/devenv.rs: the declarations that `devenv.nix` makes, and their names.
pub mod Inject
pub mod Nix
pub mod Services
use neals.Prelude.{◌||◌, ℕ, Bool, true, false, not, ◌&&◌, Option, [], ◌∷◌, ◌++◌, map}
use neals.Prelude.Bools.{◌==◌, leb, if◌then◌else◌}
use neals.Prelude.Lists.{length, all}
use neals.Prelude.Text.{
  Str, codes, str_eq, is_empty, starts_with, contains_char, is_ascii_lower, is_ascii_digit,
  is_ascii_alphanumeric, to_ascii_upper,
}

-- A project's name comes from `neals.name`, or from its folder.
pub data ProjectName : Type 0 where
  from_devenv fallback : Str → ProjectName

unfoldable pub as_str : ProjectName → Str
as_str (from_devenv name) = name
as_str (fallback name) = name

pub data ServiceKind : Type 0 where
  tcp : (preferred_port : Option ℕ) → (proxy : Bool) → ServiceKind
  unix : (socket_file : Str) → ServiceKind

pub record ServiceDecl : Type 0 where
  pub service : Str
  pub kind : ServiceKind

pub data RouteKind : Type 0 where
  unix : (socket_file : Str) → RouteKind
  tcp : RouteKind

pub record RouteDecl : Type 0 where
  pub service : Str
  pub kind : RouteKind

-- `format!("{service}.{project}.localhost")`
unfoldable pub public_host : Str → Str → Str
public_host service project = service ++ b'.' ∷ project ++ codes ".localhost"

unfoldable pub wants_proxy : ServiceKind → Bool
wants_proxy (tcp preferred proxy) = proxy
wants_proxy (unix file) = true

env_char : ℕ → ℕ
unfolding is_ascii_alphanumeric to_ascii_upper
env_char c = if c == b'-' then b'_' else if is_ascii_alphanumeric c then to_ascii_upper c else b'_'

unfoldable pub env_service_key : Str → Str
unfolding env_char
env_service_key service = map env_char service

unfoldable pub env_port_var : Str → Str
env_port_var service = codes "NEALS_" ++ env_service_key service ++ codes "_PORT"

unfoldable pub service_host_name : Str → Str → Str
service_host_name project service = project ++ b'_' ∷ service

abbrev pub name_char : ℕ → Bool
name_char c = is_ascii_lower c || is_ascii_digit c || c == b'-'

pub ends_with_char : Str → ℕ → Bool
ends_with_char [] k = false
ends_with_char (c ∷ []) k = c == k
ends_with_char (c ∷ d ∷ s) k = ends_with_char (d ∷ s) k

-- A text whose bytes are all ASCII has as many bytes as characters, so `len` is `length` here.
unfoldable pub is_valid_project_name : Str → Bool
unfolding is_ascii_lower is_ascii_digit all starts_with ends_with_char
is_valid_project_name name =
    not (is_empty name)
    && leb (length name) 63
    && all name_char name
    && not (starts_with name (codes "-"))
    && not (ends_with_char name b'-')

abbrev pub is_valid_service_name : Str → Bool
is_valid_service_name = is_valid_project_name

unfoldable pub is_valid_socket_file : Str → Bool
unfolding str_eq contains_char
is_valid_socket_file name =
    not (is_empty name)
    && not (str_eq name (codes "tcp"))
    && not (contains_char name b'/')
    && not (contains_char name 0)
    && not (str_eq name (codes "."))
    && not (str_eq name (codes ".."))
