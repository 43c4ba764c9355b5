-- ===== src/Daemon/Commands.antt =====
-- The commands that the daemon runs, `up_command` of crates/daemon/src/handler.rs and `caddy_command`,
-- `http_listen_addr` and the paths of crates/daemon/src/caddy.rs, from the variables of the
-- environment: `none` is one that is not set, or no text.
pub mod Words
use neals.Prelude.{
  ℕ, Bool, true, false, not, ◌&&◌, ◌||◌, Option, none, some, List, [], ◌∷◌, ◌++◌, reverse,
}
use neals.Prelude.Bools.{◌==◌, if◌then◌else◌}
use neals.Prelude.Decimal.{decimal}
use neals.Prelude.Lists.{take}
use neals.Prelude.Outcome.{Outcome, ok, err, ◌>>=◌}
use neals.Prelude.Text.{Str, codes, str_eq, trim, is_empty, is_space, lines}
use neals.Common.Devenv.{ServiceDecl, ServiceKind}
use neals.Common.Xdg.{join}
use neals.Daemon.Caddy.{CaddyError, pick_http_port}

-- `split_whitespace`; `cur` is the word that is open.
unfoldable pub words_from : Str → Str → List Str
words_from [] [] = []
words_from (k ∷ cur) [] = (k ∷ cur) ∷ []
words_from [] (c ∷ s) =
    let skip = words_from [] s in
    let open_word = words_from (c ∷ []) s in if is_space c then skip else open_word
words_from (k ∷ cur) (c ∷ s) =
    let closed = (k ∷ cur) ∷ words_from [] s in
    let longer = words_from ((k ∷ cur) ++ c ∷ []) s in if is_space c then closed else longer

unfoldable pub split_whitespace : Str → List Str
unfolding words_from
split_whitespace s = words_from [] s

-- The first word is the program, the others are its arguments.
abbrev pub command_of : Str → List Str → Str × List Str
command_of fallback [] = (fallback, [])
command_of fallback (program ∷ args) = (program, args)

abbrev pub up_words : Option Str → Str × List Str
up_words none = (codes "devenv", codes "up" ∷ codes "--mode" ∷ codes "all" ∷ [])
up_words (some raw) =
    if is_empty (trim raw)
    then (codes "devenv", codes "up" ∷ codes "--mode" ∷ codes "all" ∷ [])
    else command_of (codes "devenv") (split_whitespace raw)

-- `stdbuf`: whether that program is on the path.
unfoldable pub up_command : Option Str → Bool → Str × List Str
up_command var stdbuf =
    let (program, args) = up_words var in
    if stdbuf then (codes "stdbuf", codes "-oL" ∷ codes "-eL" ∷ program ∷ args) else (program, args)

unfoldable pub caddy_command : Option Str → Str × List Str
caddy_command none = (codes "caddy", [])
caddy_command (some raw) =
    if is_empty (trim raw) || str_eq (trim raw) (codes "-")
    then (codes "caddy", [])
    else command_of (codes "caddy") (split_whitespace raw)

unfoldable pub caddy_disabled : Option Str → Bool
caddy_disabled none = false
caddy_disabled (some raw) = str_eq raw (codes "-") || str_eq raw []

abbrev picked_addr : Outcome CaddyError ℕ → Outcome CaddyError Str
picked_addr (ok port) = ok (codes "127.0.0.1:" ++ decimal port)
picked_addr (err e) = err e

unfoldable pub http_listen_addr : Option Str → (ℕ → Bool) → Outcome CaddyError Str
http_listen_addr none binds = picked_addr (pick_http_port binds)
http_listen_addr (some addr) binds =
    if is_empty (trim addr) then picked_addr (pick_http_port binds) else ok addr

-- `lines.join("\n")`
unfoldable pub join_lines : List Str → Str
join_lines [] = []
join_lines (l ∷ []) = l
join_lines (l ∷ m ∷ ls) = l ++ 10 ∷ join_lines (m ∷ ls)

unfoldable pub last_lines : ℕ → List Str → List Str
last_lines n ls = reverse (take n (reverse ls))

-- The text is `none` where the log cannot be read.
unfoldable pub last_log_lines : Option Str → ℕ → Str
last_log_lines none n = []
last_log_lines (some text) n = join_lines (last_lines n (lines text))

-- The sockets that `ensure_neals_symlinks` links into `.neals`, with what each link points to.
abbrev pub link_of : Str → Str → ServiceKind → List (Str × Str) → List (Str × Str)
link_of runtime_proj neals_dir (ServiceKind.unix file) rest =
    (join neals_dir file, join runtime_proj file) ∷ rest
link_of runtime_proj neals_dir (ServiceKind.tcp preferred proxy) rest = rest

unfoldable pub neals_links : Str → Str → List ServiceDecl → List (Str × Str)
neals_links runtime_proj neals_dir [] = []
neals_links runtime_proj neals_dir (d ∷ ds) =
    link_of runtime_proj neals_dir d.kind (neals_links runtime_proj neals_dir ds)
