-- ===== src/Common/Flags.antt =====
-- crates/common/src/lib.rs: flags in the environment, and words quoted for a shell.
pub mod Quoting
use neals.Prelude.{
  ℕ, Bool, true, false, not, ◌&&◌, ◌||◌, Option, none, some, List, [], ◌∷◌, ◌++◌, map,
}
use neals.Prelude.Bools.{◌==◌, if◌then◌else◌}
use neals.Prelude.Lists.{all}
use neals.Prelude.Text.{Str, codes, str_eq, trim, is_empty, is_ascii_alphanumeric, to_ascii_lower}

abbrev is_truthy : Str → Bool
is_truthy v =
    str_eq v (codes "1")
    || str_eq v (codes "true")
    || str_eq v (codes "yes")
    || str_eq v (codes "on")

-- The variable is `none` where it is not set, or no text.
unfoldable pub env_flag : Option Str → Bool
env_flag none = false
env_flag (some v) = is_truthy (map to_ascii_lower (trim v))

-- A character that needs no quotes.
unfoldable pub is_safe : ℕ → Bool
unfolding is_ascii_alphanumeric
is_safe b =
    is_ascii_alphanumeric b
    || b == b'-'
    || b == b'_'
    || b == b'.'
    || b == b'/'
    || b == b':'
    || b == b'='

-- `s.replace` of each quote by a quote, an escaped quote and a quote.
unfoldable pub escape_quotes : Str → Str
escape_quotes [] = []
escape_quotes (c ∷ s) =
    let rest = escape_quotes s in if c == 39 then 39 ∷ 92 ∷ 39 ∷ 39 ∷ rest else c ∷ rest

unfoldable pub shell_quote : Str → Str
shell_quote s =
    if is_empty s
    then 39 ∷ 39 ∷ []
    else if all is_safe s
    then s
    else 39 ∷ (escape_quotes s ++ 39 ∷ [])
