-- ===== src/Tests/Init.antt =====
-- A `devenv.nix` with an empty list of imports, and what `devenv eval` prints.
use neals.Prelude.{◌≡◌, refl, some, [], ◌∷◌, ◌++◌, ◌⊎◌, true, false}
use neals.Prelude.Outcome.{ok, err, OnOk}
use neals.Prelude.Text.{
  Str, codes, contains, starts_with, str_eq, is_ascii_lower, is_ascii_digit, trim, trim_start,
  trim_end, is_space,
}
use neals.Prelude.Utf8.{from_utf8_lossy, decode_from, byte_step, start_char, next_byte}
use neals.Prelude.Lists.{all}
use neals.Common.Devenv.{is_valid_project_name}
use native.Mathlib.Omega.{arith}
use neals.Common.Devenv.Nix.{
  Attr, attr_set, other, no_values, attrpath_value, top_level_attrset, attr_path_idents, path_eq,
  has_neals_config, any_neals_path,
}
use neals.Common.Devenv.Inject.{
  devenv_runtime, parse_devenv_runtime, RuntimeError, top_level, insert_option, insert_str,
  need_option, list_end, find_char, Tree, Value, inject_neals_stanza, neals_option, neals_stanza,
  find_imports_list, place,
}
use neals.Common.Devenv.Inject.Kept.{IsBlocked, InjectPost, inject_neals_stanza_lem}

abbrev imports : Attr
imports = Attr.ident (some (codes "imports"))

abbrev plain_nix : Str
plain_nix = codes "{ imports = [ ];\n}\n"

-- The tree of `plain_nix`.
abbrev plain_tree : Str → Tree
plain_tree src = record {
  expr = attr_set (attrpath_value (some (imports ∷ [])) other no_values);
  braces = record {
    l_curly = some 1;
    members =
        record { attrpath = some (imports ∷ []); value = Value.list (some 13) (some 15) } ∷ [];
  };
}

web-IsValid : is_valid_project_name (codes "web") ≡ true
unfolding is_valid_project_name all starts_with is_ascii_lower is_ascii_digit
web-IsValid = refl

inject_neals_stanza_lem_example :
    (IsBlocked (plain_tree plain_nix)
      ⊎ ((r : Str) × (inject_neals_stanza plain_tree plain_nix (codes "web") ≡ ok r)))
    × OnOk
        (InjectPost plain_tree plain_nix (codes "web"))
        (inject_neals_stanza plain_tree plain_nix (codes "web"))
inject_neals_stanza_lem_example =
    inject_neals_stanza_lem plain_tree plain_nix (codes "web") web-IsValid (omega arith, tt)

injected :
    inject_neals_stanza plain_tree plain_nix (codes "web")
    ≡ ok (
        codes "{ imports = [\n"
        ++ neals_option
        ++ codes " ];\n\n"
        ++ neals_stanza (codes "web")
        ++ codes "\n}\n")
unfolding inject_neals_stanza find_imports_list place has_neals_config any_neals_path top_level
    top_level_attrset attr_path_idents path_eq str_eq insert_option insert_str need_option list_end
    find_char contains starts_with neals_option neals_stanza is_valid_project_name all
    is_ascii_lower is_ascii_digit
injected = refl

runtime :
    devenv_runtime
      (λ text. some (some (codes "/run/neals")))
      (some (record { success = false; stdout = []; stderr = codes " no shell\n" }))
    ≡ err (RuntimeError.eval_failed (codes ": no shell"))
unfolding devenv_runtime parse_devenv_runtime trim trim_start trim_end is_space from_utf8_lossy
    decode_from byte_step start_char next_byte
runtime = refl
