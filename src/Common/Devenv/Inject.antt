-- ===== src/Common/Devenv/Inject.antt =====
-- crates/common/src/devenv.rs: the text that `neals init` writes into `devenv.nix`, and the
-- runtime directory that `devenv eval` names. A text is its bytes. The parser `rnix` is a
-- parameter: what the code asks of a tree, where each token is the offset behind it in the text.
pub mod Woven
pub mod Kept
use neals.Prelude.{ℕ, suc, ◌+◌, Bool, true, false, not, Option, none, some, List, [], ◌∷◌, ◌++◌}
use neals.Prelude.Bools.{◌==◌, if◌then◌else◌}
use neals.Prelude.Lists.{take, drop}
use neals.Prelude.Outcome.{Outcome, ok, err, ◌>>=◌}
use neals.Prelude.Text.{Str, codes, str_eq, is_empty, contains, trim}
use neals.Prelude.Utf8.{from_utf8_lossy}
use neals.Common.Devenv.{is_valid_project_name}
use neals.Common.Devenv.Nix.{
  Attr, AttrSet, Expr, absent, attr_path_idents, path_eq, top_level_attrset, has_neals_config,
}

pub data InjectError : Type 0 where
  not_valid : Str → InjectError
  not_nix no_attrset no_l_curly imports_not_list no_l_brack no_r_brack no_semicolon : InjectError

pub data Value : Type 0 where
  list : (l_brack r_brack : Option ℕ) → Value
  other_value : Value

pub record Member : Type 0 where
  pub attrpath : Option (List Attr)
  pub value : Value

pub record Braces : Type 0 where
  pub l_curly : Option ℕ
  pub members : List Member

-- The expression of a text, and the tokens and members of its top-level attribute set.
pub record Tree : Type 0 where
  pub expr : Expr
  pub braces : Braces

abbrev pub context {ℓ} : {A : Type ℓ} → InjectError → Option A → Outcome InjectError A
context e none = err e
context e (some a) = ok a

-- The path of a member, where it has one that is no expression.
abbrev pub member_path : Member → Option (List Str)
member_path m = elim m.attrpath [ none ↦ none | some attrs ↦ attr_path_idents attrs ]

-- `find(';')`
unfoldable pub find_char : ℕ → Str → Option ℕ
find_char k [] = none
find_char k (c ∷ s) =
    if c == k then some 0 else elim (find_char k s) [ none ↦ none | some n ↦ some (suc n) ]

-- The list of `imports`: the offset behind its `[`, where that is there, and the one behind the
-- semicolon.
abbrev pub Imports : Type 0
Imports = Option ℕ × ℕ

unfoldable pub list_end : Str → Value → Outcome InjectError Imports
unfolding find_char
list_end src other_value = err imports_not_list
list_end src (list l_brack r_brack) = do
  after_brack ← context no_r_brack r_brack
  semi ← context no_semicolon (find_char b';' (drop after_brack src))
  ok (l_brack, after_brack + semi + 1)

abbrev pub is_imports : Option (List Str) → Bool
unfolding path_eq
is_imports none = false
is_imports (some path) = path_eq path (codes "imports" ∷ [])

unfoldable pub find_imports_list : Str → List Member → Outcome InjectError (Option Imports)
unfolding list_end
find_imports_list src [] = ok none
find_imports_list src (m ∷ ms) =
    if is_imports (member_path m)
    then list_end src m.value >>= (λ found. ok (some found))
    else find_imports_list src ms

unfoldable pub insert_str : Str → ℕ → Str → Str
insert_str src at text = take at src ++ text ++ drop at src

-- A line that ends in a backslash takes the spaces of the next line with it.
unfoldable pub neals_option : Str
neals_option =
    codes "({ lib, ... }: {\n      options.neals = lib.mkOption {\n"
    ++ codes "        type = lib.types.attrs;\n        default = { };\n      };\n    })\n"

unfoldable pub neals_imports_block : Str
neals_imports_block = codes "  imports = [\n" ++ neals_option ++ codes "  ];\n"

unfoldable pub neals_stanza : Str → Str
neals_stanza name =
    codes "  neals = {\n    name = \"" ++ name ++ codes "\";\n    services = { };\n  };\n"

unfoldable pub need_option : Str → Bool
unfolding contains
need_option src = not (contains src (codes "options.neals"))

-- What stands in front of the stanza where there is no `imports`.
unfoldable pub head_text : Bool → Str
unfolding neals_imports_block
head_text true = 10 ∷ neals_imports_block ++ 10 ∷ []
head_text false = 10 ∷ 10 ∷ []

unfoldable pub insert_option : Bool → Option ℕ → Str → Outcome InjectError Str
unfolding insert_str
insert_option false l_brack out = ok out
insert_option true l_brack out = do
  after_l_brack ← context no_l_brack l_brack
  ok (insert_str out after_l_brack (10 ∷ neals_option))

unfoldable pub place : Str → Str → ℕ → Option Imports → Outcome InjectError Str
unfolding need_option head_text insert_option insert_str
place src neals after_l_curly none =
    ok (insert_str src after_l_curly (head_text (need_option src) ++ neals))
place src neals after_l_curly (some (l_brack, end)) =
    insert_option (need_option src) l_brack (insert_str src end (10 ∷ 10 ∷ neals))

abbrev is_absent : Expr → Bool
is_absent absent = true
is_absent _ = false

unfoldable pub top_level : Expr → Outcome InjectError AttrSet
unfolding top_level_attrset
top_level expr = if is_absent expr then err not_nix else context no_attrset (top_level_attrset expr)

unfoldable pub inject_neals_stanza : (Str → Tree) → Str → Str → Outcome InjectError Str
unfolding is_valid_project_name has_neals_config top_level find_imports_list place neals_stanza
inject_neals_stanza parse src name =
    let tree = parse src in
    if not (is_valid_project_name name)
    then err (not_valid name)
    else if has_neals_config tree.expr
    then ok src
    else do
      set ← top_level tree.expr
      after_l_curly ← context no_l_curly tree.braces.l_curly
      found ← find_imports_list src tree.braces.members
      place src (neals_stanza name) after_l_curly found

pub data RuntimeError : Type 0 where
  not_run no_runtime empty_runtime : RuntimeError
  eval_failed not_json : Str → RuntimeError

pub record Output : Type 0 where
  pub success : Bool
  pub stdout : Str
  pub stderr : Str

abbrev pub runtime_value : Str → Option (Option Str) → Outcome RuntimeError Str
runtime_value text none = err (not_json text)
runtime_value text (some none) = err no_runtime
runtime_value text (some (some raw)) = if is_empty raw then err empty_runtime else ok raw

-- `from_str` reads JSON, where the value has a string at `devenv.runtime` with that string.
unfoldable pub parse_devenv_runtime :
    (Str → Option (Option Str)) → Output → Outcome RuntimeError Str
unfolding trim from_utf8_lossy
parse_devenv_runtime from_str output =
    let error = trim (from_utf8_lossy output.stderr) in
    let text = trim (from_utf8_lossy output.stdout) in
    if output.success
    then runtime_value text (from_str text)
    else err (eval_failed (if is_empty error then [] else codes ": " ++ error))

-- `None` for a command that does not run.
unfoldable pub devenv_runtime :
    (Str → Option (Option Str)) → Option Output → Outcome RuntimeError Str
unfolding parse_devenv_runtime
devenv_runtime from_str none = err not_run
devenv_runtime from_str (some output) = parse_devenv_runtime from_str output
