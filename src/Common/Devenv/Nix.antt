-- ===== src/Common/Devenv/Nix.antt =====
-- crates/common/src/devenv.rs: the literals that the attribute set of `devenv.nix` binds. The
-- syntax tree is what the walk sees of the one that the parser `rnix` builds; a hash map is the list
-- of its entries, in the order in which their keys come.
pub mod Bindings
pub mod Paths
use neals.Prelude.{ℕ, Bool, true, false, not, ◌&&◌, ◌||◌, Option, none, some, List, [], ◌∷◌, ◌++◌}
use neals.Prelude.Bools.{if◌then◌else◌}
use neals.Prelude.Outcome.{Outcome, ok, err, ◌>>=◌}
use neals.Prelude.Text.{Str, codes, str_eq}

-- An `i64`.
pub data ℤ : Type 0 where
  pos : ℕ → ℤ
  negsuc : ℕ → ℤ

pub data NixLit : Type 0 where
  str : Str → NixLit
  int : ℤ → NixLit
  bool : Bool → NixLit

-- A part of a string, an attribute name, and an attribute path.
pub data InterpolPart : Type 0 where
  literal : Str → InterpolPart
  interpolation : InterpolPart

pub data Attr : Type 0 where
  ident : Option Str → Attr
  str : List InterpolPart → Attr
  dynamic : Attr

-- `absent` is a node that the parser did not find.
mutual
  pub data Expr : Type 0 where
    attr_set : AttrSet → Expr
    lambda with_in let_in : (body : Expr) → Expr
    str : List InterpolPart → Expr
    integer : Outcome Str ℤ → Expr
    other_literal : Expr
    ident : Option Str → Expr
    other absent : Expr

  pub data AttrSet : Type 0 where
    no_values : AttrSet
    attrpath_value : Option (List Attr) → Expr → AttrSet → AttrSet

abbrev pub AttrPath : Type 0
AttrPath = List Str

abbrev pub Literals : Type 0
Literals = List (AttrPath × NixLit)

pub data NixError : Type 0 where
  not_literal_string not_supported not_literal : AttrPath → NixError
  invalid_integer : AttrPath → Str → NixError
  duplicate_attr : AttrPath → NixLit → NixError

unfoldable pub literal_string : List InterpolPart → Option Str
literal_string [] = some []
literal_string (literal text ∷ parts) = elim (literal_string parts) [
  | none ↦ none
  | some rest ↦ some (text ++ rest)
]
literal_string (interpolation ∷ parts) = none

-- One part of a path; `none` where it is dynamic, or no text.
abbrev pub attr_ident : Attr → Option Str
attr_ident (ident token) = token
attr_ident (str parts) = literal_string parts
attr_ident dynamic = none

abbrev cons_part : Option Str → Option AttrPath → Option AttrPath
cons_part (some part) (some path) = some (part ∷ path)
cons_part (some part) none = none
cons_part none path = none

unfoldable pub attr_path_idents : List Attr → Option AttrPath
attr_path_idents [] = some []
attr_path_idents (a ∷ attrs) = cons_part (attr_ident a) (attr_path_idents attrs)

unfoldable pub requires_literal : AttrPath → Bool
requires_literal (a ∷ b ∷ c ∷ path) =
    str_eq a (codes "neals")
    && (str_eq b (codes "route") || str_eq b (codes "services") || str_eq b (codes "name"))
requires_literal (a ∷ b ∷ []) = false
requires_literal (a ∷ []) = false
requires_literal [] = false

unfoldable pub path_eq : AttrPath → AttrPath → Bool
path_eq [] [] = true
path_eq (a ∷ p) (b ∷ q) = str_eq a b && path_eq p q
path_eq _ _ = false

unfoldable pub get_lit : Literals → AttrPath → Option NixLit
get_lit [] path = none
get_lit ((p, lit) ∷ out) path = if path_eq p path then some lit else get_lit out path

-- `HashMap::insert`: the value before, and the map with the new one in its place.
unfoldable pub put_lit : Literals → AttrPath → NixLit → Literals
put_lit [] path lit = (path, lit) ∷ []
put_lit ((p, old) ∷ out) path lit =
    let rest = put_lit out path lit in if path_eq p path then (path, lit) ∷ out else (p, old) ∷ rest

unfoldable pub insert_lit : Literals → AttrPath → NixLit → Outcome NixError Literals
unfolding put_lit
insert_lit out full lit = elim (get_lit out full) [
  | some prev ↦ err (duplicate_attr full prev)
  | none ↦ ok (put_lit out full lit)
]

-- An error where the path has to have a literal; any other value is passed over.
abbrev pub unless_required : Literals → AttrPath → NixError → Outcome NixError Literals
unless_required out full e = if requires_literal full then err e else ok out

abbrev pub insert_str : Literals → AttrPath → Option Str → Outcome NixError Literals
insert_str out full (some lit) = insert_lit out full (NixLit.str lit)
insert_str out full none = unless_required out full (not_literal_string full)

abbrev pub insert_int : Literals → AttrPath → Outcome Str ℤ → Outcome NixError Literals
insert_int out full (ok n) = insert_lit out full (NixLit.int n)
insert_int out full (err e) = err (invalid_integer full e)

abbrev pub insert_ident : Literals → AttrPath → Option Str → Outcome NixError Literals
insert_ident out full none = ok out
insert_ident out full (some text) =
    if str_eq text (codes "true")
    then insert_lit out full (NixLit.bool true)
    else if str_eq text (codes "false")
    then insert_lit out full (NixLit.bool false)
    else unless_required out full (not_literal full)

unfoldable mutual
  unfolding insert_lit literal_string

  -- One round of the loop: `full` is the path of the value.
  pub walk_value : Expr → AttrPath → Literals → Outcome NixError Literals
  walk_value (attr_set inner) full out = walk_attrset inner full out
  walk_value (str parts) full out = insert_str out full (literal_string parts)
  walk_value (integer n) full out = insert_int out full n
  walk_value other_literal full out = unless_required out full (not_supported full)
  walk_value (ident token) full out = insert_ident out full token
  walk_value absent full out = ok out
  walk_value (lambda body) full out = unless_required out full (not_literal full)
  walk_value (with_in body) full out = unless_required out full (not_literal full)
  walk_value (let_in body) full out = unless_required out full (not_literal full)
  walk_value other full out = unless_required out full (not_literal full)

  pub walk_attrset : AttrSet → AttrPath → Literals → Outcome NixError Literals
  walk_attrset no_values prefix out = ok out
  walk_attrset (attrpath_value none value set) prefix out = walk_attrset set prefix out
  walk_attrset (attrpath_value (some attrs) value set) prefix out =
      (elim (attr_path_idents attrs) [
        | none ↦ ok out
        | some path ↦ walk_value value (prefix ++ path) out
      ])
      >>= λ out'. walk_attrset set prefix out'

-- `lambda.body()?` and the like: `none` for an absent body.
unfoldable pub top_level_attrset : Expr → Option AttrSet
top_level_attrset (attr_set set) = some set
top_level_attrset (lambda body) = top_level_attrset body
top_level_attrset (with_in body) = top_level_attrset body
top_level_attrset (let_in body) = top_level_attrset body
top_level_attrset (str parts) = none
top_level_attrset (integer n) = none
top_level_attrset other_literal = none
top_level_attrset (ident token) = none
top_level_attrset other = none
top_level_attrset absent = none

-- The entries below `neals`, with what follows it in their paths.
unfoldable pub below_neals : Literals → Literals
below_neals [] = []
below_neals (([], lit) ∷ out) = below_neals out
below_neals ((head ∷ path, lit) ∷ out) =
    let rest = below_neals out in if str_eq head (codes "neals") then (path, lit) ∷ rest else rest

abbrev pub collect_from : Option AttrSet → Outcome NixError Literals
collect_from none = ok []
collect_from (some set) = walk_attrset set [] [] >>= λ out. ok (below_neals out)

-- `expr` is the expression of the file, `absent` where it has none.
unfoldable pub collect_neals_literals : Expr → Outcome NixError Literals
collect_neals_literals expr = collect_from (top_level_attrset expr)

abbrev pub is_neals_path : Option AttrPath → Bool
is_neals_path (some (head ∷ path)) = str_eq head (codes "neals")
is_neals_path (some []) = false
is_neals_path none = false

unfoldable pub any_neals_path : AttrSet → Bool
any_neals_path no_values = false
any_neals_path (attrpath_value none value set) = any_neals_path set
any_neals_path (attrpath_value (some attrs) value set) =
    is_neals_path (attr_path_idents attrs) || any_neals_path set

abbrev neals_in : Option AttrSet → Bool
neals_in none = false
neals_in (some set) = any_neals_path set

unfoldable pub has_neals_config : Expr → Bool
has_neals_config expr = neals_in (top_level_attrset expr)
