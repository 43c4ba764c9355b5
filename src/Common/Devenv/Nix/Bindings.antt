-- ===== src/Common/Devenv/Nix/Bindings.antt =====
-- crates/common/src/devenv.rs: what the attributes of `devenv.nix` bind to literals, and how often
-- they bind a path.
use neals.Prelude.{
  inl, inr, ℕ, ◌+◌, ◌≤◌, ◌≡◌, refl, ap, true, false, Option, none, some, [], ◌∷◌, ◌++◌, arith,
}
use neals.Prelude.Bools.{if◌then◌else◌, Bool-cases}
use neals.Prelude.Outcome.{Outcome, ok, err}
use neals.Prelude.Text.{Str, codes, str_eq, str_eq_iff, str_eq_refl}
use neals.Common.Devenv.Nix.{
  put_lit, NixLit, ℤ, Expr, AttrSet, AttrPath, Literals, path_eq, get_lit, literal_string,
  attr_path_idents, attr_set, lambda, with_in, let_in, str, integer, other_literal, ident, other,
  absent, no_values, attrpath_value,
}

-- How many entries have a path.
abbrev pub count : AttrPath → Literals → ℕ
count path [] = 0
count path ((p, lit) ∷ out) = (if path_eq p path then 1 else 0) + count path out

abbrev pub IsDistinct : Literals → Type 0
IsDistinct out = (path : AttrPath) → count path out ≤ 1

-- What the attributes of a set bind to literals, entry by entry, whatever is bound twice.
abbrev pub bool_bindings : AttrPath → Str → Literals
bool_bindings full text =
    if str_eq text (codes "true")
    then (full, NixLit.bool true) ∷ []
    else if str_eq text (codes "false")
    then (full, NixLit.bool false) ∷ []
    else []

abbrev pub str_bindings : AttrPath → Option Str → Literals
str_bindings full none = []
str_bindings full (some s) = (full, NixLit.str s) ∷ []

abbrev pub int_bindings : AttrPath → Outcome Str ℤ → Literals
int_bindings full (ok n) = (full, NixLit.int n) ∷ []
int_bindings full (err e) = []

abbrev pub ident_bindings : AttrPath → Option Str → Literals
ident_bindings full none = []
ident_bindings full (some text) = bool_bindings full text

unfoldable mutual
  pub value_bindings : Expr → AttrPath → Literals
  value_bindings (attr_set inner) full = bindings inner full
  value_bindings (str parts) full = str_bindings full (literal_string parts)
  value_bindings (integer n) full = int_bindings full n
  value_bindings (ident token) full = ident_bindings full token
  value_bindings other_literal full = []
  value_bindings absent full = []
  value_bindings (lambda body) full = []
  value_bindings (with_in body) full = []
  value_bindings (let_in body) full = []
  value_bindings other full = []

  pub bindings : AttrSet → AttrPath → Literals
  bindings no_values prefix = []
  bindings (attrpath_value none value set) prefix = bindings set prefix
  bindings (attrpath_value (some attrs) value set) prefix =
      (elim (attr_path_idents attrs) [
        | none ↦ []
        | some path ↦ value_bindings value (prefix ++ path)
      ])
      ++ bindings set prefix

pub path_eq_sound : (p q : AttrPath) → path_eq p q ≡ true → p ≡ q
unfolding path_eq
path_eq_sound [] [] h = refl
path_eq_sound [] (b ∷ q) h = ground arith
path_eq_sound (a ∷ p) [] h = ground arith
path_eq_sound (a ∷ p) (b ∷ q) h = ground (arith, str_eq_iff a b, path_eq_sound p q)

pub count-append :
    (path : AttrPath) (xs ys : Literals) → count path (xs ++ ys) ≡ count path xs + count path ys
count-append path [] ys = omega arith
count-append path ((p, lit) ∷ xs) ys = omega (arith, count-append path xs ys)

pub count-none : (path : AttrPath) (out : Literals) → get_lit out path ≡ none → count path out ≡ 0
unfolding get_lit
count-none path [] h = refl
count-none path ((p, lit) ∷ out) h = ground (arith, count-none path out)

pub same_count : (out : Literals) (p q : AttrPath) → path_eq p q ≡ true → count p out ≡ count q out
same_count out p q h = ap (λ x. count x out) (path_eq_sound p q h)

pub path_eq_refl : (p : AttrPath) → path_eq p p ≡ true
unfolding path_eq
path_eq_refl [] = refl
path_eq_refl (a ∷ p) = ground (arith, str_eq_refl a, path_eq_refl p)

pub put_lit-new :
    (out : Literals) (path : AttrPath) (lit : NixLit)
    → get_lit out path ≡ none
    → put_lit out path lit ≡ out ++ (path, lit) ∷ []
unfolding put_lit get_lit
put_lit-new [] path lit h = refl
put_lit-new ((p, old) ∷ out) path lit h = elim (Bool-cases (path_eq p path)) [
  | inl e ↦ absurd (ground (arith, h, e))
  | inr e ↦ rw e (ap (λ l. (p, old) ∷ l) (put_lit-new out path lit (rw e at h)))
]

pub count-get :
    (path : AttrPath) (out : Literals) (prev : NixLit)
    → get_lit out path ≡ some prev
    → 1 ≤ count path out
unfolding get_lit
count-get path [] prev h = absurd (ground (arith, h))
count-get path ((p, lit) ∷ out) prev h = ground (arith, count-get path out prev)
