-- ===== src/Common/Devenv/Nix/Paths.antt =====
-- The paths of what `collect_neals_literals` of crates/common/src/devenv.rs collects.
use neals.Prelude.{
  inl, inr, sym, ◌∙◌, subst, append-nil, append_assoc, ◌≤◌, ◌≡◌, refl, ap, true, false, Option,
  none, some, [], ◌∷◌, ◌++◌, arith,
}
use neals.Prelude.Bools.{take_both, Option-cases, Bool-cases}
use neals.Prelude.Outcome.{Outcome, ok, err, ◌>>=◌}
use neals.Prelude.Text.{Str, codes, str_eq}
use neals.Common.Devenv.Nix.{
  duplicate_attr, invalid_integer, NixLit, ℤ, not_literal_string, not_supported, not_literal, Expr,
  AttrSet, AttrPath, Literals, NixError, path_eq, get_lit, insert_lit, walk_value, walk_attrset,
  below_neals, collect_neals_literals, top_level_attrset, requires_literal, literal_string,
  attr_path_idents, attr_set, lambda, with_in, let_in, str, integer, other_literal, ident, other,
  absent, no_values, attrpath_value, insert_str, insert_int, insert_ident, unless_required,
  collect_from,
}
use neals.Common.Devenv.Nix.Bindings.{
  count, IsDistinct, str_bindings, int_bindings, ident_bindings, value_bindings, bindings,
  count-append, count-none, same_count, path_eq_refl, put_lit-new, count-get,
}

-- An error that names a path as bound twice is right about it.
abbrev pub Doubled : Literals → NixError → Type 0
Doubled ls (duplicate_attr path prev) = 2 ≤ count path ls
Doubled ls _ = Unit

-- What a walk that starts with some entries makes of the bindings.
abbrev Walked : Literals → Literals → Outcome NixError Literals → Type 0
Walked out ls (ok r) = (r ≡ out ++ ls) × IsDistinct r
Walked out ls (err e) = Doubled (out ++ ls) e

inserted :
    (out : Literals) (full : AttrPath) (lit : NixLit) (o : Option NixLit)
    → get_lit out full ≡ o
    → IsDistinct out
    → Walked out ((full, lit) ∷ []) (insert_lit out full lit)
unfolding insert_lit
inserted out full lit (some prev) e h =
    rw (e, insert_lit)
      (ground (
        arith,
        count-append full out ((full, lit) ∷ []),
        count-get full out prev e,
        path_eq_refl full,
      ))
inserted out full lit none e h =
    rw (e, insert_lit, put_lit-new out full lit e)
      (
        refl,
        λ path. ground (
          arith,
          count-append path out ((full, lit) ∷ []),
          h path,
          count-none full out e,
          same_count out full path,
        ),
      )

insert_lit-Walked :
    (out : Literals) (full : AttrPath) (lit : NixLit)
    → IsDistinct out
    → Walked out ((full, lit) ∷ []) (insert_lit out full lit)
insert_lit-Walked out full lit h = inserted out full lit (get_lit out full) refl h

kept-Walked : (out : Literals) → IsDistinct out → Walked out [] (ok out)
kept-Walked out h = (sym (append-nil out), h)

-- An error that is no duplicate.
abbrev IsOther : NixError → Type 0
IsOther e = (ls : Literals) → Doubled ls e

unless_required-Walked :
    (out : Literals) (full : AttrPath) (e : NixError)
    → IsOther e
    → IsDistinct out
    → Walked out [] (unless_required out full e)
unless_required-Walked out full e o h =
    take_both (Walked out []) (requires_literal full) (err e) (ok out) (λ r. o (out ++ []))
      (λ r. kept-Walked out h)

insert_str-Walked :
    (out : Literals) (full : AttrPath) (o : Option Str)
    → IsDistinct out
    → Walked out (str_bindings full o) (insert_str out full o)
insert_str-Walked out full (some s) h = insert_lit-Walked out full (NixLit.str s) h
insert_str-Walked out full none h =
    unless_required-Walked out full (not_literal_string full) (λ ls. tt) h

insert_int-Walked :
    (out : Literals) (full : AttrPath) (o : Outcome Str ℤ)
    → IsDistinct out
    → Walked out (int_bindings full o) (insert_int out full o)
insert_int-Walked out full (ok n) h = insert_lit-Walked out full (NixLit.int n) h
insert_int-Walked out full (err e) h = tt

insert_ident-Walked :
    (out : Literals) (full : AttrPath) (o : Option Str)
    → IsDistinct out
    → Walked out (ident_bindings full o) (insert_ident out full o)
insert_ident-Walked out full none h = kept-Walked out h
insert_ident-Walked out full (some text) h = elim (Bool-cases (str_eq text (codes "true"))) [
  | inl t ↦ rw t (insert_lit-Walked out full (NixLit.bool true) h)
  | inr t ↦ rw t (elim (Bool-cases (str_eq text (codes "false"))) [
    | inl f ↦ rw f (insert_lit-Walked out full (NixLit.bool false) h)
    | inr f ↦ rw f (unless_required-Walked out full (not_literal full) (λ ls. tt) h)
  ])
]

Doubled-append : (ls ms : Literals) (e : NixError) → Doubled ls e → Doubled (ls ++ ms) e
Doubled-append ls ms (duplicate_attr path prev) h = omega (arith, h, count-append path ls ms)
Doubled-append ls ms (not_literal_string p) h = tt
Doubled-append ls ms (not_supported p) h = tt
Doubled-append ls ms (not_literal p) h = tt
Doubled-append ls ms (invalid_integer p m) h = tt

regrouped :
    (out ls ms r : Literals) (o : Outcome NixError Literals)
    → r ≡ out ++ ls
    → Walked r ms o
    → Walked out (ls ++ ms) o
regrouped out ls ms r (ok q) e (f, h) = (f ∙ ap (λ l. l ++ ms) e ∙ append_assoc out ls ms, h)
regrouped out ls ms r (err x) e h =
    subst (λ l. Doubled l x) (ap (λ l. l ++ ms) e ∙ append_assoc out ls ms) h

then-Walked :
    (out ls ms : Literals) (o : Outcome NixError Literals)
    (f : Literals → Outcome NixError Literals)
    → Walked out ls o
    → ((r : Literals) → IsDistinct r → Walked r ms (f r))
    → Walked out (ls ++ ms) (o >>= f)
then-Walked out ls ms (ok r) f (e, h) g = regrouped out ls ms r (f r) e (g r h)
then-Walked out ls ms (err e) f h g =
    subst (λ l. Doubled l e) (append_assoc out ls ms) (Doubled-append (out ++ ls) ms e h)

mutual
  unfolding walk_value walk_attrset value_bindings bindings

  walk_value-Walked :
      (v : Expr) (full : AttrPath) (out : Literals)
      → IsDistinct out
      → Walked out (value_bindings v full) (walk_value v full out)
  walk_value-Walked (attr_set inner) full out h = walk_attrset-Walked inner full out h
  walk_value-Walked (str parts) full out h = insert_str-Walked out full (literal_string parts) h
  walk_value-Walked (integer n) full out h = insert_int-Walked out full n h
  walk_value-Walked other_literal full out h =
      unless_required-Walked out full (not_supported full) (λ ls. tt) h
  walk_value-Walked (ident token) full out h = insert_ident-Walked out full token h
  walk_value-Walked absent full out h = kept-Walked out h
  walk_value-Walked (lambda body) full out h =
      unless_required-Walked out full (not_literal full) (λ ls. tt) h
  walk_value-Walked (with_in body) full out h =
      unless_required-Walked out full (not_literal full) (λ ls. tt) h
  walk_value-Walked (let_in body) full out h =
      unless_required-Walked out full (not_literal full) (λ ls. tt) h
  walk_value-Walked other full out h =
      unless_required-Walked out full (not_literal full) (λ ls. tt) h

  walk_attrset-Walked :
      (set : AttrSet) (prefix : AttrPath) (out : Literals)
      → IsDistinct out
      → Walked out (bindings set prefix) (walk_attrset set prefix out)
  walk_attrset-Walked no_values prefix out h = kept-Walked out h
  walk_attrset-Walked (attrpath_value none value set) prefix out h =
      walk_attrset-Walked set prefix out h
  walk_attrset-Walked (attrpath_value (some attrs) value set) prefix out h =
      elim (Option-cases (attr_path_idents attrs)) [
        | inl e ↦ rw (e, walk_attrset, bindings) (walk_attrset-Walked set prefix out h)
        | inr (path, e) ↦
            rw (e, walk_attrset, bindings)
              (then-Walked out (value_bindings value (prefix ++ path)) (bindings set prefix)
                (walk_value value (prefix ++ path) out) (λ r. walk_attrset set prefix r)
                (walk_value-Walked value (prefix ++ path) out h)
                (λ r k. walk_attrset-Walked set prefix r k))
      ]

count-below :
    (path : AttrPath) (out : Literals)
    → count path (below_neals out) ≤ count (codes "neals" ∷ path) out
unfolding below_neals path_eq
count-below path [] = omega arith
count-below path (([], lit) ∷ out) = ground (arith, count-below path out)
count-below path ((head ∷ p, lit) ∷ out) = ground (arith, count-below path out)

get-below :
    (path : AttrPath) (out : Literals)
    → get_lit (below_neals out) path ≡ get_lit out (codes "neals" ∷ path)
unfolding below_neals path_eq get_lit
get-below path [] = refl
get-below path (([], lit) ∷ out) = ground (arith, get-below path out)
get-below path ((head ∷ p, lit) ∷ out) = ground (arith, get-below path out)

-- All that a file binds to literals, in the order of the text.
abbrev pub file_bindings : Option AttrSet → Literals
file_bindings none = []
file_bindings (some set) = bindings set []

-- The entries are what the file binds below `neals`, and no path is bound twice in it; or, where
-- the error is a duplicate, its path is.
abbrev pub Collected : Literals → Outcome NixError Literals → Type 0
Collected file (ok out) =
    ((path : AttrPath) → get_lit out path ≡ get_lit file (codes "neals" ∷ path))
    × IsDistinct out
    × IsDistinct file
Collected file (err e) = Doubled file e

below-Collected :
    (file : Literals) (o : Outcome NixError Literals)
    → Walked [] file o
    → Collected file (o >>= λ out. ok (below_neals out))
below-Collected file (err e) h = h
below-Collected file (ok r) (e, h) = (
  λ path. get-below path r ∙ ap (λ l. get_lit l (codes "neals" ∷ path)) e,
  λ path. omega (arith, count-below path r, h (codes "neals" ∷ path)),
  subst IsDistinct e h,
)

-- A file is collected only where it binds no path to two literals, in one set, in nested sets or by
-- dotted paths: then a lookup in the result finds what the file binds below `neals`, and the result
-- has each path once. Where the error is that a path is bound twice, the file does bind it twice.
pub collect_neals_literals-Collected :
    (expr : Expr) → Collected (file_bindings (top_level_attrset expr)) (collect_neals_literals expr)
unfolding collect_neals_literals get_lit
collect_neals_literals-Collected expr = collected (top_level_attrset expr)
  where
    collected : (o : Option AttrSet) → Collected (file_bindings o) (collect_from o)
    collected none = (λ path. refl, λ path. omega arith, λ path. omega arith)
    collected (some set) =
        below-Collected (bindings set []) (walk_attrset set [] [])
          (walk_attrset-Walked set [] [] (λ path. omega arith))
