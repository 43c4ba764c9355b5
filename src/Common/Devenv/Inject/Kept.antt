-- ===== src/Common/Devenv/Inject/Kept.antt =====
-- crates/common/src/devenv.rs: what `inject_neals_stanza` leaves of the text of `devenv.nix`.
use neals.Prelude.{
  ◌||◌, ℕ, Bool, true, false, Option, none, some, List, [], ◌∷◌, ◌++◌, ◌≡◌, refl, arith, inl, inr,
  ◌⊎◌,
}
use neals.Prelude.Bools.{Bool-cases}
use neals.Prelude.Outcome.{Outcome, ok, err, ◌>>=◌, OnOk, then-OnOk, any-OnOk}
use neals.Prelude.Text.{Str}
use neals.Common.Devenv.Nix.{
  AttrSet, Expr, attr_set, lambda, with_in, let_in, str, integer, other_literal, ident, other,
  absent, top_level_attrset, has_neals_config,
}
use neals.Common.Devenv.Inject.{
  no_attrset, InjectError, is_valid_project_name, member_path, no_l_curly, has_neals_config,
  is_imports, Tree, Member, context, find_imports_list, insert_str, head_text, need_option,
  neals_stanza, place, top_level, inject_neals_stanza,
}
use neals.Common.Devenv.Inject.Woven.{
  Added, InOrderAll, FoundAhead, place-Added, find_imports_list-Ahead,
}

-- What `inject_neals_stanza` returns: the source where it is configured, and else the source with
-- the stanza in it.
abbrev pub InjectPost : (Str → Tree) → Str → Str → Str → Type 0
InjectPost parse src name r =
    ((has_neals_config (parse src).expr ≡ true) × (r ≡ src))
    ⊎ ((has_neals_config (parse src).expr ≡ false) × Added src (neals_stanza name) r)

-- The edit of a source that is not configured.
abbrev edit : Str → Str → Tree → Outcome InjectError Str
edit src neals tree = do
  set ← top_level tree.expr
  after_l_curly ← context no_l_curly tree.braces.l_curly
  found ← find_imports_list src tree.braces.members
  place src neals after_l_curly found

edit-Added :
    (src neals : Str) (tree : Tree)
    → InOrderAll tree.braces.members
    → OnOk (Added src neals) (edit src neals tree)
edit-Added src neals tree h =
    any-OnOk (Added src neals) (top_level tree.expr)
      (λ set. context no_l_curly tree.braces.l_curly >>= λ n.
        find_imports_list src tree.braces.members >>= place src neals n)
      (λ set.
        any-OnOk (Added src neals) (context no_l_curly tree.braces.l_curly)
          (λ n. find_imports_list src tree.braces.members >>= place src neals n)
          (λ n.
            then-OnOk (FoundAhead src) (Added src neals) (find_imports_list src tree.braces.members)
              (place src neals n) (find_imports_list-Ahead src tree.braces.members h)
              (place-Added src neals n)))

mono-OnOk :
    {E A : Type 0} {P Q : A → Type 0} (o : Outcome E A)
    → ((a : A) → P a → Q a)
    → OnOk P o
    → OnOk Q o
mono-OnOk (ok a) f h = f a h
mono-OnOk (err e) f h = tt

inject_neals_stanza-InjectPost :
    (parse : Str → Tree) (src name : Str)
    → InOrderAll (parse src).braces.members
    → OnOk (InjectPost parse src name) (inject_neals_stanza parse src name)
unfolding inject_neals_stanza
inject_neals_stanza-InjectPost parse src name h = elim (Bool-cases (is_valid_project_name name)) [
  | inr v ↦ rw v tt
  | inl v ↦ elim (Bool-cases (has_neals_config (parse src).expr)) [
    | inl e ↦ rw v (rw e (inl (e, refl)))
    | inr e ↦ rw v (
        rw e (
          mono-OnOk (edit src (neals_stanza name) (parse src)) (λ r a. inr (e, a))
            (edit-Added src (neals_stanza name) (parse src) h)))
  ]
]

abbrev pub any_imports : List Member → Bool
any_imports [] = false
any_imports (m ∷ ms) = is_imports (member_path m) || any_imports ms

-- What an edit can fail on: no set, no brace, or an attribute `imports`.
abbrev pub IsBlocked : Tree → Type 0
IsBlocked tree =
    (top_level_attrset tree.expr ≡ none)
    ⊎ ((tree.braces.l_curly ≡ none) ⊎ (any_imports tree.braces.members ≡ true))

find_imports_list-none :
    (src : Str) (ms : List Member) → any_imports ms ≡ false → find_imports_list src ms ≡ ok none
unfolding find_imports_list
find_imports_list-none src [] h = refl
find_imports_list-none src (m ∷ ms) h = elim (Bool-cases (is_imports (member_path m))) [
  | inl e ↦ absurd (ground (arith, h, e))
  | inr e ↦ rw e (find_imports_list-none src ms (rw e at h))
]

fresh_within :
    (src neals : Str) (ms : List Member) (l_curly : Option ℕ)
    → ((l_curly ≡ none) ⊎ (any_imports ms ≡ true))
      ⊎ ((r : Str) × ((context no_l_curly l_curly >>= λ n.
              find_imports_list src ms >>= place src neals n)
            ≡ ok r))
unfolding place
fresh_within src neals ms none = inl (inl refl)
fresh_within src neals ms (some n) = elim (Bool-cases (any_imports ms)) [
  | inl e ↦ inl (inr e)
  | inr e ↦ inr (
    insert_str src n (head_text (need_option src) ++ neals),
    rw (find_imports_list-none src ms e) refl,
  )
]

context-cases :
    (e : InjectError) (o : Option AttrSet) → (o ≡ none) ⊎ ((set : AttrSet) × (context e o ≡ ok set))
context-cases e none = inl refl
context-cases e (some set) = inr (set, refl)

top_level-cases :
    (e : Expr) → (top_level_attrset e ≡ none) ⊎ ((set : AttrSet) × (top_level e ≡ ok set))
unfolding top_level top_level_attrset
top_level-cases absent = inl refl
top_level-cases (attr_set set) = inr (set, refl)
top_level-cases (lambda body) = context-cases no_attrset (top_level_attrset body)
top_level-cases (with_in body) = context-cases no_attrset (top_level_attrset body)
top_level-cases (let_in body) = context-cases no_attrset (top_level_attrset body)
top_level-cases (str parts) = inl refl
top_level-cases (integer n) = inl refl
top_level-cases other_literal = inl refl
top_level-cases (ident token) = inl refl
top_level-cases other = inl refl

edit-cases :
    (src neals : Str) (tree : Tree) → IsBlocked tree ⊎ ((r : Str) × (edit src neals tree ≡ ok r))
edit-cases src neals tree = elim (top_level-cases tree.expr) [
  | inl e ↦ inl (inl e)
  | inr (set, e) ↦ elim (fresh_within src neals tree.braces.members tree.braces.l_curly) [
    | inl b ↦ inl (inr b)
    | inr (r, f) ↦ inr (r, rw e f)
  ]
]

inject_succeeds :
    (parse : Str → Tree) (src name : Str)
    → is_valid_project_name name ≡ true
    → IsBlocked (parse src) ⊎ ((r : Str) × (inject_neals_stanza parse src name ≡ ok r))
unfolding inject_neals_stanza
inject_succeeds parse src name v = elim (Bool-cases (has_neals_config (parse src).expr)) [
  | inl e ↦ inr (src, rw v (rw e refl))
  | inr e ↦ rw v (rw e (edit-cases src (neals_stanza name) (parse src)))
]

-- Where the name is valid and the tokens of each list stand in order, an edit of `devenv.nix`
-- fails only for want of a set or its brace, or at an attribute `imports`; and one that succeeds
-- keeps all the text: a configured source stays as it is, and any other gets the stanza put in,
-- after text that brings `options.neals` exactly where the source lacks it.
pub inject_neals_stanza_lem :
    (parse : Str → Tree) (src name : Str)
    → is_valid_project_name name ≡ true
    → InOrderAll (parse src).braces.members
    → (IsBlocked (parse src) ⊎ ((r : Str) × (inject_neals_stanza parse src name ≡ ok r)))
      × OnOk (InjectPost parse src name) (inject_neals_stanza parse src name)
inject_neals_stanza_lem parse src name v h =
    (inject_succeeds parse src name v, inject_neals_stanza-InjectPost parse src name h)
