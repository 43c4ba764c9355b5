-- ===== src/Common/Registry/Ghosts.antt =====
-- The lookups behind `take_ghosts` of crates/common/src/registry.rs.
use neals.Prelude.{
  ◌≤◌, ◌≡◌, ◌∙◌, refl, inl, inr, Bool, true, false, not, Option, none, some, List, [], ◌∷◌, arith,
}
use neals.Prelude.Bools.{if◌then◌else◌, Bool-cases}
use neals.Prelude.Lists.{find, select}
use neals.Prelude.Text.{Str, str_eq}
use neals.Common.Registry.{Project, Registry, has_name, is_ghost, get, take_ghosts}
use neals.Common.Registry.Laws.{entries, IsUnique, find-none}

-- A project that is looked up, where it passes a test.
abbrev passing : (Project → Bool) → Option Project → Option Project
passing keeps none = none
passing keeps (some p) = if keeps p then some p else none

module _ (keeps : Project → Bool) where
  entries-select :
      (name : Str) (ps : List Project) → entries name (select keeps ps) ≤ entries name ps
  unfolding select
  entries-select name [] = omega arith
  entries-select name (p ∷ ps) = ground (arith, entries-select name ps)

  find-select :
      (name : Str) (ps : List Project)
      → entries name ps ≤ 1
      → find (has_name name) (select keeps ps) ≡ passing keeps (find (has_name name) ps)
  unfolding select find
  find-select name [] u = refl
  find-select name (p ∷ ps) u = elim (Bool-cases (str_eq p.name name)) [
    | inr e ↦ ground (arith, e, find-select name ps, u)
    | inl e ↦
        let rest : find (has_name name) (select keeps ps) ≡ none =
          find-none name (select keeps ps) (ground (arith, e, u, entries-select name ps)) in
        ground (arith, e, rest)
  ]

-- A test that is denied twice.
not-not : (b : Bool) → not (not b) ≡ b
not-not true = refl
not-not false = refl

passing-not :
    (q : Project → Bool) (o : Option Project) → passing (λ p. not (not (q p))) o ≡ passing q o
passing-not q none = refl
passing-not q (some p) = rw (not-not (q p)) refl

-- What `take_ghosts` makes of a registry, for the directories that there are.
abbrev pub Purged : (Str → Bool) → Registry → List Project × Registry → Type 0
Purged is_dir r (ghosts, r') =
    ((name : Str)
      → (get r' name ≡ passing (λ p. is_dir p.path) (get r name))
        × (find (has_name name) ghosts ≡ passing (λ p. not (is_dir p.path)) (get r name)))
    × IsUnique r'

-- In a registry of distinct names, `take_ghosts` keeps under its name each project whose directory
-- exists, with the path that it has, and returns each other one, so that its lookup fails from
-- then on; the names stay distinct.
pub take_ghosts_lem :
    (is_dir : Str → Bool) (r : Registry) → IsUnique r → Purged is_dir r (take_ghosts is_dir r)
unfolding take_ghosts get
take_ghosts_lem is_dir r u =
    unfold is_ghost in
    (
      λ name. (
        find-select (λ p. not (is_ghost is_dir p)) name r.projects (u.at_most_one name)
            ∙ passing-not (λ p. is_dir p.path) (get r name),
        find-select (is_ghost is_dir) name r.projects (u.at_most_one name),
      ),
      record {
        at_most_one = λ name. omega (
          arith,
          entries-select (λ p. not (is_ghost is_dir p)) name r.projects,
          u.at_most_one name,
        );
      },
    )
