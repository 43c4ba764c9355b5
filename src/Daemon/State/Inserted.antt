-- ===== src/Daemon/State/Inserted.antt =====
-- crates/daemon/src/state.rs: the lookup of a name among the running projects, where a project is put
-- in or taken out.
use neals.Prelude.{
  ◌≡◌, refl, ap, sym, subst, false, none, some, ℕ, ◌+◌, ◌≤◌, List, [], ◌∷◌, ◌++◌, arith, inl, inr,
}
use neals.Prelude.Bools.{if◌then◌else◌, Bool-cases, is_some}
use neals.Prelude.Lists.{find, any}
use neals.Prelude.Text.{Str, str_eq, str_eq_sound}
use neals.Daemon.State.{RunningProject, is_named, insert_project, without}

-- A project of a new name comes behind the others.
pub insert_project_fresh :
    (p : RunningProject) (ps : List RunningProject)
    → any (is_named p.name) ps ≡ false
    → insert_project p ps ≡ ps ++ p ∷ []
unfolding insert_project any
insert_project_fresh p [] h = refl
insert_project_fresh p (q ∷ qs) h = elim (Bool-cases (str_eq q.name p.name)) [
  | inl e ↦ absurd (ground (arith, h, e))
  | inr e ↦ rw e (ap (λ l. q ∷ l) (insert_project_fresh p qs (rw e at h)))
]

pub find-append :
    (name : Str) (p : RunningProject) (ps qs : List RunningProject)
    → find (is_named name) ps ≡ some p
    → find (is_named name) (ps ++ qs) ≡ some p
unfolding find
find-append name p [] qs h = ground (arith, h)
find-append name p (q ∷ ps) qs h = ground (arith, find-append name p ps qs)

pub find-without :
    (name other : Str) (ps : List RunningProject)
    → str_eq other name ≡ false
    → find (is_named name) (without ps other) ≡ find (is_named name) ps
unfolding find without
find-without name other [] h = refl
find-without name other (q ∷ qs) h = elim (Bool-cases (str_eq q.name other)) [
  | inl e ↦
      let d : str_eq q.name name ≡ false =
        subst (λ m. str_eq m name ≡ false) (sym (str_eq_sound q.name other e)) h in
      rw e (rw d refl)
  | inr e ↦ ground (arith, find-without name other qs h)
]

-- How many running projects have a name: a hash map has each at most once.
abbrev pub named : Str → List RunningProject → ℕ
named name [] = 0
named name (p ∷ ps) = (if str_eq p.name name then 1 else 0) + named name ps

find-absent :
    (name : Str) (ps : List RunningProject) → named name ps ≡ 0 → find (is_named name) ps ≡ none
unfolding find
find-absent name [] h = refl
find-absent name (q ∷ qs) h = ground (arith, find-absent name qs, h)

pub find-without_own :
    (name : Str) (ps : List RunningProject)
    → named name ps ≤ 1
    → find (is_named name) (without ps name) ≡ none
unfolding find without
find-without_own name [] h = refl
find-without_own name (q ∷ qs) h = elim (Bool-cases (str_eq q.name name)) [
  | inl e ↦ rw e (find-absent name qs (ground (arith, h, e)))
  | inr e ↦ ground (arith, e, find-without_own name qs, h)
]

pub any_of_find :
    (name : Str) (ps : List RunningProject)
    → any (is_named name) ps ≡ is_some (find (is_named name) ps)
unfolding find any
any_of_find name [] = refl
any_of_find name (q ∷ qs) = ground (arith, any_of_find name qs)
