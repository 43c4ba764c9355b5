-- ===== src/Cli/Commands/Registered.antt =====
-- What `cmd_register`, `cmd_unregister` and `cmd_prune` of crates/cli/src/main.rs do to the registry.
use neals.Prelude.{true, false, Option, none, some, ◌≡◌, refl, ap, ◌∙◌, inl, inr}
use neals.Prelude.Bools.{Option-cases, take_both}
use neals.Prelude.Outcome.{Outcome, ok, err, Outcome-cases}
use neals.Prelude.Text.{Str, str_eq, str_eq_refl, str_eq_sound}
use neals.Common.Devenv.{ProjectName}
use neals.Common.Devenv.Services.{DeclError}
use neals.Common.Registry.{RegistryError, Project, Registry, get, add, upsert}
use neals.Common.Registry.Laws.{IsUnique, Stores, Added, add_lem, upsert_lem}
use neals.Cli.Commands.{
  User, RegistryFile, Ran, Entered, saved, confirm, override, enter, register_in, cmd_register,
  chosen_name, CommandError,
}

-- The registry in the file at the end.
abbrev pub at_end : Registry → Option Registry → Registry
at_end r none = r
at_end r (some r') = r'

abbrev pub path_of : Option Project → Option Str
path_of none = none
path_of (some p) = some p.path

-- A registration that succeeds leaves the project with that path, the others as they were, and the
-- names distinct; one that fails has written nothing.
abbrev pub RegisterPost : Registry → Project → Ran Entered → Type 0
RegisterPost r p (err e, s) = s ≡ none
RegisterPost r p (ok a, s) =
    (path_of (get (at_end r s) p.name) ≡ some p.path)
    × ((name : Str) → str_eq p.name name ≡ false → get (at_end r s) name ≡ get r name)
    × IsUnique (at_end r s)

Stores-Post :
    (file : RegistryFile) (r r' : Registry) (p : Project) (a : Entered)
    → Stores r r' p
    → IsUnique r'
    → RegisterPost r p (saved file r' a)
unfolding saved
Stores-Post file r r' p a h u = elim (Outcome-cases (file.save r')) [
  | inl (t, e) ↦
      rw (saved, e)
        (
          ap path_of (h p.name) ∙ rw (str_eq_refl p.name) refl,
          (λ name other. h name ∙ rw other refl),
          u,
        )
  | inr (m, e) ↦ rw (saved, e) refl
]

enter-Post :
    (file : RegistryFile) (r : Registry) (p : Project)
    → IsUnique r
    → RegisterPost r p (enter file r p)
unfolding enter
enter-Post file r p u = enter_cases (add r p) (add_lem r p u)
  where
    enter_cases :
        (o : Outcome RegistryError Registry)
        → Added r p o
        → RegisterPost r p (elim o [
          | ok r' ↦ saved file r' Entered.entered
          | err e ↦ (err (CommandError.not_entered e), none)
        ])
    enter_cases (ok r') h = Stores-Post file r r' p _ h.1 h.2
    enter_cases (err e) h = refl

override-Post :
    (user : User) (file : RegistryFile) (r : Registry) (p : Project)
    → IsUnique r
    → RegisterPost r p (override user file r p)
unfolding override
override-Post user file r p u = elim (Outcome-cases (confirm user 1)) [
  | inl (true, e) ↦
      rw (override, e)
        (Stores-Post file r (upsert r p).1 p _ (upsert_lem r p u).1 (upsert_lem r p u).2)
  | inl (false, e) ↦ rw (override, e) refl
  | inr (m, e) ↦ rw (override, e) refl
]

register_in-Post :
    (user : User) (file : RegistryFile) (p : Project) (r : Registry)
    → IsUnique r
    → RegisterPost r p (register_in user file p r)
unfolding register_in
register_in-Post user file p r u = elim (Option-cases (get r p.name)) [
  | inl e ↦ rw (register_in, e) (enter-Post file r p u)
  | inr (old, e) ↦
      rw (register_in, e)
        (take_both (RegisterPost r p) (str_eq old.path p.path) (ok Entered.already, none)
          (override user file r p)
          (λ same. (rw e (ap some (str_eq_sound old.path p.path same)), (λ name other. refl), u))
          λ other. override-Post user file r p u)
]

-- In a registry of distinct names: `register` ends with the project under the chosen name and its
-- path, all others as they were and the names distinct, or it fails and writes nothing.
pub cmd_register_lem :
    (user : User) (file : RegistryFile) (path name : Str) (resolved : Outcome DeclError ProjectName)
    (r : Registry)
    → chosen_name user resolved ≡ ok name
    → file.load ≡ ok r
    → IsUnique r
    → RegisterPost r (record { name = name; path = path }) (cmd_register user file path resolved)
unfolding cmd_register
cmd_register_lem user file path name resolved r c l u = rw (c, l) (register_in-Post user file _ r u)
