-- ===== src/Common/Registry.antt =====
-- crates/common/src/registry.rs: the registered projects. Whether a path is a directory is a
-- parameter, and so are `serde_json` and the file that holds the registry.
pub mod Laws
pub mod Ghosts
use neals.Prelude.{Bool, true, false, not, Option, none, some, List, [], ◌∷◌, ◌++◌}
use neals.Prelude.Bools.{if◌then◌else◌}
use neals.Prelude.Lists.{find, select}
use neals.Prelude.Outcome.{Outcome, ok, err, ◌>>=◌}
use neals.Prelude.Text.{Str, str_eq}

pub record Project : Type 0 where
  pub name : Str
  pub path : Str

pub record Registry : Type 0 where
  pub projects : List Project

pub data RegistryError : Type 0 where
  already_registered not_registered : Str → RegistryError

pub is_ghost : (Str → Bool) → Project → Bool
is_ghost is_dir p = not (is_dir p.path)

abbrev pub has_name : Str → Project → Bool
has_name name p = str_eq p.name name

unfoldable pub get : Registry → Str → Option Project
unfolding find
get r name = find (has_name name) r.projects

-- On an error the registry is unchanged.
unfoldable pub add : Registry → Project → Outcome RegistryError Registry
add r p = elim (get r p.name) [
  | some old ↦ err (already_registered p.name)
  | none ↦ ok (record { projects = r.projects ++ p ∷ [] })
]

-- An entry that is passed over stays in front.
pub keep_front : Project → Option (Project × List Project) → Option (Project × List Project)
keep_front q none = none
keep_front q (some (old, rest)) = some (old, q ∷ rest)

-- The first project of that name, and the list with the new one in its place.
pub replace_first : List Project → Project → Option (Project × List Project)
unfolding keep_front
replace_first [] p = none
replace_first (q ∷ qs) p =
    let later = keep_front q (replace_first qs p) in
    if str_eq q.name p.name then some (q, p ∷ qs) else later

unfoldable pub upsert : Registry → Project → Option Project × Registry
unfolding replace_first
upsert r p = elim (replace_first r.projects p) [
  | some (old, ps) ↦ (some old, record { projects = ps })
  | none ↦ (none, record { projects = r.projects ++ p ∷ [] })
]

pub remove_first : List Project → Str → Option (Project × List Project)
unfolding keep_front
remove_first [] name = none
remove_first (q ∷ qs) name =
    let later = keep_front q (remove_first qs name) in
    if str_eq q.name name then some (q, qs) else later

unfoldable pub remove : Registry → Str → Outcome RegistryError (Project × Registry)
unfolding remove_first
remove r name = elim (remove_first r.projects name) [
  | some (old, ps) ↦ ok (old, record { projects = ps })
  | none ↦ err (not_registered name)
]

-- `partition(Project::is_ghost)`: the ghosts, and the registry without them.
unfoldable pub take_ghosts : (Str → Bool) → Registry → List Project × Registry
unfolding select is_ghost
take_ghosts is_dir r = (
  select (is_ghost is_dir) r.projects,
  record { projects = select (λ p. not (is_ghost is_dir p)) r.projects },
)
