-- ===== src/Tests/Projects.antt =====
-- A registry of two projects, one of whose directories is gone.
use neals.Prelude.{refl, sym, arith, Bool, ◌≡◌, false, true, [], ◌∷◌}
use neals.Prelude.Text.{Str, codes, str_eq, str_eq_iff, str_eq_sound}
use neals.Common.Registry.{Project, Registry, add, upsert, remove, take_ghosts}
use neals.Common.Registry.Laws.{
  Added, Upserted, Unregistered, IsUnique, add_lem, upsert_lem, remove_lem,
}
use neals.Common.Registry.Ghosts.{Purged, take_ghosts_lem}

abbrev demo : Project
demo = record { name = codes "demo"; path = codes "/demo" }

abbrev blog : Project
blog = record { name = codes "blog"; path = codes "/blog" }

abbrev moved : Project
moved = record { name = codes "demo"; path = codes "/moved" }

abbrev two : Registry
two = record { projects = demo ∷ blog ∷ [] }

abbrev only_blog : Str → Bool
only_blog path = str_eq path (codes "/blog")

names_differ : (name : Str) → str_eq (codes "demo") name ≡ true → str_eq (codes "blog") name ≡ false
unfolding str_eq
names_differ name e = rw (sym (str_eq_sound (codes "demo") name e)) refl

two-IsUnique : IsUnique two
unfolding str_eq
two-IsUnique = record {
  at_most_one = λ name.
      ground
        (arith, str_eq_iff (codes "demo") name, str_eq_iff (codes "blog") name, names_differ name);
}

add_lem_example : Added two moved (add two moved)
add_lem_example = add_lem two moved two-IsUnique

upsert_lem_example : Upserted two moved (upsert two moved)
upsert_lem_example = upsert_lem two moved two-IsUnique

remove_lem_example : Unregistered two (codes "demo") (remove two (codes "demo"))
remove_lem_example = remove_lem two (codes "demo") two-IsUnique

take_ghosts_lem_example : Purged only_blog two (take_ghosts only_blog two)
take_ghosts_lem_example = take_ghosts_lem only_blog two two-IsUnique
