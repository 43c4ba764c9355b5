-- ===== src/Tests/Commands.antt =====
-- A registration, and a wipe.
use neals.Prelude.{true, false, none, List, [], ◌∷◌, ◌≡◌, refl, arith}
use neals.Prelude.Lists.{select}
use neals.Prelude.Outcome.{ok}
use neals.Prelude.Text.{Str, codes, str_eq, contains_char}
use neals.Common.Devenv.{fallback}
use neals.Common.Registry.{Registry}
use neals.Common.Registry.Laws.{IsUnique}
use neals.Cli.Commands.{User, RegistryFile, cmd_register, chosen_name, confirm}
use neals.Cli.Commands.Registered.{RegisterPost, cmd_register_lem}
use neals.Cli.Refresh.{FileSystem, is_safe_project_name, managed_wipe_targets, wipe_managed_state}
use neals.Cli.Refresh.Wiped.{present, wipe_managed_state_lem}

abbrev sure_user : User
sure_user = record { yes = true; terminal = false; answers = λ k. none }

abbrev one_project : Registry
one_project = record { projects = record { name = codes "shop"; path = codes "/old" } ∷ [] }

one_project-IsUnique : IsUnique one_project
one_project-IsUnique = record { at_most_one = λ name. ground arith }

abbrev good_file : RegistryFile
good_file = record { load = ok one_project; save = λ r. ok tt }

chosen-shop : chosen_name sure_user (ok (fallback (codes "shop"))) ≡ ok (codes "shop")
unfolding chosen_name confirm
chosen-shop = refl

cmd_register_lem_example :
    RegisterPost one_project
      (record { name = codes "shop"; path = codes "/new" })
      (cmd_register sure_user good_file (codes "/new") (ok (fallback (codes "shop"))))
cmd_register_lem_example =
    cmd_register_lem sure_user good_file (codes "/new") (codes "shop")
      (ok (fallback (codes "shop"))) one_project chosen-shop refl one_project-IsUnique

abbrev full_disk : FileSystem
full_disk = record {
  exists = λ p. true;
  is_dir = λ p. true;
  is_file = λ p. false;
  has_metadata = λ p. true;
  canonicalize = λ p. ok p;
  remove = λ p. ok tt;
}

shop_is_safe : is_safe_project_name (codes "shop") ≡ true
unfolding is_safe_project_name contains_char str_eq
shop_is_safe = refl

abbrev two_roots : List Str
two_roots = codes "/run/user/neals" ∷ codes "/run/neals" ∷ []

wipe_managed_state_lem_example :
    wipe_managed_state full_disk two_roots (codes "shop") (codes "/home/shop") ≡ (
      select
          (present full_disk)
          (managed_wipe_targets two_roots (codes "shop") (codes "/home/shop")),
      ok tt,
    )
wipe_managed_state_lem_example =
    wipe_managed_state_lem full_disk two_roots (codes "shop") (codes "/home/shop")
      (codes "/home/shop") shop_is_safe refl (refl, (refl, tt)) refl (λ p. refl)
