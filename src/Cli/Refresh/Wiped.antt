-- ===== src/Cli/Refresh/Wiped.antt =====
-- What `wipe_managed_state` of crates/cli/src/refresh.rs removes.
use neals.Prelude.{
  Bool, true, false, ◌&&◌, ◌||◌, none, some, List, [], ◌∷◌, ◌++◌, ◌≡◌, ◌⊎◌, refl, ap, arith, inl,
  inr,
}
use neals.Prelude.Bools.{take_else, if◌then◌else◌, Bool-cases, take_both}
use neals.Prelude.Lists.{All, any, select}
use neals.Prelude.Outcome.{Outcome, ok}
use neals.Prelude.Text.{str_eq_sound, Str, codes, str_eq, str_eq_refl, is_empty, contains_char}
use neals.Prelude.Text.Trim.{Lacks}
use neals.Common.Xdg.{join}
use neals.Prelude.Paths.{file_name, split_path-join, parent-join}
use neals.Cli.Refresh.{
  removed_path, FileSystem, is_safe_project_name, under, managed_wipe_targets, canonical_or,
  parent_agrees, is_runtime_path, is_allowed_wipe_path, remove_managed_path, remove_all,
  wipe_managed_state, RefreshError,
}

safe-Lacks : (name : Str) → is_safe_project_name name ≡ true → Lacks b'/' name
unfolding is_safe_project_name
safe-Lacks name h = ground (arith, h)

file_name-join :
    (dir name : Str) → is_safe_project_name name ≡ true → file_name (join dir name) ≡ some name
unfolding file_name is_safe_project_name
file_name-join dir name h =
    rw (file_name, split_path-join dir name (safe-Lacks name h))
      (take_else (λ o. o ≡ some name) _ none (some name) (ground (arith, h)) refl)

kept_if :
    (b : Bool) (path : Str) (paths : List Str)
    → ◌≡◌ {A = List Str × Outcome RefreshError (Unit {0})}
        ((if b then path ∷ [] else []) ++ paths, ok tt)
        ((if b then path ∷ paths else paths), ok tt)
kept_if true path paths = refl
kept_if false path paths = refl

module _ (fs : FileSystem) where
  -- There is something to remove.
  abbrev pub present : Str → Bool
  present path = fs.exists path && (fs.is_dir path || fs.is_file path || fs.has_metadata path)

  own-allowed :
      (root leaf canon : Str)
      → Lacks b'/' leaf
      → is_empty root ≡ false
      → fs.canonicalize root ≡ ok canon
      → parent_agrees fs (join root leaf) canon ≡ true
  unfolding parent_agrees canonical_or
  own-allowed root leaf canon h e c =
      rw (parent_agrees, parent-join root leaf h e)
        (take_both (λ b. b ≡ true) (fs.exists root) _ true
          (λ _. rw (canonical_or, c) (str_eq_refl canon)) (λ _. refl))

  runtime-allowed :
      (roots : List Str) (root name : Str)
      → is_safe_project_name name ≡ true
      → is_empty root ≡ false
      → any (λ r. str_eq root r) roots ≡ true
      → is_runtime_path fs roots (join root name) name ≡ true
  unfolding is_runtime_path
  runtime-allowed roots root name s e m =
      rw
        (
          is_runtime_path,
          file_name-join root name s,
          str_eq_refl name,
          parent-join root name (safe-Lacks name s) e,
        )
        m

  path-allowed :
      (root leaf canon path : Str)
      → Lacks b'/' leaf
      → is_empty root ≡ false
      → fs.canonicalize root ≡ ok canon
      → str_eq path (join root leaf) ≡ true
      → parent_agrees fs path canon ≡ true
  path-allowed root leaf canon path h e c same =
      rw (str_eq_sound path (join root leaf) same) (own-allowed root leaf canon h e c)

  -- One of the project's own two directories, or its directory under a managed root.
  abbrev Target : List Str → Str → Str → Str → Type 0
  Target roots name root path =
      (str_eq path (join root (codes ".devenv")) ≡ true)
      ⊎ (str_eq path (join root (codes ".neals")) ≡ true)
      ⊎ (is_runtime_path fs roots path name ≡ true)

  is_allowed_wipe_path-Target :
      (roots : List Str) (name root canon path : Str)
      → is_empty root ≡ false
      → fs.canonicalize root ≡ ok canon
      → Target roots name root path
      → is_allowed_wipe_path fs roots path name root ≡ ok true
  unfolding is_allowed_wipe_path contains_char
  is_allowed_wipe_path-Target roots name root canon path e c t =
      rw (is_allowed_wipe_path, c)
        (take_both (λ o. o ≡ ok true) (str_eq path (join root (codes ".devenv")))
          (ok (parent_agrees fs path canon)) _
          (λ y. ap ok (path-allowed root (codes ".devenv") canon path refl e c y))
          λ n.
            take_both (λ o. o ≡ ok true) (str_eq path (join root (codes ".neals")))
              (ok (parent_agrees fs path canon)) (ok (is_runtime_path fs roots path name))
              (λ y. ap ok (path-allowed root (codes ".neals") canon path refl e c y))
              λ k. ap ok (last_case t n k))
    where
      last_case :
          Target roots name root path
          → str_eq path (join root (codes ".devenv")) ≡ false
          → str_eq path (join root (codes ".neals")) ≡ false
          → is_runtime_path fs roots path name ≡ true
      last_case (inl y) n k = absurd (ground (arith, y, n))
      last_case (inr (inl y)) n k = absurd (ground (arith, y, k))
      last_case (inr (inr y)) n k = y

  removed_if :
      (path : Str) (b : Bool)
      → fs.remove path ≡ ok tt
      → (if b then removed_path fs path else ok []) ≡ ok (if b then path ∷ [] else [])
  removed_if path true r = rw (removed_path, r) refl
  removed_if path false r = refl

  remove_managed_path-Target :
      (roots : List Str) (name root canon path : Str)
      → is_empty root ≡ false
      → fs.canonicalize root ≡ ok canon
      → Target roots name root path
      → fs.remove path ≡ ok tt
      → remove_managed_path fs roots path name root ≡ ok (if present path then path ∷ [] else [])
  unfolding remove_managed_path
  remove_managed_path-Target roots name root canon path e c t r =
      elim (Bool-cases (fs.exists path)) [
        | inr gone ↦ rw (remove_managed_path, gone) refl
        | inl there ↦
            rw
              (
                remove_managed_path,
                there,
                is_allowed_wipe_path-Target roots name root canon path e c t,
              )
              (removed_if path (fs.is_dir path || fs.is_file path || fs.has_metadata path) r)
      ]

  remove_all-Target :
      (roots paths : List Str) (name root canon : Str)
      → is_empty root ≡ false
      → fs.canonicalize root ≡ ok canon
      → All (Target roots name root) paths
      → ((path : Str) → fs.remove path ≡ ok tt)
      → remove_all fs roots paths name root ≡ (select present paths, ok tt)
  unfolding remove_all select
  remove_all-Target roots [] name root canon e c t r = refl
  remove_all-Target roots (path ∷ paths) name root canon e c t r =
      rw
        (
          remove_all,
          remove_managed_path-Target roots name root canon path e c t.0 (r path),
          remove_all-Target roots paths name root canon e c t.1 r,
        )
        (kept_if (present path) path (select present paths))

  under-Target :
      (all_roots roots : List Str) (name root : Str)
      → is_safe_project_name name ≡ true
      → All (λ r. is_empty r ≡ false) roots
      → ((r : Str) → any (str_eq r) roots ≡ true → any (str_eq r) all_roots ≡ true)
      → All (Target all_roots name root) (under name roots)
  unfolding under any
  under-Target all_roots [] name root s f m = tt
  under-Target all_roots (r ∷ roots) name root s f m = (
    inr (inr (runtime-allowed all_roots r name s f.0 (m r (rw (str_eq_refl r) refl)))),
    under-Target all_roots roots name root s f.1 λ x h. m x (ground (arith, h)),
  )

  -- For a safe name, where the project resolves, the managed roots are paths and each removal works:
  -- the wipe refuses none of its own targets and removes those that are there, in order.
  pub wipe_managed_state_lem :
      (roots : List Str) (name root canon : Str)
      → is_safe_project_name name ≡ true
      → is_empty root ≡ false
      → All (λ r. is_empty r ≡ false) roots
      → fs.canonicalize root ≡ ok canon
      → ((path : Str) → fs.remove path ≡ ok tt)
      → wipe_managed_state fs roots name root
        ≡ (select present (managed_wipe_targets roots name root), ok tt)
  unfolding wipe_managed_state managed_wipe_targets
  wipe_managed_state_lem roots name root canon s e f c r =
      remove_all-Target roots (managed_wipe_targets roots name root) name root canon e c
        (
          inl (str_eq_refl (join root (codes ".devenv"))),
          (
            inr (inl (str_eq_refl (join root (codes ".neals")))),
            under-Target roots roots name root s f λ x h. h,
          ),
        )
        r
