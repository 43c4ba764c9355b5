-- ===== src/Prelude/Paths.antt =====
-- Paths of `std::path`, absolute and without a slash at the end.
use neals.Prelude.{false, ◌||◌, Option, none, some, List, [], ◌∷◌, ◌++◌, ◌≡◌, refl, arith}
use neals.Prelude.Bools.{◌==◌, if◌then◌else◌, take_else}
use neals.Prelude.Text.{Str, codes, str_eq, is_empty, contains_char}
use neals.Prelude.Text.Trim.{Lacks}

-- What is in front of the last slash, and what follows it.
unfoldable pub split_path : Str → Option (Str × Str)
split_path [] = none
split_path (c ∷ s) = elim (split_path s) [
  | some (dir, name) ↦ some (c ∷ dir, name)
  | none ↦ if c == b'/' then some ([], s) else none
]

abbrev pub dot : Str
dot = codes "."

abbrev pub dots : Str
dots = codes ".."

-- `file_name`: the last part of the path, where that is a name.
unfoldable pub file_name : Str → Option Str
file_name path = elim (split_path path) [
  | none ↦ none
  | some (dir, name) ↦
      if is_empty name || str_eq name dot || str_eq name dots then none else some name
]

unfoldable pub parent : Str → Option Str
parent path = elim (split_path path) [
  | none ↦ none
  | some (dir, name) ↦ some (if is_empty dir then codes "/" else dir)
]

-- The parts between the slashes, without the empty ones and the dots; `cur` is the part that is open.
unfoldable pub components_from : Str → Str → List Str
components_from cur [] = if is_empty cur || str_eq cur dot then [] else cur ∷ []
components_from cur (c ∷ s) =
    let closed = components_from [] s in
    let longer = components_from (cur ++ c ∷ []) s in
    if c == b'/' then (if is_empty cur || str_eq cur dot then closed else cur ∷ closed) else longer

unfoldable pub components : Str → List Str
unfolding components_from
components path = components_from [] path

split_path-Lacks : (name : Str) → Lacks b'/' name → split_path name ≡ none
unfolding split_path contains_char
split_path-Lacks [] h = refl
split_path-Lacks (c ∷ s) h =
    rw (split_path-Lacks s (ground (arith, h)))
      (take_else (λ o. o ≡ none) (c == b'/') (some ([], s)) none (ground (arith, h)) refl)

pub split_path-join :
    (dir name : Str) → Lacks b'/' name → split_path (dir ++ b'/' ∷ name) ≡ some (dir, name)
unfolding split_path
split_path-join [] name h = rw (split_path-Lacks name h) refl
split_path-join (c ∷ dir) name h = rw (split_path-join dir name h) refl

pub parent-join :
    (dir name : Str)
    → Lacks b'/' name
    → is_empty dir ≡ false
    → parent (dir ++ b'/' ∷ name) ≡ some dir
unfolding parent
parent-join dir name h e = rw (parent, split_path-join dir name h, e) refl
