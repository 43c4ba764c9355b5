-- ===== src/Common/Registry/Laws.antt =====
-- Lookups in the registry of crates/common/src/registry.rs, and how often it has a name.
use neals.Prelude.{
  ◌∙◌, ℕ, ◌+◌, ◌≤◌, ◌≡◌, refl, ap, sym, inl, inr, true, false, Option, none, some, List, [], ◌∷◌,
  ◌++◌, arith,
}
use neals.Prelude.Bools.{if◌then◌else◌, Bool-cases, Option-cases, is_some}
use neals.Prelude.Lists.{find}
use neals.Prelude.Outcome.{Outcome, ok, err}
use neals.Prelude.Text.{Str, str_eq, str_eq_sound, str_eq_refl, str_eq_iff}
use neals.Common.Registry.{
  Project, Registry, RegistryError, has_name, get, add, upsert, remove, replace_first, remove_first,
  keep_front, already_registered, not_registered,
}

-- How many entries have a name.
abbrev pub entries : Str → List Project → ℕ
entries name [] = 0
entries name (p ∷ ps) = (if str_eq p.name name then 1 else 0) + entries name ps

-- No two projects share a name.
pub record IsUnique (r : Registry) : Type 0 where
  pub at_most_one : (name : Str) → entries name r.projects ≤ 1

entries-append :
    (name : Str) (ps qs : List Project)
    → entries name (ps ++ qs) ≡ entries name ps + entries name qs
entries-append name [] qs = omega arith
entries-append name (p ∷ ps) qs = omega (arith, entries-append name ps qs)

entries-none :
    (name : Str) (ps : List Project) → find (has_name name) ps ≡ none → entries name ps ≡ 0
unfolding find
entries-none name [] h = refl
entries-none name (p ∷ ps) h = ground (arith, entries-none name ps)

pub find-none :
    (name : Str) (ps : List Project) → entries name ps ≡ 0 → find (has_name name) ps ≡ none
unfolding find
find-none name [] h = refl
find-none name (p ∷ ps) h = ground (arith, find-none name ps)

find-append :
    (name : Str) (ps : List Project) (p : Project)
    → find (has_name p.name) ps ≡ none
    → find (has_name name) (ps ++ p ∷ [])
      ≡ (if str_eq p.name name then some p else find (has_name name) ps)
unfolding find
find-append name [] p h = refl
find-append name (q ∷ qs) p h = ground (
  arith,
  find-append name qs p,
  str_eq_iff p.name name,
  str_eq_iff q.name name,
  str_eq_iff q.name p.name,
)

-- Lookups in `r'` are those in `r`, but for `p` under its own name.
abbrev pub Stores : Registry → Registry → Project → Type 0
Stores r r' p = (name : Str) → get r' name ≡ (if str_eq p.name name then some p else get r name)

abbrev pub Added : Registry → Project → Outcome RegistryError Registry → Type 0
Added r p (ok r') = (get r p.name ≡ none) × Stores r r' p × IsUnique r'
Added r p (err e) = (is_some (get r p.name) ≡ true) × (e ≡ already_registered p.name)

same_entries : (ps : List Project) (m n : Str) → str_eq m n ≡ true → entries m ps ≡ entries n ps
same_entries ps m n h = ap (λ k. entries k ps) (str_eq_sound m n h)

append-IsUnique :
    (r : Registry) (p : Project)
    → get r p.name ≡ none
    → IsUnique r
    → IsUnique (record { projects = r.projects ++ p ∷ [] })
unfolding get
append-IsUnique r p h u = record {
  at_most_one = λ name. ground (
    arith,
    entries-append name r.projects (p ∷ []),
    entries-none p.name r.projects h,
    u.at_most_one name,
    same_entries r.projects p.name name,
  );
}

-- In a registry of distinct names, `add` stores a new project, leaves the other lookups alone and
-- keeps the names distinct; it refuses exactly a name that is taken.
pub add_lem : (r : Registry) (p : Project) → IsUnique r → Added r p (add r p)
unfolding add
add_lem r p u = elim (Option-cases (get r p.name)) [
  | inl e ↦
      rw (e, add)
        (e, λ name. unfold get in find-append name r.projects p e, append-IsUnique r p e u)
  | inr (old, e) ↦ rw (e, add) (rw e, refl)
]

abbrev Replaced : List Project → Project → Option (Project × List Project) → Type 0
Replaced ps p none = find (has_name p.name) ps ≡ none
Replaced ps p (some (old, qs)) =
    (find (has_name p.name) ps ≡ some old)
    × ((name : Str)
        → find (has_name name) qs
          ≡ (if str_eq p.name name then some p else find (has_name name) ps))
    × ((name : Str) → entries name qs ≡ entries name ps)

keep_front-Replaced :
    (q : Project) (qs : List Project) (p : Project) (o : Option (Project × List Project))
    → str_eq q.name p.name ≡ false
    → Replaced qs p o
    → Replaced (q ∷ qs) p (keep_front q o)
unfolding keep_front find
keep_front-Replaced q qs p none e h = ground arith
keep_front-Replaced q qs p (some (old, rest)) e h = (
  ground arith,
  λ name.
      ground
        (arith, h.1 name, str_eq_iff q.name name, str_eq_iff p.name name, str_eq_iff q.name p.name),
  λ name. omega (arith, h.2 name),
)

replace_first_lem : (ps : List Project) (p : Project) → Replaced ps p (replace_first ps p)
unfolding replace_first find
replace_first_lem [] p = refl
replace_first_lem (q ∷ qs) p = elim (Bool-cases (str_eq q.name p.name)) [
  | inl e ↦
      let same = str_eq_sound q.name p.name e in
      rw e (
        rw e,
        λ name. ground (arith, ap (λ n. str_eq n name) same),
        λ name. ground (arith, ap (λ n. str_eq n name) same),
      )
  | inr e ↦ rw e (keep_front-Replaced q qs p (replace_first qs p) e (replace_first_lem qs p))
]

abbrev pub Upserted : Registry → Project → Option Project × Registry → Type 0
Upserted r p (old, r') = (old ≡ get r p.name) × Stores r r' p × IsUnique r'

upsert_cases :
    (r : Registry) (p : Project) (o : Option (Project × List Project))
    → IsUnique r
    → replace_first r.projects p ≡ o
    → Replaced r.projects p o
    → Upserted r p (upsert r p)
unfolding upsert get
upsert_cases r p none u e h =
    rw (e, upsert) (sym h, λ name. find-append name r.projects p h, append-IsUnique r p h u)
upsert_cases r p (some (old, qs)) u e h =
    rw (e, upsert)
      (sym h.0, h.1, record { at_most_one = λ name. omega (arith, h.2 name, u.at_most_one name) })

-- In a registry of distinct names, `upsert` stores the project whether or not its name is taken,
-- returns what the name held, leaves the other lookups alone and keeps the names distinct.
pub upsert_lem : (r : Registry) (p : Project) → IsUnique r → Upserted r p (upsert r p)
upsert_lem r p u =
    upsert_cases r p (replace_first r.projects p) u refl (replace_first_lem r.projects p)

abbrev Removed : List Project → Str → Option (Project × List Project) → Type 0
Removed ps name none = find (has_name name) ps ≡ none
Removed ps name (some (old, qs)) =
    (find (has_name name) ps ≡ some old)
    × ((n : Str) → str_eq name n ≡ false → find (has_name n) qs ≡ find (has_name n) ps)
    × ((n : Str) → entries n ps ≡ (if str_eq name n then 1 else 0) + entries n qs)

keep_front-Removed :
    (q : Project) (qs : List Project) (name : Str) (o : Option (Project × List Project))
    → str_eq q.name name ≡ false
    → Removed qs name o
    → Removed (q ∷ qs) name (keep_front q o)
unfolding keep_front find
keep_front-Removed q qs name none e h = ground arith
keep_front-Removed q qs name (some (old, rest)) e h =
    (ground arith, λ n d. ground (arith, h.1 n), λ n. omega (arith, h.2 n))

remove_first_lem : (ps : List Project) (name : Str) → Removed ps name (remove_first ps name)
unfolding remove_first find
remove_first_lem [] name = refl
remove_first_lem (q ∷ qs) name = elim (Bool-cases (str_eq q.name name)) [
  | inl e ↦
      let same = str_eq_sound q.name name e in
      rw e (
        rw e,
        λ n d. ground (arith, ap (λ m. str_eq m n) same),
        λ n. ground (arith, ap (λ m. str_eq m n) same),
      )
  | inr e ↦ rw e (keep_front-Removed q qs name (remove_first qs name) e (remove_first_lem qs name))
]

abbrev pub Unregistered : Registry → Str → Outcome RegistryError (Project × Registry) → Type 0
Unregistered r name (ok (old, r')) =
    (get r name ≡ some old)
    × ((n : Str) → get r' n ≡ (if str_eq name n then none else get r n))
    × IsUnique r'
Unregistered r name (err e) = (get r name ≡ none) × (e ≡ not_registered name)

remove_cases :
    (r : Registry) (name : Str) (o : Option (Project × List Project))
    → IsUnique r
    → remove_first r.projects name ≡ o
    → Removed r.projects name o
    → Unregistered r name (remove r name)
unfolding remove get
remove_cases r name none u e h = rw (e, remove) (h, refl)
remove_cases r name (some (old, qs)) u e h =
    rw (e, remove)
      (
        h.0,
        λ n. elim (Bool-cases (str_eq name n)) [
          | inl same ↦
              rw same (ap (λ m. find (has_name m) qs) (sym (str_eq_sound name n same)) ∙ gone)
          | inr other ↦ rw other (h.1 n other)
        ],
        record { at_most_one = λ n. omega (arith, h.2 n, u.at_most_one n) },
      )
  where
    own : ◌≡◌ {A = ℕ} (if str_eq name name then 1 else 0) 1
    own = rw (str_eq_refl name)

    gone : find (has_name name) qs ≡ none
    gone = find-none name qs (omega (arith, h.2 name, u.at_most_one name, own))

-- In a registry of distinct names, `remove` takes out the project of the name, so that its lookup
-- fails and all others stay, and keeps the names distinct; it fails exactly on a name that is not
-- registered.
pub remove_lem : (r : Registry) (name : Str) → IsUnique r → Unregistered r name (remove r name)
remove_lem r name u =
    remove_cases r name (remove_first r.projects name) u refl (remove_first_lem r.projects name)
