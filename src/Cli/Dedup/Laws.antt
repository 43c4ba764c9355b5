-- ===== src/Cli/Dedup/Laws.antt =====
-- The queue and the set of recent lines of crates/cli/src/live.rs, and the two of them side by side.
use neals.Prelude.{
  ℕ, ◌+◌, ◌-◌, ◌≤◌, ◌≡◌, refl, Bool, true, false, ◌&&◌, List, [], ◌∷◌, ◌++◌, arith, inl, inr,
}
use neals.Prelude.Bools.{ltb, if◌then◌else◌, Bool-cases}
use neals.Prelude.Lists.{length}
use neals.Prelude.Text.{str_eq_refl, Str, str_eq, str_eq_iff}
use neals.Cli.Dedup.{
  take_merged, new_lines, take_process, new_deduper, CrossDeduper, RecentLines, member, discard,
  remove_first, shrink, insert, remove,
}

unfoldable pub occurs : Str → List Str → ℕ
occurs x [] = 0
occurs x (y ∷ ys) = (if str_eq y x then 1 else 0) + occurs x ys

abbrev as_number : Bool → ℕ
as_number true = 1
as_number false = 0

-- Each line is queued as often as it is in the set: once or not at all.
abbrev Agree : List Str → List Str → Type 0
Agree order seen = (x : Str) → occurs x order ≡ as_number (member x seen)

pub record IsValid (r : RecentLines) : Type 0 where
  pub agree : Agree r.order r.seen
  pub bounded : length r.order ≤ r.cap

occurs-append : (x : Str) (ys zs : List Str) → occurs x (ys ++ zs) ≡ occurs x ys + occurs x zs
unfolding occurs
occurs-append x [] zs = omega arith
occurs-append x (y ∷ ys) zs = omega (arith, occurs-append x ys zs)

member-discard :
    (x y : Str) (ys : List Str)
    → member x (discard y ys) ≡ (if str_eq y x then false else member x ys)
unfolding member discard
member-discard x y [] = ground arith
member-discard x y (z ∷ zs) =
    ground (arith, member-discard x y zs, str_eq_iff y x, str_eq_iff z x, str_eq_iff z y)

occurs-remove_first :
    (x y : Str) (ys : List Str)
    → occurs x (remove_first y ys) ≡ occurs x ys - (if str_eq y x then 1 else 0)
unfolding occurs remove_first
occurs-remove_first x y [] = ground arith
occurs-remove_first x y (z ∷ zs) =
    ground (arith, occurs-remove_first x y zs, str_eq_iff y x, str_eq_iff z x, str_eq_iff z y)

length-remove_first : (y : Str) (ys : List Str) → length (remove_first y ys) ≤ length ys
unfolding remove_first
length-remove_first y [] = omega arith
length-remove_first y (z ∷ zs) = ground (arith, length-remove_first y zs)

Agree-discard : (y : Str) (ys seen : List Str) → Agree (y ∷ ys) seen → Agree ys (discard y seen)
unfolding occurs
Agree-discard y ys seen h x = ground (arith, h x, member-discard x y seen)

shrink-Agree :
    (cap : ℕ) (order seen : List Str)
    → Agree order seen
    → Agree (shrink cap order seen).0 (shrink cap order seen).1
unfolding shrink
shrink-Agree cap [] seen h = h
shrink-Agree cap (y ∷ ys) seen h = elim (Bool-cases (ltb cap (length (y ∷ ys)))) [
  | inl over ↦ rw over (shrink-Agree cap ys (discard y seen) (Agree-discard y ys seen h))
  | inr fits ↦ rw fits h
]

shrink_bounded : (cap : ℕ) (order seen : List Str) → length (shrink cap order seen).0 ≤ cap
unfolding shrink
shrink_bounded cap [] seen = omega arith
shrink_bounded cap (y ∷ ys) seen = ground (arith, shrink_bounded cap ys (discard y seen))

Agree-push :
    (line : Str) (order seen : List Str)
    → member line seen ≡ false
    → Agree order seen
    → Agree (order ++ line ∷ []) (line ∷ seen)
unfolding occurs member
Agree-push line order seen new h x =
    ground (arith, h x, occurs-append x order (line ∷ []), str_eq_iff line x)

-- Inserting a line keeps queue and set in agreement and within the bound.
pub insert-IsValid : (r : RecentLines) (line : Str) → IsValid r → IsValid (insert r line)
unfolding insert
insert-IsValid r line v = elim (Bool-cases (member line r.seen)) [
  | inl old ↦ rw old v
  | inr new ↦ rw new (record {
    agree = shrink-Agree r.cap _ _ (Agree-push line r.order r.seen new v.agree);
    bounded = shrink_bounded r.cap (r.order ++ line ∷ []) (line ∷ r.seen);
  })
]

remove-IsValid : (r : RecentLines) (line : Str) → IsValid r → IsValid (remove r line).1
unfolding remove
remove-IsValid r line v = elim (Bool-cases (member line r.seen)) [
  | inl old ↦ rw old (record {
    agree = λ x.
        ground (arith, v.agree x, occurs-remove_first x line r.order, member-discard x line r.seen);
    bounded = omega (arith, v.bounded, length-remove_first line r.order);
  })
  | inr new ↦ rw new v
]

shrink_keeps_last :
    (cap : ℕ) (line : Str) (before seen : List Str)
    → 1 ≤ cap
    → 1 ≤ occurs line (shrink cap (before ++ line ∷ []) seen).0
unfolding shrink occurs
shrink_keeps_last cap line [] seen c = ground (arith, str_eq_refl line)
shrink_keeps_last cap line (y ∷ ys) seen c =
    elim (Bool-cases (ltb cap (length (y ∷ (ys ++ line ∷ []))))) [
      | inl over ↦ rw over (shrink_keeps_last cap line ys (discard y seen) c)
      | inr fits ↦ rw fits (omega (arith, occurs-append line (y ∷ ys) (line ∷ []), once))
    ]
  where
    once : occurs line (line ∷ []) ≡ 1
    once = ground (arith, str_eq_refl line)

member_of_occurs : (b : Bool) → 1 ≤ as_number b → b ≡ true
member_of_occurs true h = refl
member_of_occurs false h = absurd (omega arith)

pushed :
    (r : RecentLines) (line : Str)
    → IsValid r
    → 1 ≤ r.cap
    → member line r.seen ≡ false
    → member line (shrink r.cap (r.order ++ line ∷ []) (line ∷ r.seen)).1 ≡ true
pushed r line v c new =
    member_of_occurs (member line (shrink r.cap (r.order ++ line ∷ []) (line ∷ r.seen)).1) (
      omega (
        arith,
        shrink-Agree r.cap (r.order ++ line ∷ []) (line ∷ r.seen)
            (Agree-push line r.order r.seen new v.agree) line,
        shrink_keeps_last r.cap line r.order (line ∷ r.seen) c,
      ))

member-insert :
    (r : RecentLines) (line : Str) → IsValid r → 1 ≤ r.cap → member line (insert r line).seen ≡ true
unfolding insert
member-insert r line v c = elim (Bool-cases (member line r.seen)) [
  | inl old ↦ rw old old
  | inr new ↦ rw new (pushed r line v c new)
]

cap-insert : (r : RecentLines) (line : Str) → (insert r line).cap ≡ r.cap
unfolding insert
cap-insert r line = ground arith

cap-remove : (r : RecentLines) (line : Str) → (remove r line).1.cap ≡ r.cap
unfolding remove
cap-remove r line = ground arith

-- Both windows are valid and hold `cap` lines.
pub record IsCrossValid (cap : ℕ) (d : CrossDeduper) : Type 0 where
  pub process : IsValid d.from_process
  pub process_cap : d.from_process.cap ≡ cap
  pub merged : IsValid d.from_merged
  pub merged_cap : d.from_merged.cap ≡ cap

pub new_deduper-IsCrossValid : (cap : ℕ) → IsCrossValid cap (new_deduper cap)
unfolding new_deduper new_lines occurs member
new_deduper-IsCrossValid cap = record {
  process = record { agree = λ x. refl; bounded = omega arith };
  process_cap = refl;
  merged = record { agree = λ x. refl; bounded = omega arith };
  merged_cap = refl;
}

-- The windows stay valid, and a line that was shown is not shown by `other` next.
abbrev pub ShownOnce :
    ℕ → (CrossDeduper → Str → Bool × CrossDeduper) → Str → Bool × CrossDeduper → Type 0
ShownOnce cap other line (shown, d) = IsCrossValid cap d × ((shown && (other d line).0) ≡ false)

remove_hit : (r : RecentLines) (line : Str) → (remove r line).0 ≡ member line r.seen
unfolding remove
remove_hit r line = ground arith

take_process_lem :
    (cap : ℕ) (d : CrossDeduper) (line : Str)
    → 1 ≤ cap
    → IsCrossValid cap d
    → ShownOnce cap take_merged line (take_process d line)
unfolding take_process take_merged
take_process_lem cap d line c v = elim (Bool-cases (remove d.from_merged line).0) [
  | inl hit ↦ rw hit (
    record {
      process = v.process;
      process_cap = v.process_cap;
      merged = remove-IsValid d.from_merged line v.merged;
      merged_cap = ground (arith, cap-remove d.from_merged line, v.merged_cap);
    },
    refl,
  )
  | inr miss ↦ rw miss (
    record {
      process = insert-IsValid d.from_process line v.process;
      process_cap = ground (arith, cap-insert d.from_process line, v.process_cap);
      merged = remove-IsValid d.from_merged line v.merged;
      merged_cap = ground (arith, cap-remove d.from_merged line, v.merged_cap);
    },
    ground (
      arith,
      remove_hit (insert d.from_process line) line,
      member-insert d.from_process line v.process (omega (arith, v.process_cap, c)),
    ),
  )
]

take_merged_lem :
    (cap : ℕ) (d : CrossDeduper) (line : Str)
    → 1 ≤ cap
    → IsCrossValid cap d
    → ShownOnce cap take_process line (take_merged d line)
unfolding take_process take_merged
take_merged_lem cap d line c v = elim (Bool-cases (remove d.from_process line).0) [
  | inl hit ↦ rw hit (
    record {
      process = remove-IsValid d.from_process line v.process;
      process_cap = ground (arith, cap-remove d.from_process line, v.process_cap);
      merged = v.merged;
      merged_cap = v.merged_cap;
    },
    refl,
  )
  | inr miss ↦ rw miss (
    record {
      process = remove-IsValid d.from_process line v.process;
      process_cap = ground (arith, cap-remove d.from_process line, v.process_cap);
      merged = insert-IsValid d.from_merged line v.merged;
      merged_cap = ground (arith, cap-insert d.from_merged line, v.merged_cap);
    },
    ground (
      arith,
      remove_hit (insert d.from_merged line) line,
      member-insert d.from_merged line v.merged (omega (arith, v.merged_cap, c)),
    ),
  )
]

-- Windows of at least one line stay valid, that is each queue agrees with its set and is within its
-- bound, when either log is read; a line that one log shows is not shown by the other's next read.
pub take_lem :
    (cap : ℕ) (d : CrossDeduper) (line : Str)
    → 1 ≤ cap
    → IsCrossValid cap d
    → ShownOnce cap take_merged line (take_process d line)
      × ShownOnce cap take_process line (take_merged d line)
take_lem cap d line c v = (take_process_lem cap d line c v, take_merged_lem cap d line c v)
