-- ===== src/Cli/Logs/Names/Listed.antt =====
-- The names that `process_log_names` of crates/cli/src/logs.rs lists.
use neals.Prelude.{
  ℕ, Bool, true, false, ◌||◌, Option, none, some, List, [], ◌∷◌, ◌++◌, ◌≡◌, refl, sym, ap, ◌∙◌,
  subst, arith, inl, inr,
}
use neals.Prelude.Bools.{take_both, take_both, if◌then◌else◌, Bool-cases, Bool-ext, Option-cases}
use neals.Prelude.Lists.{take, drop, length, length-append, any}
use mathlib.Core.Option.{some_inj}
use neals.Prelude.Text.{str_eq_iff, Str, str_eq, str_eq_sound, str_eq_refl, str_leb}
use neals.Prelude.Text.Order.{str_leb_total}
use neals.Cli.Logs.Names.{
  put_char, strip_suffix, stdout_suffix, stderr_suffix, log_name, log_names, insert_name,
  sort_names, dedup_after, dedup, process_log_names,
}

-- Each name is less than the next.
abbrev pub IsIncreasing : List Str → Type 0
IsIncreasing [] = Unit
IsIncreasing (a ∷ []) = Unit
IsIncreasing (a ∷ b ∷ s) = (str_leb a b ≡ true) × (str_eq a b ≡ false) × IsIncreasing (b ∷ s)

abbrev Above : Str → List Str → Type 0
Above a [] = Unit
Above a (b ∷ s) = str_leb a b ≡ true

abbrev AreOrdered : List Str → Type 0
AreOrdered [] = Unit
AreOrdered (a ∷ s) = Above a s × AreOrdered s

Above-insert_name :
    (a b : Str) (s : List Str) → Above a s → str_leb a b ≡ true → Above a (insert_name b s)
unfolding insert_name
Above-insert_name a b [] h k = k
Above-insert_name a b (c ∷ s) h k = take_both (Above a) (str_leb b c) _ _ (λ _. k) (λ _. h)

insert_name-AreOrdered : (a : Str) (s : List Str) → AreOrdered s → AreOrdered (insert_name a s)
unfolding insert_name
insert_name-AreOrdered a [] h = (tt, tt)
insert_name-AreOrdered a (b ∷ s) h =
    take_both AreOrdered (str_leb a b) (a ∷ b ∷ s) (b ∷ insert_name a s) (λ le. (le, h))
      (λ gt. (Above-insert_name b a s h.0 (str_leb_total a b gt), insert_name-AreOrdered a s h.1))

sort_names-AreOrdered : (s : List Str) → AreOrdered (sort_names s)
unfolding sort_names
sort_names-AreOrdered [] = tt
sort_names-AreOrdered (a ∷ s) = insert_name-AreOrdered a (sort_names s) (sort_names-AreOrdered s)

dedup_after-IsIncreasing :
    (a : Str) (s : List Str) → Above a s → AreOrdered s → IsIncreasing (a ∷ dedup_after a s)
unfolding dedup_after
dedup_after-IsIncreasing a [] h k = tt
dedup_after-IsIncreasing a (b ∷ s) h k = elim (Bool-cases (str_eq a b)) [
  | inl e ↦
      rw e
        (dedup_after-IsIncreasing a s (subst (λ c. Above c s) (sym (str_eq_sound a b e)) k.0) k.1)
  | inr e ↦ rw e (h, e, dedup_after-IsIncreasing b s k.0 k.1)
]

dedup-IsIncreasing : (s : List Str) → AreOrdered s → IsIncreasing (dedup s)
unfolding dedup
dedup-IsIncreasing [] h = tt
dedup-IsIncreasing (a ∷ s) h = dedup_after-IsIncreasing a s h.0 h.1

any-insert_name :
    (p : Str → Bool) (a : Str) (s : List Str) → any p (insert_name a s) ≡ (p a || any p s)
unfolding insert_name any
any-insert_name p a [] = refl
any-insert_name p a (b ∷ s) = ground (arith, any-insert_name p a s)

any-sort_names : (p : Str → Bool) (s : List Str) → any p (sort_names s) ≡ any p s
unfolding sort_names any
any-sort_names p [] = refl
any-sort_names p (a ∷ s) =
    any-insert_name p a (sort_names s) ∙ ap (λ b. p a || b) (any-sort_names p s)

any-dedup_after :
    (p : Str → Bool) (a : Str) (s : List Str) → (p a || any p (dedup_after a s)) ≡ (p a || any p s)
unfolding dedup_after any
any-dedup_after p a [] = refl
any-dedup_after p a (b ∷ s) = elim (Bool-cases (str_eq a b)) [
  | inl e ↦ rw (e, any-dedup_after p a s) (ground (arith, ap p (str_eq_sound a b e)))
  | inr e ↦ rw e (ap (λ c. p a || c) (any-dedup_after p b s))
]

any-dedup : (p : Str → Bool) (s : List Str) → any p (dedup s) ≡ any p s
unfolding dedup any
any-dedup p [] = refl
any-dedup p (a ∷ s) = any-dedup_after p a s

-- A suffix is taken off where it is one.
stripped :
    (b : Bool) (r : Option Str) (s suffix n : Str)
    → (b ≡ true → s ≡ suffix)
    → (r ≡ some n → s ≡ n ++ suffix)
    → (if b then some [] else r) ≡ some n
    → s ≡ n ++ suffix
stripped true r s suffix n f g h = subst (λ m. s ≡ m ++ suffix) (some_inj.0 h) (f refl)
stripped false r s suffix n f g h = g h

put_stripped :
    (c : ℕ) (r : Option Str) (s suffix n : Str)
    → ((m : Str) → r ≡ some m → s ≡ m ++ suffix)
    → put_char c r ≡ some n
    → c ∷ s ≡ n ++ suffix
put_stripped c none s suffix n f h = absurd (ground (arith, h))
put_stripped c (some m) s suffix n f h =
    ap (λ t. c ∷ t) (f m refl) ∙ ap (λ t. t ++ suffix) (some_inj.0 h)

strip_suffix_sound : (suffix s n : Str) → strip_suffix suffix s ≡ some n → s ≡ n ++ suffix
unfolding strip_suffix
strip_suffix_sound suffix [] n h =
    stripped (str_eq [] suffix) none [] suffix n (str_eq_sound [] suffix)
      (λ e. absurd (ground (arith, e))) h
strip_suffix_sound suffix (c ∷ s) n h =
    stripped (str_eq (c ∷ s) suffix) (put_char c (strip_suffix suffix s)) (c ∷ s) suffix n
      (str_eq_sound (c ∷ s) suffix)
      (put_stripped c (strip_suffix suffix s) s suffix n (strip_suffix_sound suffix s)) h

longer : (c : ℕ) (n s : Str) → str_eq (c ∷ (n ++ s)) s ≡ false
longer c n s = elim (Bool-cases (str_eq (c ∷ (n ++ s)) s)) [
  | inl e ↦ absurd (omega (arith, ap length (str_eq_sound (c ∷ (n ++ s)) s e), length-append n s))
  | inr e ↦ e
]

strip_suffix-append : (suffix n : Str) → strip_suffix suffix (n ++ suffix) ≡ some n
unfolding strip_suffix str_eq
strip_suffix-append [] [] = refl
strip_suffix-append (c ∷ suffix) [] = rw (str_eq_refl (c ∷ suffix)) refl
strip_suffix-append suffix (c ∷ n) = rw (longer c n suffix, strip_suffix-append suffix n) refl

append_split : (m n s t : Str) → m ++ s ≡ n ++ t → length s ≡ length t → s ≡ t
append_split [] [] s t h l = h
append_split [] (c ∷ n) s t h l = absurd (omega (arith, ap length h, length-append n t, l))
append_split (c ∷ m) [] s t h l = absurd (omega (arith, ap length h, length-append m s, l))
append_split (c ∷ m) (d ∷ n) s t h l = append_split m n s t (ap (drop 1) h) l

-- A file is the log of a process where it is its name and one of the two suffixes.
is_log : Str → Option Str → Bool
is_log name none = false
is_log name (some n) = str_eq name n

is_log-some : (name : Str) (o : Option Str) → is_log name o ≡ true → o ≡ some name
unfolding is_log
is_log-some name none h = absurd (ground (arith, h))
is_log-some name (some n) h = ap some (sym (str_eq_sound name n h))

suffix_iff :
    (suffix name file : Str) → is_log name (strip_suffix suffix file) ≡ str_eq (name ++ suffix) file
unfolding is_log
suffix_iff suffix name file =
    Bool-ext (is_log name (strip_suffix suffix file)) (str_eq (name ++ suffix) file)
      (λ h.
        (str_eq_iff (name ++ suffix) file).1 (
          sym
            (strip_suffix_sound suffix file name (is_log-some name (strip_suffix suffix file) h))))
      (λ h.
        subst (λ f. is_log name (strip_suffix suffix f) ≡ true)
          (str_eq_sound (name ++ suffix) file h)
          (rw (strip_suffix-append suffix name) (str_eq_refl name)))

one_suffix :
    (name n file : Str) → file ≡ n ++ stdout_suffix → str_eq (name ++ stderr_suffix) file ≡ false
one_suffix name n file e = elim (Bool-cases (str_eq (name ++ stderr_suffix) file)) [
  | inl h ↦ absurd (
      ground (
        arith,
        ap (take 5) (
            append_split name n stderr_suffix stdout_suffix
              (str_eq_sound (name ++ stderr_suffix) file h ∙ e) refl),
      ))
  | inr h ↦ h
]

log_name_iff :
    (name file : Str)
    → is_log name (log_name file)
      ≡ (str_eq (name ++ stdout_suffix) file || str_eq (name ++ stderr_suffix) file)
unfolding is_log log_name
log_name_iff name file = elim (Option-cases (strip_suffix stdout_suffix file)) [
  | inl e ↦
      rw (log_name, sym (suffix_iff stdout_suffix name file), e)
        (suffix_iff stderr_suffix name file)
  | inr (n, e) ↦
      rw
        (
          log_name,
          sym (suffix_iff stdout_suffix name file),
          e,
          one_suffix name n file (strip_suffix_sound stdout_suffix file n e),
        )
        (ground arith)
]

any-log_cons :
    (name f : Str) (files : List Str)
    → any (str_eq name) (log_names (f ∷ files))
      ≡ (is_log name (log_name f) || any (str_eq name) (log_names files))
unfolding any is_log log_names
any-log_cons name f files = elim (Option-cases (log_name f)) [
  | inl e ↦ rw (log_names, e) refl
  | inr (n, e) ↦ rw (log_names, e) refl
]

any-log_names :
    (name : Str) (files : List Str)
    → any (str_eq name) (log_names files)
      ≡ (any (str_eq (name ++ stdout_suffix)) files || any (str_eq (name ++ stderr_suffix)) files)
unfolding any log_names
any-log_names name [] = refl
any-log_names name (f ∷ files) =
    any-log_cons name f files
    ∙ rw (log_name_iff name f, any-log_names name files)
        (or_swap (str_eq (name ++ stdout_suffix) f) (str_eq (name ++ stderr_suffix) f) _ _)
  where
    or_swap : (a b c d : Bool) → ((a || b) || (c || d)) ≡ ((a || c) || (b || d))
    or_swap a b c d = ground arith

-- The names are sorted, none twice, and a name is listed exactly where one of the two streams of
-- that process has a log in the directory.
pub process_log_names_lem :
    (files : List Str)
    → IsIncreasing (process_log_names files)
      × ((name : Str)
          → any (str_eq name) (process_log_names files) ≡ (
              any (str_eq (name ++ stdout_suffix)) files
              || any (str_eq (name ++ stderr_suffix)) files))
unfolding process_log_names
process_log_names_lem files = (
  dedup-IsIncreasing (sort_names (log_names files)) (sort_names-AreOrdered (log_names files)),
  λ name.
      any-dedup (str_eq name) (sort_names (log_names files))
      ∙ any-sort_names (str_eq name) (log_names files)
      ∙ any-log_names name files,
)
