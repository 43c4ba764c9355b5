-- ===== src/Prelude/Text/Trim.antt =====
-- Trimming at the end, appending, and the characters that a text lacks.
use neals.Prelude.{true, sym, ap, ◌∙◌, ◌≡◌, refl, ℕ, false, ◌||◌, [], ◌∷◌, ◌++◌, arith, inl, inr}
use neals.Prelude.Bools.{and_parts, ==_iff, ◌==◌, Bool-cases, if◌then◌else◌}
use neals.Prelude.Lists.{all, List-cases}
use neals.Prelude.Text.{
  is_ascii_digit, trim_start, trim, Str, is_space, trim_end, is_empty, contains_char,
}

pub contains_char-append :
    (s t : Str) (k : ℕ) → contains_char (s ++ t) k ≡ (contains_char s k || contains_char t k)
unfolding contains_char
contains_char-append [] t k = refl
contains_char-append (c ∷ s) t k = ground (arith, contains_char-append s t k)

-- What `trim_end` leaves of a longer text, from what it leaves of the rest.
pub trim_end-cons :
    (c : ℕ) (s : Str) → is_empty (trim_end s) ≡ false → trim_end (c ∷ s) ≡ c ∷ trim_end s
unfolding trim_end
trim_end-cons c s h = elim (List-cases (trim_end s)) [
  | inl e ↦ ground (arith, e)
  | inr (d, t, e) ↦ rw (e, trim_end) refl
]

trim_end-blank :
    (c : ℕ) (s : Str) → trim_end s ≡ [] → trim_end (c ∷ s) ≡ (if is_space c then [] else c ∷ [])
unfolding trim_end
trim_end-blank c s e = rw (e, trim_end) refl

pub trim_end-append :
    (s t : Str) → is_empty (trim_end t) ≡ false → trim_end (s ++ t) ≡ s ++ trim_end t
trim_end-append [] t h = refl
trim_end-append (c ∷ s) t h =
    let later = trim_end-append s t h in
    trim_end-cons c (s ++ t)
      (elim (List-cases s) [ inl e ↦ rw e h | inr (d, u, e) ↦ rw (later, e) refl ])
    ∙ ap (λ u. c ∷ u) later

pub trim_end-append_blank : (s t : Str) → trim_end t ≡ [] → trim_end (s ++ t) ≡ trim_end s
unfolding trim_end
trim_end-append_blank [] t h = h
trim_end-append_blank (c ∷ s) t h =
    let later = trim_end-append_blank s t h in
    elim (List-cases (trim_end s)) [
      | inl e ↦ trim_end-blank c (s ++ t) (later ∙ e) ∙ sym (trim_end-blank c s e)
      | inr (d, u, e) ↦
          trim_end-cons c (s ++ t) (rw (later, e) refl)
          ∙ ap (λ v. c ∷ v) later
          ∙ sym (trim_end-cons c s (rw e refl))
    ]

pub trim_end-trim_end : (s : Str) → trim_end (trim_end s) ≡ trim_end s
unfolding trim_end
trim_end-trim_end [] = refl
trim_end-trim_end (c ∷ s) = elim (List-cases (trim_end s)) [
  | inl e ↦ rw (trim_end-blank c s e) (elim (Bool-cases (is_space c)) [
    | inl space ↦ rw space refl
    | inr other ↦ rw other (trim_end-blank c [] refl ∙ rw other refl)
  ])
  | inr (d, u, e) ↦ rw (trim_end-cons c s (rw e refl)) (
      trim_end-cons c (trim_end s) (rw (trim_end-trim_end s, e) refl)
      ∙ ap (λ v. c ∷ v) (trim_end-trim_end s))
]

pub trim-trim_end : (s : Str) → trim (trim_end s) ≡ trim s
unfolding trim
trim-trim_end s = ap trim_start (trim_end-trim_end s)

-- A text lacks a character if it does not contain it.
abbrev pub Lacks : ℕ → Str → Type 0
Lacks k s = contains_char s k ≡ false

pub trim_end-Lacks : (k : ℕ) (s : Str) → Lacks k s → Lacks k (trim_end s)
unfolding contains_char trim_end
trim_end-Lacks k [] h = h
trim_end-Lacks k (c ∷ s) h = elim (List-cases (trim_end s)) [
  | inl e ↦ rw (trim_end-blank c s e) (ground arith)
  | inr (d, u, e) ↦ rw (trim_end-cons c s (rw e refl)) (ground (arith, trim_end-Lacks k s))
]

pub trim_head : (c : ℕ) (s : Str) → is_space c ≡ false → (t : Str) × (trim (c ∷ s) ≡ c ∷ t)
unfolding trim trim_start
trim_head c s h = elim (List-cases (trim_end s)) [
  | inl e ↦ ([], rw (trim_end-blank c s e, h) (rw h refl))
  | inr (d, u, e) ↦ (trim_end s, rw (trim_end-cons c s (rw e refl), h) refl)
]

pub digits-Lacks :
    (k : ℕ) (s : Str) → is_ascii_digit k ≡ false → all is_ascii_digit s ≡ true → Lacks k s
unfolding contains_char all
digits-Lacks k [] n h = refl
digits-Lacks k (c ∷ s) n h = elim (Bool-cases (c == k)) [
  | inl e ↦
      let same = ap is_ascii_digit ((==_iff c k).0 e) in
      let is_digit = (and_parts (is_ascii_digit c) (all is_ascii_digit s) h).0 in
      absurd (ground (arith, n, same, is_digit))
  | inr e ↦ rw e (digits-Lacks k s n (and_parts (is_ascii_digit c) (all is_ascii_digit s) h).1)
]
