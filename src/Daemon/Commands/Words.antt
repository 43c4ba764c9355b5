-- ===== src/Daemon/Commands/Words.antt =====
-- The words that `split_whitespace` cuts a command of the daemon into.
use neals.Prelude.{
  inl, inr, ℕ, ◌≡◌, refl, ap, ◌∙◌, false, not, List, [], ◌∷◌, ◌++◌, arith, append_assoc,
}
use neals.Prelude.Bools.{Bool-cases}
use neals.Prelude.Lists.{select, any-append, All, any}
use neals.Prelude.Text.{Str, is_space, is_empty}
use neals.Daemon.Commands.{words_from, split_whitespace}

-- A word: not empty, and without blanks.
abbrev pub IsWord : Str → Type 0
IsWord w = (is_empty w ≡ false) × (any is_space w ≡ false)

snoc-IsWord :
    (k : ℕ) (cur : Str) (c : ℕ)
    → any is_space (k ∷ cur) ≡ false
    → is_space c ≡ false
    → any is_space ((k ∷ cur) ++ c ∷ []) ≡ false
unfolding any
snoc-IsWord k cur c h d = ground (arith, any-append is_space (k ∷ cur) (c ∷ []))

words_from-IsWord : (cur s : Str) → any is_space cur ≡ false → All IsWord (words_from cur s)
unfolding words_from any
words_from-IsWord [] [] h = tt
words_from-IsWord (k ∷ cur) [] h = ((refl, h), tt)
words_from-IsWord [] (c ∷ s) h = elim (Bool-cases (is_space c)) [
  | inl e ↦ rw e (words_from-IsWord [] s refl)
  | inr e ↦ rw e (words_from-IsWord (c ∷ []) s (rw e refl))
]
words_from-IsWord (k ∷ cur) (c ∷ s) h = elim (Bool-cases (is_space c)) [
  | inl e ↦ rw e ((refl, h), words_from-IsWord [] s refl)
  | inr e ↦ rw e (words_from-IsWord ((k ∷ cur) ++ c ∷ []) s (snoc-IsWord k cur c h e))
]

-- The characters of all words.
abbrev pub joined : List Str → Str
joined [] = []
joined (w ∷ ws) = w ++ joined ws

joined-words_from :
    (cur s : Str) → joined (words_from cur s) ≡ cur ++ select (λ c. not (is_space c)) s
unfolding words_from select
joined-words_from [] [] = refl
joined-words_from (k ∷ cur) [] = refl
joined-words_from [] (c ∷ s) = elim (Bool-cases (is_space c)) [
  | inl e ↦ rw e (joined-words_from [] s)
  | inr e ↦ rw e (joined-words_from (c ∷ []) s)
]
joined-words_from (k ∷ cur) (c ∷ s) = elim (Bool-cases (is_space c)) [
  | inl e ↦ rw e (ap (λ t. (k ∷ cur) ++ t) (joined-words_from [] s))
  | inr e ↦ rw e (
      joined-words_from ((k ∷ cur) ++ c ∷ []) s
      ∙ append_assoc (k ∷ cur) (c ∷ []) (select (λ c. not (is_space c)) s))
]

-- `split_whitespace` yields words that are not empty and have no blank, and together they are the
-- characters of the text that are no blanks, in their order.
pub split_whitespace_lem :
    (s : Str)
    → All IsWord (split_whitespace s)
      × (joined (split_whitespace s) ≡ select (λ c. not (is_space c)) s)
unfolding split_whitespace any
split_whitespace_lem s = (words_from-IsWord [] s refl, joined-words_from [] s)
