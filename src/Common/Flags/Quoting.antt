-- ===== src/Common/Flags/Quoting.antt =====
-- What a shell reads of the words that `shell_quote` of crates/common/src/lib.rs quotes.
use neals.Prelude.{
  inl, inr, ℕ, ◌≡◌, refl, ap, sym, ◌∙◌, Bool, true, false, ◌||◌, Option, none, some, List, [], ◌∷◌,
  ◌++◌, map, append_assoc, append-nil, arith,
}
use neals.Prelude.Bools.{◌==◌, if◌then◌else◌, Bool-cases, ==_iff}
use neals.Prelude.Lists.{all}
use neals.Prelude.Text.{Str, is_ascii_alphanumeric, is_ascii_digit, is_ascii_lower, is_ascii_upper}
use neals.Prelude.Text.Lines.{append_snoc}
use neals.Common.Flags.{is_safe, escape_quotes, shell_quote}

-- A character that a POSIX shell takes for itself outside quotes: no blank, quote or operator, and
-- nothing that it expands.
abbrev stands_for_itself : ℕ → Bool
stands_for_itself c =
    is_ascii_alphanumeric c
    || c == b'-'
    || c == b'_'
    || c == b'.'
    || c == b'/'
    || c == b':'
    || c == b'='

-- Where a POSIX shell stands in a command line: behind the words that are done, between two words,
-- in a word, in its single quotes, or behind its backslash. A line is `refused` that has a character
-- with another meaning.
pub data Reader : Type 0 where
  between : (done : List Str) → Reader
  in_word in_quotes escaped : (done : List Str) (word : Str) → Reader
  refused : Reader

-- A character outside quotes that is no blank.
unfoldable pub in_word_step : List Str → Str → ℕ → Reader
unfolding is_ascii_alphanumeric is_ascii_digit is_ascii_lower is_ascii_upper
in_word_step done word c =
    if c == 39
    then in_quotes done word
    else if c == 92
    then escaped done word
    else if stands_for_itself c
    then in_word done (word ++ c ∷ [])
    else refused

-- A line feed behind a backslash joins two lines, and is refused here.
unfoldable pub read_char : Reader → ℕ → Reader
unfolding in_word_step
read_char (between done) c = if c == 32 then between done else in_word_step done [] c
read_char (in_word done word) c =
    if c == 32 then between (done ++ word ∷ []) else in_word_step done word c
read_char (in_quotes done word) c =
    if c == 39 then in_word done word else in_quotes done (word ++ c ∷ [])
read_char (escaped done word) c = if c == 10 then refused else in_word done (word ++ c ∷ [])
read_char refused c = refused

unfoldable pub read_chars : Reader → Str → Reader
unfolding read_char
read_chars r [] = r
read_chars r (c ∷ s) = read_chars (read_char r c) s

abbrev pub words_of : Reader → Option (List Str)
words_of (between done) = some done
words_of (in_word done word) = some (done ++ word ∷ [])
words_of (in_quotes done word) = none
words_of (escaped done word) = none
words_of refused = none

-- The words of a command line. A line without a character has none.
unfoldable pub shell_words : Str → Option (List Str)
unfolding read_chars
shell_words line = words_of (read_chars (between []) line)

-- Words that are joined by a blank.
unfoldable pub spaced : List Str → Str
spaced [] = []
spaced (w ∷ []) = w
spaced (w ∷ v ∷ ws) = w ++ 32 ∷ spaced (v ∷ ws)

module _ (done : List Str) where
  safe_char :
      (word : Str) (c : ℕ)
      → is_safe c ≡ true
      → read_char (in_word done word) c ≡ in_word done (word ++ c ∷ [])
  unfolding read_char in_word_step is_safe is_ascii_alphanumeric is_ascii_digit is_ascii_lower
      is_ascii_upper
  safe_char word c h = ground arith

  first_safe_char : (c : ℕ) → is_safe c ≡ true → read_char (between done) c ≡ in_word done (c ∷ [])
  unfolding read_char in_word_step is_safe is_ascii_alphanumeric is_ascii_digit is_ascii_lower
      is_ascii_upper
  first_safe_char c h = ground arith

  read-safe :
      (word s rest : Str)
      → all is_safe s ≡ true
      → read_chars (in_word done word) (s ++ rest) ≡ read_chars (in_word done (word ++ s)) rest
  unfolding read_chars all
  read-safe word [] rest h = ap (λ w. read_chars (in_word done w) rest) (sym (append-nil word))
  read-safe word (c ∷ s) rest h =
      ap (λ r. read_chars r (s ++ rest)) (safe_char word c (ground (arith, h)))
      ∙ read-safe (word ++ c ∷ []) s rest (ground (arith, h))
      ∙ ap (λ w. read_chars (in_word done w) rest) (append_snoc word c s)

  quoted_char :
      (word : Str) (c : ℕ)
      → c == 39 ≡ false
      → read_char (in_quotes done word) c ≡ in_quotes done (word ++ c ∷ [])
  unfolding read_char
  quoted_char word c h = rw h refl

  read-escaped :
      (word s rest : Str)
      → read_chars (in_quotes done word) (escape_quotes s ++ rest)
        ≡ read_chars (in_quotes done (word ++ s)) rest
  unfolding read_chars read_char in_word_step escape_quotes
  read-escaped word [] rest = ap (λ w. read_chars (in_quotes done w) rest) (sym (append-nil word))
  read-escaped word (c ∷ s) rest = elim (Bool-cases (c == 39)) [
    | inl quote ↦ rw quote (
        read-escaped (word ++ 39 ∷ []) s rest
        ∙ ap (λ w. read_chars (in_quotes done w) rest)
            (append_snoc word 39 s ∙ ap (λ k. word ++ k ∷ s) (sym ((==_iff c 39).0 quote))))
    | inr other ↦ rw other (
        ap (λ r. read_chars r (escape_quotes s ++ rest)) (quoted_char word c other)
        ∙ read-escaped (word ++ c ∷ []) s rest
        ∙ ap (λ w. read_chars (in_quotes done w) rest) (append_snoc word c s))
  ]

  -- A quoted text is read as one word, whatever follows it.
  read-quoted :
      (s rest : Str)
      → read_chars (between done) (shell_quote s ++ rest) ≡ read_chars (in_word done s) rest
  unfolding shell_quote read_chars read_char in_word_step all
  read-quoted [] rest = refl
  read-quoted (c ∷ s) rest = elim (Bool-cases (all is_safe (c ∷ s))) [
    | inl safe ↦ rw safe (
        ap (λ r. read_chars r (s ++ rest)) (first_safe_char c (ground (arith, safe)))
        ∙ read-safe (c ∷ []) s rest (ground (arith, safe)))
    | inr unsafe ↦ rw unsafe (
        ap (read_chars (in_quotes done [])) (append_assoc (escape_quotes (c ∷ s)) (39 ∷ []) rest)
        ∙ read-escaped [] (c ∷ s) (39 ∷ rest))
  ]

read-spaced :
    (done : List Str) (w : Str) (ws : List Str)
    → words_of (read_chars (between done) (spaced (map shell_quote (w ∷ ws))))
      ≡ some (done ++ w ∷ ws)
unfolding spaced read_chars read_char
read-spaced done w [] =
    ap (λ l. words_of (read_chars (between done) l)) (sym (append-nil (shell_quote w)))
    ∙ ap words_of (read-quoted done w [])
read-spaced done w (v ∷ ws) =
    ap words_of (read-quoted done w (32 ∷ spaced (map shell_quote (v ∷ ws))))
    ∙ read-spaced (done ++ w ∷ []) v ws
    ∙ ap some (append_assoc done (w ∷ []) (v ∷ ws))

-- A shell splits texts that `shell_quote` has quoted, joined by blanks, into these texts again, also
-- where texts are empty.
pub shell_quote_lem : (ws : List Str) → shell_words (spaced (map shell_quote ws)) ≡ some ws
unfolding shell_words spaced read_chars
shell_quote_lem [] = refl
shell_quote_lem (w ∷ ws) = read-spaced [] w ws
