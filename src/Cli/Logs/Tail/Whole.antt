-- ===== src/Cli/Logs/Tail/Whole.antt =====
-- The lines that `tail_lines` of crates/cli/src/logs.rs returns, beside those of the whole file.
use mathlib.Core.List.{reverse_aux, reverse-reverse, reverse-append}
use neals.Prelude.{
  ℕ, suc, zero, ◌+◌, ◌-◌, ◌≤◌, Bool, true, false, some, List, [], ◌∷◌, ◌++◌, reverse, ◌≡◌, refl,
  sym, ap, ◌∙◌, inl, inr, arith,
}
use neals.Prelude.Bools.{◌==◌, if◌then◌else◌, Bool-cases}
use neals.Prelude.Lists.{length, take, drop}
use neals.Prelude.Outcome.{ok}
use neals.Prelude.Text.{Str, lines, lines_from, is_empty, strip_cr}
use neals.Prelude.Text.Lines.{lines_from-char}
use neals.Prelude.Utf8.{decode_from, from_utf8_lossy, from_utf8_lossy-line}
use neals.Prelude.Utf8.Counts.{line_count, length-lines_lossy}
use neals.Daemon.Commands.{last_lines}
use neals.Cli.Logs.{concat, ends_line, tail_bytes, tail_lines}
use neals.Cli.Logs.Tail.{Tail, feeds, tail_loop-Tail}

lines_from-feed :
    (cur s t : Str)
    → lines_from cur (s ++ 10 ∷ t) ≡ lines_from cur (s ++ 10 ∷ []) ++ lines_from [] t
unfolding lines_from
lines_from-feed cur [] t =
    lines_from-char cur 10 t ∙ ap (λ ls. ls ++ lines_from [] t) (sym (lines_from-char cur 10 []))
lines_from-feed cur (c ∷ s) t =
    rw (lines_from-char cur c (s ++ 10 ∷ t), lines_from-char cur c (s ++ 10 ∷ []))
      (elim (Bool-cases (c == 10)) [
        | inl e ↦ rw e (ap (λ l. strip_cr cur ∷ l) (lines_from-feed [] s t))
        | inr e ↦ rw e (lines_from-feed (cur ++ c ∷ []) s t)
      ])

-- The lines before a line feed and those behind it.
pub lines-feed : (s t : Str) → lines (s ++ 10 ∷ t) ≡ lines (s ++ 10 ∷ []) ++ lines t
unfolding lines
lines-feed s t = lines_from-feed [] s t

length-reverse_aux :
    {A : Type 0} (xs ys : List A) → length (reverse_aux xs ys) ≡ length xs + length ys
length-reverse_aux [] ys = omega arith
length-reverse_aux (x ∷ xs) ys = omega (arith, length-reverse_aux xs (x ∷ ys))

take-length : {A : Type 0} (n : ℕ) (xs ys : List A) → length xs ≡ n → take n (xs ++ ys) ≡ xs
take-length zero [] ys h = refl
take-length (suc n) [] ys h = absurd (omega arith)
take-length zero (x ∷ xs) ys h = absurd (omega arith)
take-length (suc n) (x ∷ xs) ys h = ap (λ l. x ∷ l) (take-length n xs ys (omega arith))

take-all : {A : Type 0} (n : ℕ) (xs : List A) → length xs ≤ n → take n xs ≡ xs
take-all zero [] h = refl
take-all (suc n) [] h = refl
take-all zero (x ∷ xs) h = absurd (omega arith)
take-all (suc n) (x ∷ xs) h = ap (λ l. x ∷ l) (take-all n xs (omega arith))

pub last_lines-append :
    (n : ℕ) (front back : List Str) → length back ≡ n → last_lines n (front ++ back) ≡ back
unfolding last_lines
last_lines-append n front back h =
    rw
      (
        reverse-append front back,
        take-length n (reverse back) (reverse front) (omega (arith, length-reverse_aux back [], h)),
      )
      (reverse-reverse back)

pub last_lines-all : (n : ℕ) (ls : List Str) → length ls ≤ n → last_lines n ls ≡ ls
unfolding last_lines
last_lines-all n ls h =
    rw (take-all n (reverse ls) (omega (arith, length-reverse_aux ls [], h))) (reverse-reverse ls)

-- The number of lines, from that of the line feeds.
line_count-feeds :
    (o : Bool) (s : Str)
    → is_empty s ≡ false
    → line_count o s ≡ (if ends_line s then 0 else 1) + feeds s
unfolding line_count ends_line
line_count-feeds o [] h = absurd (ground arith)
line_count-feeds o (c ∷ []) h = ground arith
line_count-feeds o (c ∷ d ∷ s) h =
    ground (arith, line_count-feeds false (d ∷ s) refl, line_count-feeds true (d ∷ s) refl)

ends_line-feed : (s t : Str) → ends_line (s ++ 10 ∷ t) ≡ (if is_empty t then true else ends_line t)
unfolding ends_line
ends_line-feed [] [] = refl
ends_line-feed [] (c ∷ t) = refl
ends_line-feed (c ∷ []) t = ends_line-feed [] t
ends_line-feed (c ∷ d ∷ s) t = ends_line-feed (d ∷ s) t

threshold_of : Str → ℕ → ℕ
threshold_of file n = if ends_line file then n else n - 1

tail_bytes-Tail : (file : Str) (n : ℕ) → Tail (threshold_of file n) file (tail_bytes file n)
unfolding tail_bytes concat threshold_of
tail_bytes-Tail file n =
    tail_loop-Tail (length file) file (threshold_of file n) (length file) 0 [] (omega arith)
      (omega arith) (sym (drop-all file)) refl (omega arith)
  where
    drop-all : (s : Str) → drop (length s) s ≡ []
    drop-all [] = refl
    drop-all (c ∷ s) = drop-all s

-- What follows a line feed with `threshold_of` many of them has `n` lines.
kept-count :
    (file : Str) (n : ℕ) (front kept : Str)
    → 1 ≤ n
    → file ≡ front ++ 10 ∷ kept
    → feeds kept ≡ threshold_of file n
    → line_count false kept ≡ n
unfolding threshold_of
kept-count file n front [] pos split total =
    absurd (ground (arith, ap ends_line split ∙ ends_line-feed front [], total))
kept-count file n front (c ∷ kept) pos split total = ground (
  arith,
  ap ends_line split ∙ ends_line-feed front (c ∷ kept),
  total,
  line_count-feeds false (c ∷ kept) refl,
)

lines-Tail :
    (file : Str) (n : ℕ) (kept : Str)
    → 1 ≤ n
    → is_empty file ≡ false
    → Tail (threshold_of file n) file kept
    → lines (from_utf8_lossy kept) ≡ last_lines n (lines (from_utf8_lossy file))
unfolding threshold_of
lines-Tail file n kept pos full (inl (same, few)) = rw same (
    sym (
      last_lines-all n _
        (ground (arith, few, length-lines_lossy file, line_count-feeds false file full))))
lines-Tail file n kept pos full (inr (front, split, total)) = sym (
    ap (λ s. last_lines n (lines s)) (ap from_utf8_lossy split ∙ from_utf8_lossy-line front kept)
    ∙ ap (last_lines n) (lines-feed (from_utf8_lossy front) (from_utf8_lossy kept))
    ∙ last_lines-append n _ _
        (length-lines_lossy kept ∙ kept-count file n front kept pos split total))

-- The blocks that are read from the end give the last `n` lines of the whole file.
pub tail_lines_lem :
    (file : Str) (n : ℕ)
    → tail_lines (some file) n ≡ ok (last_lines n (lines (from_utf8_lossy file)))
unfolding tail_lines last_lines lines lines_from from_utf8_lossy decode_from
tail_lines_lem file zero = refl
tail_lines_lem [] (suc n) = refl
tail_lines_lem (c ∷ file) (suc n) =
    ap ok (lines-Tail (c ∷ file) (suc n) _ (omega arith) refl (tail_bytes-Tail (c ∷ file) (suc n)))
