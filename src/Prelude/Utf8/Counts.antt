-- ===== src/Prelude/Utf8/Counts.antt =====
-- How many lines a text has, and that decoding keeps that number.
use neals.Prelude.{
  append_assoc, ap, append-nil, ℕ, suc, Bool, true, false, ◌||◌, not, [], ◌∷◌, ◌++◌, ◌≡◌, refl,
  arith, inl, inr, ◌∙◌,
}
use neals.Prelude.Bools.{==_iff, ◌==◌, if◌then◌else◌, Bool-cases}
use neals.Prelude.Lists.{length}
use neals.Prelude.Text.{Str, contains_char, is_empty, lines_from, lines}
use neals.Prelude.Text.Lines.{lines_from-char}
use neals.Prelude.Utf8.{
  Partial, idle, more, busy, flush, decode_from, from_utf8_lossy, IsPartial, byte_step,
  byte_step-IsPartial, byte_step-Kept, byte_step_feed,
}

-- `open_line`: whether some of the line was seen.
unfoldable pub line_count : Bool → Str → ℕ
line_count open_line [] = if open_line then 1 else 0
line_count open_line (c ∷ s) =
    let closed = suc (line_count false s) in
    let longer = line_count true s in if c == 10 then closed else longer

pub length-lines_from :
    (cur s : Str) → length (lines_from cur s) ≡ line_count (not (is_empty cur)) s
unfolding lines_from line_count
length-lines_from [] [] = refl
length-lines_from (k ∷ cur) [] = refl
length-lines_from cur (c ∷ s) = rw (lines_from-char cur c s) (elim (Bool-cases (c == 10)) [
  | inl e ↦ rw e (omega (arith, length-lines_from [] s))
  | inr e ↦ rw e (length-lines_from (cur ++ c ∷ []) s ∙ rw (snoc cur) refl)
])
  where
    snoc : (t : Str) → is_empty (t ++ c ∷ []) ≡ false
    snoc [] = refl
    snoc (d ∷ t) = refl

line_count-kept :
    (o : Bool) (out s : Str)
    → contains_char out 10 ≡ false
    → line_count o (out ++ s) ≡ line_count (o || not (is_empty out)) s
unfolding line_count contains_char
line_count-kept true [] s h = refl
line_count-kept false [] s h = refl
line_count-kept o (c ∷ out) s h = ground (arith, line_count-kept true out s)

line_count-flush :
    (o : Bool) (p : Partial) (s : Str) → line_count o (flush p ++ s) ≡ line_count (o || busy p) s
unfolding line_count
line_count-flush true idle s = refl
line_count-flush false idle s = refl
line_count-flush true (more left low high value) s = refl
line_count-flush false (more left low high value) s = refl

pub line_count-decode_from :
    (o : Bool) (p : Partial) (s : Str)
    → IsPartial p
    → line_count o (decode_from p s) ≡ line_count (o || busy p) s
unfolding decode_from line_count
line_count-decode_from o p [] h = rw (append-nil (flush p)) at (line_count-flush o p [])
line_count-decode_from o p (b ∷ s) h = elim (Bool-cases (b == 10)) [
  | inl e ↦
      rw
        (
          (==_iff b 10).0 e,
          byte_step_feed p h,
          append_assoc (flush p) (10 ∷ []) (decode_from idle s),
          line_count-flush o p (10 ∷ decode_from idle s),
        )
        (ap suc (line_count-decode_from false idle s tt))
  | inr e ↦
      let kept = byte_step-Kept p b h e in
      rw
        (
          e,
          line_count-kept o (byte_step p b).0 (decode_from (byte_step p b).1 s) kept.0,
          line_count-decode_from (o || not (is_empty (byte_step p b).0)) (byte_step p b).1 s
              (byte_step-IsPartial p b h),
        )
        (ap (λ t. line_count t s) (ground (arith, kept.1)))
]

pub length-lines_lossy : (s : Str) → length (lines (from_utf8_lossy s)) ≡ line_count false s
unfolding lines from_utf8_lossy
length-lines_lossy s =
    length-lines_from [] (decode_from idle s) ∙ line_count-decode_from false idle s tt
