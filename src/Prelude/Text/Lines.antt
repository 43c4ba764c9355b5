-- ===== src/Prelude/Text/Lines.antt =====
-- `str::lines` of a text that is written line by line.
use neals.Prelude.{
  inr, inl, inr, inl, append_assoc, subst, append-nil, ◌≡◌, refl, ℕ, false, List, [], ◌∷◌, ◌++◌,
  arith, ◌∙◌, sym, ap,
}
use neals.Prelude.Bools.{Bool-cases, ◌==◌, if◌then◌else◌}
use neals.Prelude.Lists.{All}
use neals.Prelude.Text.{Str, strip_cr, lines_from, lines, is_empty, contains_char, unlines}
use neals.Prelude.Text.Trim.{contains_char-append, Lacks}

strip_cr-same : (s : Str) → Lacks 13 s → strip_cr s ≡ s
unfolding strip_cr contains_char
strip_cr-same [] h = refl
strip_cr-same (c ∷ []) h = ground arith
strip_cr-same (c ∷ d ∷ s) h = ap (λ t. c ∷ t) (strip_cr-same (d ∷ s) (ground arith))

pub lines_from-char :
    (cur : Str) (c : ℕ) (s : Str)
    → lines_from cur (c ∷ s)
      ≡ (if c == 10 then strip_cr cur ∷ lines_from [] s else lines_from (cur ++ c ∷ []) s)
unfolding lines_from
lines_from-char [] c s = refl
lines_from-char (k ∷ cur) c s = refl

pub append_snoc : (cur : Str) (c : ℕ) (s : Str) → (cur ++ c ∷ []) ++ s ≡ cur ++ c ∷ s
append_snoc [] c s = refl
append_snoc (k ∷ cur) c s = ap (λ t. k ∷ t) (append_snoc cur c s)

lines_from-line :
    (cur l rest : Str)
    → Lacks 10 l
    → lines_from cur (l ++ 10 ∷ rest) ≡ strip_cr (cur ++ l) ∷ lines_from [] rest
unfolding contains_char
lines_from-line cur [] rest h =
    lines_from-char cur 10 rest ∙ ap (λ t. strip_cr t ∷ lines_from [] rest) (sym (append-nil cur))
lines_from-line cur (c ∷ l) rest h =
    lines_from-char cur c (l ++ 10 ∷ rest)
    ∙ rw (other) (
        lines_from-line (cur ++ c ∷ []) l rest (ground arith)
        ∙ ap (λ t. strip_cr t ∷ lines_from [] rest) (append_snoc cur c l))
  where
    other : (c == 10) ≡ false
    other = ground arith

-- Neither a line feed nor a carriage return.
abbrev pub IsPlain : Str → Type 0
IsPlain l = Lacks 10 l × Lacks 13 l

pub lines-line : (l rest : Str) → IsPlain l → lines (l ++ 10 ∷ rest) ≡ l ∷ lines rest
unfolding lines
lines-line l rest h =
    lines_from-line [] l rest h.0 ∙ ap (λ t. t ∷ lines_from [] rest) (strip_cr-same l h.1)

pub lines-unlines : (ls : List Str) → All IsPlain ls → lines (unlines ls) ≡ ls
unfolding unlines lines lines_from
lines-unlines [] h = refl
lines-unlines (l ∷ ls) h = lines-line l (unlines ls) h.0 ∙ ap (λ t. l ∷ t) (lines-unlines ls h.1)

lines_from-last :
    (cur l : Str)
    → Lacks 10 l
    → lines_from cur l ≡ (if is_empty (cur ++ l) then [] else (cur ++ l) ∷ [])
unfolding contains_char lines_from
lines_from-last [] [] h = refl
lines_from-last (k ∷ cur) [] h = ap (λ t. (k ∷ t) ∷ []) (sym (append-nil cur))
lines_from-last cur (c ∷ l) h =
    lines_from-char cur c l
    ∙ rw other (lines_from-last (cur ++ c ∷ []) l (ground arith) ∙ rw (append_snoc cur c l) refl)
  where
    other : (c == 10) ≡ false
    other = ground arith

pub lines-last : (l : Str) → Lacks 10 l → lines l ≡ (if is_empty l then [] else l ∷ [])
unfolding lines
lines-last l h = lines_from-last [] l h

snoc-IsPlain :
    (cur : Str) (c : ℕ)
    → IsPlain cur
    → (c == 10) ≡ false
    → (c == 13) ≡ false
    → IsPlain (cur ++ c ∷ [])
unfolding contains_char
snoc-IsPlain cur c h x y = (
  ground (arith, contains_char-append cur (c ∷ []) 10, h.0),
  ground (arith, contains_char-append cur (c ∷ []) 13, h.1),
)

lines_from-IsPlain : (cur s : Str) → IsPlain cur → Lacks 13 s → All IsPlain (lines_from cur s)
unfolding contains_char lines_from
lines_from-IsPlain [] [] h k = tt
lines_from-IsPlain (c ∷ cur) [] h k = (h, tt)
lines_from-IsPlain cur (c ∷ s) h k =
    subst (All IsPlain) (sym (lines_from-char cur c s)) (elim (Bool-cases (c == 10)) [
      | inl e ↦
          rw (e, strip_cr-same cur h.1) (h, lines_from-IsPlain [] s (refl, refl) (ground arith))
      | inr e ↦ rw e (
          lines_from-IsPlain (cur ++ c ∷ []) s (snoc-IsPlain cur c h e (ground arith))
            (ground arith))
    ])

pub lines-IsPlain : (s : Str) → Lacks 13 s → All IsPlain (lines s)
unfolding lines contains_char
lines-IsPlain s h = lines_from-IsPlain [] s (refl, refl) h

pub unlines-Lacks : (ls : List Str) → All IsPlain ls → Lacks 13 (unlines ls)
unfolding unlines contains_char
unlines-Lacks [] h = refl
unlines-Lacks (l ∷ ls) h =
    contains_char-append l (10 ∷ unlines ls) 13 ∙ rw (h.0.1, unlines-Lacks ls h.1) refl

pub unlines-append : (ks ls : List Str) → unlines (ks ++ ls) ≡ unlines ks ++ unlines ls
unfolding unlines
unlines-append [] ls = refl
unlines-append (k ∷ ks) ls =
    ap (λ t. k ++ 10 ∷ t) (unlines-append ks ls)
    ∙ sym (append_assoc k (10 ∷ unlines ks) (unlines ls))
