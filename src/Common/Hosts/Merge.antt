-- ===== src/Common/Hosts/Merge.antt =====
-- The lines that `merge_hosts_file` of crates/common/src/hosts.rs keeps and adds.
use neals.Prelude.{
  append-nil, ℕ, ◌≡◌, refl, ap, sym, ◌∙◌, inl, inr, Bool, true, false, List, [], ◌∷◌, ◌++◌, arith,
  append_assoc,
}
use neals.Prelude.Bools.{Bool-cases}
use neals.Prelude.Lists.{All, All-append, List-cases}
use neals.Prelude.Text.{
  codes, trim_start, Str, str_eq, trim, trim_end, is_empty, unlines, contains, starts_with,
  contains_char, is_space,
}
use neals.Prelude.Text.Trim.{
  trim_end-trim_end, trim_end-trim_end, Lacks, trim_end-Lacks, trim-trim_end, trim_end-append,
  trim_end-cons, trim_end-append_blank, trim_head,
}
use neals.Prelude.Text.Lines.{lines-IsPlain, lines-unlines, IsPlain, unlines-append}
use neals.Common.Hosts.{
  lines, strip_neals_block, merge_hosts_file, begin_marker, end_marker, keeps, skips_after,
  strip_lines, closed, is_block,
}

-- A line of its own, and no marker.
pub record IsClean (l : Str) : Type 0 where
  pub plain : IsPlain l
  pub no_begin : str_eq (trim l) begin_marker ≡ false
  pub no_end : str_eq (trim l) end_marker ≡ false

strip_lines-IsClean : (b : Bool) (ls : List Str) → All IsPlain ls → All IsClean (strip_lines b ls)
unfolding strip_lines
strip_lines-IsClean b [] h = tt
strip_lines-IsClean b (l ∷ ls) h =
    let rest = strip_lines-IsClean (skips_after l b) ls h.1 in
    elim (Bool-cases (keeps l b)) [
      | inl e ↦
          rw e
            (record { plain = h.0; no_begin = ground (arith, e); no_end = ground (arith, e) }, rest)
      | inr e ↦ rw e rest
    ]

trim_end-IsClean : (l : Str) → IsClean l → IsClean (trim_end l)
trim_end-IsClean l h = record {
  plain = (trim_end-Lacks 10 l h.plain.0, trim_end-Lacks 13 l h.plain.1);
  no_begin = rw (trim-trim_end l) h.no_begin;
  no_end = rw (trim-trim_end l) h.no_end;
}

closed_full : (s : Str) → is_empty s ≡ false → closed s ≡ s ++ 10 ∷ []
closed_full s h = rw h refl

middle_full : (s : Str) (c : ℕ) (t : Str) → is_empty (s ++ c ∷ t) ≡ false
middle_full [] c t = refl
middle_full (d ∷ s) c t = refl

-- A line in front of a text that is not blank.
closed_line :
    (l s t : Str)
    → is_empty (trim_end s) ≡ false
    → closed (trim_end s) ≡ t
    → closed (trim_end (l ++ 10 ∷ s)) ≡ l ++ 10 ∷ t
closed_line l s t full e =
    let step = trim_end-cons 10 s full in
    let split = trim_end-append l (10 ∷ s) (ap is_empty step) ∙ ap (λ u. l ++ u) step in
    ap closed split
    ∙ closed_full (l ++ 10 ∷ trim_end s) (middle_full l 10 (trim_end s))
    ∙ append_assoc l (10 ∷ trim_end s) (10 ∷ [])
    ∙ ap (λ u. l ++ 10 ∷ u) (sym (closed_full (trim_end s) full) ∙ e)

-- The text that is left in front of a block is again made of clean lines.
trimmed_lines :
    (ls : List Str)
    → All IsClean ls
    → (ks : List Str) × All IsClean ks × (closed (trim_end (unlines ls)) ≡ unlines ks)
unfolding unlines trim_end
trimmed_lines [] h = ([], tt, refl)
trimmed_lines (l ∷ ls) h =
    let (ks, clean, e) = trimmed_lines ls h.1 in
    elim (List-cases (trim_end (unlines ls))) [
      | inl blank ↦
          rw (trim_end-append_blank l (10 ∷ unlines ls) (rw (blank, trim_end) refl))
            (elim (List-cases (trim_end l)) [
              | inl none_left ↦ ([], tt, rw none_left refl)
              | inr (c, s, some_left) ↦
                  (trim_end l ∷ [], (trim_end-IsClean l h.0, tt), rw some_left refl)
            ])
      | inr (c, s, more) ↦
          (l ∷ ks, (h.0, clean), closed_line l (unlines ls) (unlines ks) (ap is_empty more) e)
    ]

strip_lines-clean :
    (ks ls : List Str) → All IsClean ks → strip_lines false (ks ++ ls) ≡ ks ++ strip_lines false ls
unfolding strip_lines
strip_lines-clean [] ls h = refl
strip_lines-clean (k ∷ ks) ls h =
    rw (h.0.no_begin, h.0.no_end) (ap (λ rs. k ∷ rs) (strip_lines-clean ks ls h.1))

-- The lines of a block: markers around clean lines.
abbrev pub block_lines : List Str → List Str
block_lines body = begin_marker ∷ (body ++ end_marker ∷ [])

strip_lines-body :
    (body : List Str) → All IsClean body → strip_lines true (body ++ end_marker ∷ []) ≡ []
unfolding strip_lines trim trim_start trim_end is_space str_eq
strip_lines-body [] h = refl
strip_lines-body (l ∷ ls) h = rw (h.0.no_begin, h.0.no_end) (strip_lines-body ls h.1)

strip_lines-block :
    (body : List Str) → All IsClean body → strip_lines false ([] ∷ block_lines body) ≡ [] ∷ []
unfolding strip_lines trim trim_start trim_end is_space str_eq
strip_lines-block body h = ap (λ rs. [] ∷ rs) (strip_lines-body body h)

all-IsPlain : (ls : List Str) → All IsClean ls → All IsPlain ls
all-IsPlain [] h = tt
all-IsPlain (l ∷ ls) h = (h.0.plain, all-IsPlain ls h.1)

block_lines-IsPlain : (body : List Str) → All IsClean body → All IsPlain (block_lines body)
unfolding contains_char
block_lines-IsPlain body h = (
  (refl, refl),
  All-append IsPlain body (end_marker ∷ []) (all-IsPlain body h) ((refl, refl), tt),
)

unlines-end :
    (ls : List Str)
    → trim_end (unlines (ls ++ end_marker ∷ [])) ++ 10 ∷ [] ≡ unlines (ls ++ end_marker ∷ [])
unfolding trim_end is_space unlines
unlines-end ls =
    let tail = unlines (end_marker ∷ []) in
    rw (unlines-append ls (end_marker ∷ [])) (
      ap (λ u. u ++ 10 ∷ []) (trim_end-append (unlines ls) tail refl)
      ∙ append_assoc (unlines ls) end_marker (10 ∷ []))

is_block_lem : (body : List Str) → is_block (unlines (block_lines body)) ≡ true
unfolding unlines contains starts_with is_space
is_block_lem body =
    let (t, e) =
      trim_head 35 (codes " BEGIN neals" ++ 10 ∷ unlines (body ++ end_marker ∷ [])) refl in
    rw e refl

merge_block :
    (existing : Str) (ks body : List Str)
    → All IsClean body
    → closed (trim_end (strip_neals_block existing)) ≡ unlines ks
    → merge_hosts_file existing (unlines (block_lines body)) ≡ unlines (ks ++ [] ∷ block_lines body)
unfolding merge_hosts_file unlines
merge_block existing ks body h e =
    rw (is_block_lem body, e)
      (ap (λ u. unlines ks ++ 10 ∷ u) (unlines-end (begin_marker ∷ body))
        ∙ sym (unlines-append ks ([] ∷ block_lines body)))

blank_line : (ks : List Str) → trim_end (unlines (ks ++ [] ∷ [])) ≡ trim_end (unlines ks)
unfolding unlines trim_end is_space
blank_line ks =
    ap trim_end (unlines-append ks ([] ∷ [])) ∙ trim_end-append_blank (unlines ks) (10 ∷ []) refl

trim_end-closed : (s : Str) → trim_end (closed s) ≡ trim_end s
unfolding trim_end is_space
trim_end-closed [] = refl
trim_end-closed (c ∷ s) = trim_end-append_blank (c ∷ s) (10 ∷ []) refl

-- What a second merge sees of a file with a block is what the first saw.
strip-block :
    (ks body : List Str)
    → All IsClean ks
    → All IsClean body
    → strip_neals_block (unlines (ks ++ [] ∷ block_lines body)) ≡ unlines (ks ++ [] ∷ [])
unfolding strip_neals_block contains_char
strip-block ks body clean h =
    ap (λ ls. unlines (strip_lines false ls))
      (lines-unlines (ks ++ [] ∷ block_lines body) (
        All-append IsPlain ks ([] ∷ block_lines body) (all-IsPlain ks clean)
          ((refl, refl), block_lines-IsPlain body h)))
    ∙ ap unlines (
        strip_lines-clean ks ([] ∷ block_lines body) clean
        ∙ ap (λ ls. ks ++ ls) (strip_lines-block body h))

-- The trimmed rest of the file is the same after a merge of a block.
pub rest_kept :
    (existing : Str) (body : List Str)
    → Lacks 13 existing
    → All IsClean body
    → trim_end (strip_neals_block (merge_hosts_file existing (unlines (block_lines body))))
      ≡ trim_end (strip_neals_block existing)
rest_kept existing body plain h =
    let kept = strip_lines false (lines existing) in
    let (ks, clean, e) =
      trimmed_lines kept
        (strip_lines-IsClean false (lines existing) (lines-IsPlain existing plain)) in
    ap (λ t. trim_end (strip_neals_block t))
      (merge_block existing ks body h (unfold strip_neals_block in e))
    ∙ ap trim_end (strip-block ks body clean h)
    ∙ blank_line ks
    ∙ ap trim_end (sym e)
    ∙ trim_end-closed (trim_end (unlines kept))
    ∙ trim_end-trim_end (unlines kept)
    ∙ (unfold strip_neals_block in refl)

pub rest_kept_empty :
    (existing : Str)
    → Lacks 13 existing
    → trim_end (strip_neals_block (merge_hosts_file existing []))
      ≡ trim_end (strip_neals_block existing)
unfolding merge_hosts_file strip_neals_block trim trim_end
rest_kept_empty existing plain =
    let kept = strip_lines false (lines existing) in
    let (ks, clean, e) =
      trimmed_lines kept
        (strip_lines-IsClean false (lines existing) (lines-IsPlain existing plain)) in
    ap (λ t. trim_end (strip_neals_block t)) e
    ∙ ap (λ ls. trim_end (unlines (strip_lines false ls))) (lines-unlines ks (all-IsPlain ks clean))
    ∙ ap (λ ls. trim_end (unlines (strip_lines false ls))) (sym (append-nil ks))
    ∙ ap (λ ls. trim_end (unlines ls)) (strip_lines-clean ks [] clean)
    ∙ ap (λ ls. trim_end (unlines ls)) (append-nil ks)
    ∙ ap trim_end (sym e)
    ∙ trim_end-closed (trim_end (unlines kept))
    ∙ trim_end-trim_end (unlines kept)
