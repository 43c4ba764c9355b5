-- ===== src/Cli/Logs/Tail.antt =====
-- What `tail_lines` of crates/cli/src/logs.rs returns.
pub mod Whole
use mathlib.Core.List.{reverse_aux-eq, reverse_aux, reverse-reverse}
use neals.Prelude.{
  subst, ℕ, suc, zero, ◌+◌, ◌-◌, ◌≤◌, min, Bool, true, false, Option, none, some, List, [], ◌∷◌,
  ◌++◌, reverse, append_assoc, ◌≡◌, refl, sym, ap, ◌∙◌, ◌⊎◌, inl, inr, arith,
}
use neals.Prelude.Bools.{take_both, ==_iff, ◌==◌, ltb, leb, if◌then◌else◌, Bool-cases}
use neals.Prelude.Lists.{length, take, drop}
use neals.Prelude.Text.{Str}
use neals.Cli.Logs.{scan_block, tail_loop, concat, tail_block}

-- How many line feeds a text has.
abbrev pub feeds : Str → ℕ
feeds [] = 0
feeds (c ∷ s) = if c == 10 then suc (feeds s) else feeds s

pub feeds-append : (s t : Str) → feeds (s ++ t) ≡ feeds s + feeds t
feeds-append [] t = omega arith
feeds-append (c ∷ s) t = ground (arith, feeds-append s t)

-- What a scan says of a block, in front of bytes that were kept with `base` line feeds.
abbrev Scanned : ℕ → ℕ → Str → Option Str × ℕ → Type 0
Scanned threshold base block (none, seen) = (seen ≡ base + feeds block) × (seen ≤ threshold)
Scanned threshold base block (some part, seen) =
    (front : Str) × (block ≡ front ++ 10 ∷ part) × (base + feeds part ≡ threshold)

scan_block-Scanned :
    (threshold base count : ℕ) (after before : Str)
    → count ≡ base + feeds after
    → count ≤ threshold
    → Scanned threshold base (reverse_aux before after) (scan_block threshold count after before)
unfolding scan_block
scan_block-Scanned threshold base count after [] h le = (h, le)
scan_block-Scanned threshold base count after (b ∷ before) h le = elim (Bool-cases (b == 10)) [
  | inl e ↦ rw e (
      take_both (Scanned threshold base (reverse_aux before (b ∷ after)))
        (ltb threshold (suc count)) _ _
        (λ over. (
          reverse before,
          reverse_aux-eq before (b ∷ after) ∙ rw ((==_iff b 10).0 e) refl,
          ground arith,
        ))
        λ under.
          scan_block-Scanned threshold base (suc count) (b ∷ after) before (ground arith)
            (ground arith))
  | inr e ↦ rw e (scan_block-Scanned threshold base count (b ∷ after) before (ground arith) le)
]

pub take-drop_append : (k m n : ℕ) (s : Str) → n ≡ m + k → take k (drop m s) ++ drop n s ≡ drop m s
take-drop_append zero m n s h = ap (λ l. drop l s) (omega arith)
take-drop_append (suc k) zero zero s h = absurd (omega arith)
take-drop_append (suc k) zero (suc n) [] h = refl
take-drop_append (suc k) zero (suc n) (c ∷ s) h =
    ap (λ t. c ∷ t) (take-drop_append k zero n s (omega arith))
take-drop_append (suc k) (suc m) zero s h = absurd (omega arith)
take-drop_append (suc k) (suc m) (suc n) [] h = refl
take-drop_append (suc k) (suc m) (suc n) (c ∷ s) h = take-drop_append (suc k) m n s (omega arith)

pub take_append-drop : (m : ℕ) (s : Str) → take m s ++ drop m s ≡ s
take_append-drop m s = take-drop_append m zero m s (omega arith)

-- The end of a file that is kept: all of it, or what follows some line feed.
abbrev pub Tail : ℕ → Str → Str → Type 0
Tail threshold file kept =
    ((kept ≡ file) × (feeds file ≤ threshold))
    ⊎ ((front : Str) × (file ≡ front ++ 10 ∷ kept) × (feeds kept ≡ threshold))

-- One round: the block is read, and the rest of the loop runs where it is not cut.
round-Tail :
    (file : Str) (threshold at count : ℕ) (block : Str) (blocks : List Str) (rest : ℕ → List Str)
    (r : Option Str × ℕ)
    → Scanned threshold count block r
    → block ++ concat blocks ≡ drop at file
    → count ≡ feeds (concat blocks)
    → ((seen : ℕ)
        → seen ≡ count + feeds block
        → seen ≤ threshold
        → Tail threshold file (concat (rest seen)))
    → Tail threshold file (concat (elim r.0 [ some part ↦ part ∷ blocks | none ↦ rest r.1 ]))
unfolding concat
round-Tail file threshold at count block blocks rest (none, seen) h d k on = on seen h.0 h.1
round-Tail file threshold at count block blocks rest (some part, seen) h d k on =
    let (front, split, total) = h in
    inr (
      take at file ++ front,
      sym (take_append-drop at file)
          ∙ rw (sym d, split, append_assoc front (10 ∷ part) (concat blocks))
              (sym (append_assoc (take at file) front (10 ∷ part ++ concat blocks))),
      omega (arith, feeds-append part (concat blocks)),
    )

all_kept :
    (file : Str) (threshold pos count : ℕ) (kept : Str)
    → pos ≤ 0
    → kept ≡ drop pos file
    → count ≡ feeds kept
    → count ≤ threshold
    → Tail threshold file kept
all_kept file threshold pos count kept z c k t =
    inl (same, subst (λ s. feeds s ≤ threshold) same (omega arith))
  where
    same : kept ≡ file
    same = c ∙ ap (λ n. drop n file) {y = 0} (omega arith)

pub tail_loop-Tail :
    (fuel : ℕ) (file : Str) (threshold pos count : ℕ) (blocks : List Str)
    → pos ≤ fuel
    → pos ≤ length file
    → concat blocks ≡ drop pos file
    → count ≡ feeds (concat blocks)
    → count ≤ threshold
    → Tail threshold file (concat (tail_loop fuel file threshold pos count blocks))
unfolding tail_loop concat
tail_loop-Tail zero file threshold pos count blocks f l c k t =
    all_kept file threshold pos count (concat blocks) f c k t
tail_loop-Tail (suc fuel) file threshold pos count blocks f l c k t =
    elim (Bool-cases (ltb 0 pos)) [
      | inl more ↦
          let size = min pos tail_block in
          let block = take size (drop (pos - size) file) in
          let joins : block ++ concat blocks ≡ drop (pos - size) file =
            rw c (take-drop_append size (pos - size) pos file (omega arith)) in
          let scanned : Scanned threshold count block
              (scan_block threshold count [] (reverse block)) =
            subst (λ b. Scanned threshold count b (scan_block threshold count [] (reverse block)))
              (reverse-reverse block)
              (scan_block-Scanned threshold count count [] (reverse block) (omega arith) t) in
          rw (more, under)
            (round-Tail file threshold (pos - size) count block blocks
              (λ seen. tail_loop fuel file threshold (pos - size) seen (block ∷ blocks))
              (scan_block threshold count [] (reverse block)) scanned joins k
              λ seen e le.
                tail_loop-Tail fuel file threshold (pos - size) seen (block ∷ blocks) (omega arith)
                  (omega arith) joins (omega (arith, e, feeds-append block (concat blocks))) le)
      | inr done ↦ rw done (all_kept file threshold pos count (concat blocks) (ground arith) c k t)
    ]
  where
    under : leb count threshold ≡ true
    under = ground arith
