-- ===== src/Cli/Logs/Follower/Drained.antt =====
-- What the rounds of a followed log print, `LogFollower` of crates/cli/src/logs.rs.
use neals.Prelude.{
  inl, inr, ℕ, false, [], ◌∷◌, ◌++◌, append_assoc, append-nil, ◌≡◌, refl, sym, ap, ◌∙◌, arith,
}
use neals.Prelude.Bools.{==_iff, ◌==◌, Bool-cases}
use neals.Prelude.Text.{Str, contains_char, unlines}
use neals.Prelude.Text.Trim.{contains_char-append, Lacks}
use neals.Prelude.Text.Lines.{append_snoc}
use neals.Cli.Logs.Follower.{drain_from, trim_returns}

snoc-Lacks : (cur : Str) (c k : ℕ) → Lacks k cur → (c == k) ≡ false → Lacks k (cur ++ c ∷ [])
unfolding contains_char
snoc-Lacks cur c k h e = ground (arith, contains_char-append cur (c ∷ []) k)

-- What is left open holds no line feed.
pub drain_from-Lacks : (cur s : Str) → Lacks 10 cur → Lacks 10 (drain_from cur s).1
unfolding drain_from contains_char
drain_from-Lacks cur [] h = h
drain_from-Lacks cur (c ∷ s) h = elim (Bool-cases (c == 10)) [
  | inl e ↦ rw e (drain_from-Lacks [] s refl)
  | inr e ↦ rw e (drain_from-Lacks (cur ++ c ∷ []) s (snoc-Lacks cur c 10 h e))
]

pub drain_from-open :
    (cur s t : Str) → Lacks 10 s → drain_from cur (s ++ t) ≡ drain_from (cur ++ s) t
unfolding drain_from contains_char
drain_from-open cur [] t h = ap (λ u. drain_from u t) (sym (append-nil cur))
drain_from-open cur (c ∷ s) t h = rw (feed) (
    drain_from-open (cur ++ c ∷ []) s t (ground arith)
    ∙ ap (λ u. drain_from u t) (append_snoc cur c s))
  where
    feed : (c == 10) ≡ false
    feed = ground arith

-- The text may come in parts.
pub drain_from-append :
    (cur s t : Str)
    → drain_from cur (s ++ t) ≡ (
      (drain_from cur s).0 ++ (drain_from (drain_from cur s).1 t).0,
      (drain_from (drain_from cur s).1 t).1,
    )
unfolding drain_from
drain_from-append cur [] t = refl
drain_from-append cur (c ∷ s) t = elim (Bool-cases (c == 10)) [
  | inl e ↦ rw e (ap (λ r. (trim_returns cur ∷ r.0, r.1)) (drain_from-append [] s t))
  | inr e ↦ rw e (drain_from-append (cur ++ c ∷ []) s t)
]

trim_returns-same : (s : Str) → Lacks 13 s → trim_returns s ≡ s
unfolding trim_returns contains_char
trim_returns-same [] h = refl
trim_returns-same (c ∷ []) h = ground arith
trim_returns-same (c ∷ d ∷ s) h = rw (trim_returns-same (d ∷ s) (ground arith)) refl

-- Without carriage returns the lines and what is open are the text.
pub unlines-drain_from :
    (cur s : Str)
    → Lacks 13 cur
    → Lacks 13 s
    → unlines (drain_from cur s).0 ++ (drain_from cur s).1 ≡ cur ++ s
unfolding drain_from contains_char unlines
unlines-drain_from cur [] h k = sym (append-nil cur)
unlines-drain_from cur (c ∷ s) h k = elim (Bool-cases (c == 10)) [
  | inl e ↦
      rw (e, trim_returns-same cur h)
        (append_assoc cur (10 ∷ unlines (drain_from [] s).0) (drain_from [] s).1
          ∙ ap (λ t. cur ++ t)
              (ap (λ t. 10 ∷ t) (unlines-drain_from [] s refl (ground arith))
                ∙ ap (λ b. b ∷ s) (sym ((==_iff c 10).0 e))))
  | inr e ↦ rw e (
      unlines-drain_from (cur ++ c ∷ []) s (snoc-Lacks cur c 13 h (ground arith)) (ground arith)
      ∙ append_snoc cur c s)
]
