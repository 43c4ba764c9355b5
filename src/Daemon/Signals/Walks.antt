-- ===== src/Daemon/Signals/Walks.antt =====
-- One round of `collect_descendants` of crates/daemon/src/state.rs.
use neals.Prelude.{
  ℕ, ◌+◌, ◌<◌, true, false, ◌||◌, Option, List, [], ◌∷◌, ◌++◌, ◌≡◌, ◌⊎◌, inl, inr, refl, subst,
  arith,
}
use neals.Prelude.Bools.{◌==◌, Bool-cases, ==_iff}
use neals.Prelude.Lists.{All, length, any, any-append}
use neals.Prelude.Text.{Str}
use neals.Daemon.Signals.{Walk, visit, children_of}
use neals.Daemon.Signals.Members.{member, AreDistinct, unseen, unseen-cons, snoc-AreDistinct}

-- A descendant is a child, by what could be read, of the root or of another descendant.
pub data Descends (children : ℕ → Option Str) (root : ℕ) : ℕ → Type 0 where
  self : Descends children root root
  child :
      {p c : ℕ}
      → Descends children root p
      → member c (children_of children p) ≡ true
      → Descends children root c

module _ (children : ℕ → Option Str) (root : ℕ) where
  -- What holds of the walk before each round, but for the pids that are open.
  pub record IsWalk (bound : ℕ) (w : Walk) : Type 0 where
    pub small : All (λ p. p < bound) w.seen
    pub sound : All (Descends children root) w.seen
    pub same : (x : ℕ) → member x w.seen ≡ (root == x || member x w.descendants)
    pub fresh : member root w.descendants ≡ false
    pub distinct : AreDistinct w.descendants
    pub within : (x : ℕ) → member x w.queue ≡ true → member x w.seen ≡ true

  abbrev pub IsOpen : Walk → ℕ → Type 0
  IsOpen w p =
      (member p w.queue ≡ true)
      ⊎ ((c : ℕ) → member c (children_of children p) ≡ true → member c w.seen ≡ true)

  pub record Visited (bound : ℕ) (w v : Walk) (cs : List ℕ) : Type 0 where
    pub kept : IsWalk bound v
    pub more : (x : ℕ) → member x w.seen ≡ true → member x v.seen ≡ true
    pub queued : (x : ℕ) → member x w.queue ≡ true → member x v.queue ≡ true
    pub taken : (x : ℕ) → member x cs ≡ true → member x v.seen ≡ true
    pub added :
        (x : ℕ) → member x v.seen ≡ true → (member x w.seen ≡ true) ⊎ (member x v.queue ≡ true)
    pub counted : length v.queue + unseen bound v.seen ≡ length w.queue + unseen bound w.seen

  with_child : Walk → ℕ → Walk
  with_child w c = record {
    seen = c ∷ w.seen;
    queue = c ∷ w.queue;
    descendants = w.descendants ++ c ∷ [];
  }

  with_child-IsWalk :
      (bound : ℕ) (w : Walk) (c : ℕ)
      → IsWalk bound w
      → c < bound
      → Descends children root c
      → member c w.seen ≡ false
      → IsWalk bound (with_child w c)
  unfolding with_child any
  with_child-IsWalk bound w c i b d new = record {
    small = (b, i.small);
    sound = (d, i.sound);
    same = λ x. ground (arith, i.same x, any-append (λ p. p == x) w.descendants (c ∷ []));
    fresh =
        ground (arith, i.same c, i.fresh, any-append (λ p. p == root) w.descendants (c ∷ []), new);
    distinct = snoc-AreDistinct w.descendants c i.distinct (ground (arith, i.same c, new));
    within = λ x h. ground (arith, h, i.within x);
  }

  old-Visited :
      (bound : ℕ) (w v : Walk) (c : ℕ) (cs : List ℕ)
      → member c w.seen ≡ true
      → Visited bound w v cs
      → Visited bound w v (c ∷ cs)
  unfolding any
  old-Visited bound w v c cs old r = record {
    kept = r.kept;
    more = r.more;
    queued = r.queued;
    added = r.added;
    counted = r.counted;
    taken = λ x h. elim (Bool-cases (c == x)) [
      | inl e ↦ r.more x (subst (λ y. member y w.seen ≡ true) ((==_iff c x).0 e) old)
      | inr e ↦ r.taken x (ground (arith, h, e))
    ];
  }

  new-Visited :
      (bound : ℕ) (w v : Walk) (c : ℕ) (cs : List ℕ)
      → c < bound
      → member c w.seen ≡ false
      → Visited bound (with_child w c) v cs
      → Visited bound w v (c ∷ cs)
  unfolding any with_child
  new-Visited bound w v c cs b new r = record {
    kept = r.kept;
    more = λ x h. r.more x (ground (arith, h));
    queued = λ x h. r.queued x (ground (arith, h));
    taken = λ x h. elim (Bool-cases (c == x)) [
      | inl e ↦ r.more x (ground (arith, e))
      | inr e ↦ r.taken x (ground (arith, h, e))
    ];
    added = λ x h. elim (r.added x h) [
      | inr q ↦ inr q
      | inl s ↦ elim (Bool-cases (c == x)) [
        | inl e ↦ inr (r.queued x (ground (arith, e)))
        | inr e ↦ inl (ground (arith, s, e))
      ]
    ];
    counted = omega (arith, r.counted, unseen-cons bound c w.seen b new);
  }

  pub visit-Visited :
      (bound : ℕ) (w : Walk) (cs : List ℕ)
      → IsWalk bound w
      → All (λ c. c < bound) cs
      → All (Descends children root) cs
      → Visited bound w (visit w cs) cs
  unfolding visit any with_child
  visit-Visited bound w [] i b d = record {
    kept = i;
    more = λ x h. h;
    queued = λ x h. h;
    taken = λ x h. absurd (ground (arith, h));
    added = λ x h. inl h;
    counted = refl;
  }
  visit-Visited bound w (c ∷ cs) i b d = elim (Bool-cases (any (λ p. p == c) w.seen)) [
    | inl old ↦
        rw old (old-Visited bound w (visit w cs) c cs old (visit-Visited bound w cs i b.1 d.1))
    | inr new ↦ rw new (
        new-Visited bound w (visit (with_child w c) cs) c cs b.0 new (
          visit-Visited bound (with_child w c) cs (with_child-IsWalk bound w c i b.0 d.0 new) b.1
            d.1))
  ]
