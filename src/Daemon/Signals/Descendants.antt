-- ===== src/Daemon/Signals/Descendants.antt =====
-- What `collect_descendants` of crates/daemon/src/state.rs collects.
use neals.Prelude.{
  ◌-◌, ◌↔◌, sym, ◌∙◌, ℕ, zero, suc, ◌+◌, ◌^◌, ◌≤◌, ◌<◌, true, false, ◌||◌, Option, List, [], ◌∷◌,
  ◌≡◌, inl, inr, refl, ap, subst, arith,
}
use neals.Prelude.Bools.{==_refl, Option-cases, ◌==◌, Bool-cases, ==_iff}
use neals.Prelude.Lists.{List-cases, All, length, any}
use neals.Prelude.Text.{Str}
use neals.Prelude.Decimal.{parse_unsigned, parse_unsigned_le}
use neals.Daemon.Commands.{split_whitespace}
use neals.Daemon.Signals.Members.{member, AreDistinct, unseen, unseen_le, All_of, All_at}
use neals.Daemon.Signals.Walks.{Descends, self, child, IsWalk, IsOpen, Visited, visit-Visited}
use neals.Daemon.Signals.{some, collect_descendants, walk, pids_of, Walk, visit, children_of}

parsed_small : (s : Str) (n : ℕ) → parse_unsigned (2 ^ 32 - 1) s ≡ some n → n < 2 ^ 32
parsed_small s n h = omega (arith, parse_unsigned_le (2 ^ 32 - 1) s n h)

pids_of_small : (ts : List Str) → All (λ c. c < 2 ^ 32) (pids_of ts)
unfolding pids_of
pids_of_small [] = tt
pids_of_small (t ∷ ts) = elim (Option-cases (parse_unsigned (2 ^ 32 - 1) t)) [
  | inl e ↦ rw (pids_of, e) (pids_of_small ts)
  | inr (n, e) ↦ rw (pids_of, e) (parsed_small t n e, pids_of_small ts)
]

children_of_small :
    (children : ℕ → Option Str) (p : ℕ) → All (λ c. c < 2 ^ 32) (children_of children p)
unfolding children_of
children_of_small children p = elim (Option-cases (children p)) [
  | inl e ↦ rw (children_of, e) tt
  | inr (raw, e) ↦ rw (children_of, e) (pids_of_small (split_whitespace raw))
]

module _ (children : ℕ → Option Str) (root : ℕ) where
  -- The walk at its end: nothing that was seen has a child that was not.
  record Done (bound : ℕ) (ds : List ℕ) : Type 0 where
    last : Walk
    ended : ds ≡ last.descendants
    right : IsWalk children root bound last
    closed :
        (p c : ℕ)
        → member p last.seen ≡ true
        → member c (children_of children p) ≡ true
        → member c last.seen ≡ true

  empty-Done :
      (bound : ℕ) (w : Walk)
      → IsWalk children root bound w
      → ((p : ℕ) → member p w.seen ≡ true → IsOpen children root w p)
      → w.queue ≡ []
      → Done bound w.descendants
  unfolding any
  empty-Done bound w i o e = record {
    last = w;
    ended = refl;
    right = i;
    closed = λ p c h k. elim (o p h) [
      | inl q ↦ absurd (ground (arith, ap (member p) e, q))
      | inr f ↦ f c k
    ];
  }

  popped : Walk → List ℕ → Walk
  popped w queue = record w { queue = queue }

  popped-IsWalk :
      (bound : ℕ) (w : Walk) (pid : ℕ) (queue : List ℕ)
      → w.queue ≡ pid ∷ queue
      → IsWalk children root bound w
      → IsWalk children root bound (popped w queue)
  unfolding popped any
  popped-IsWalk bound w pid queue e i = record {
    small = i.small;
    sound = i.sound;
    same = i.same;
    fresh = i.fresh;
    distinct = i.distinct;
    within = λ x h. i.within x (ap (member x) e ∙ ground (arith, h));
  }

  popped-IsOpen :
      (bound : ℕ) (w v : Walk) (pid : ℕ) (queue : List ℕ)
      → w.queue ≡ pid ∷ queue
      → ((p : ℕ) → member p w.seen ≡ true → IsOpen children root w p)
      → Visited children root bound (popped w queue) v (children_of children pid)
      → (p : ℕ) → member p v.seen ≡ true
      → IsOpen children root v p
  unfolding popped any
  popped-IsOpen bound w v pid queue e o r p h = elim (r.added p h) [
    | inr q ↦ inl q
    | inl s ↦ elim (o p s) [
      | inr f ↦ inr λ c k. r.more c (f c k)
      | inl q ↦ elim (Bool-cases (pid == p)) [
        | inl same ↦ inr λ c k.
            r.taken c (
              subst (λ y. member c (children_of children y) ≡ true) (sym ((==_iff pid p).0 same)) k)
        | inr other ↦ inl (r.queued p (ground (arith, ap (member p) e, q, other)))
      ]
    ]
  ]

  walk-Done :
      (fuel bound : ℕ) (w : Walk)
      → ((p : ℕ) → All (λ c. c < bound) (children_of children p))
      → IsWalk children root bound w
      → ((p : ℕ) → member p w.seen ≡ true → IsOpen children root w p)
      → length w.queue + unseen bound w.seen ≤ fuel
      → Done bound (walk fuel children w)
  unfolding walk any popped
  walk-Done zero bound w b i o f = empty-Done bound w i o (nil_of_length w.queue (omega (arith, f)))
    where
      nil_of_length : (q : List ℕ) → length q ≤ 0 → q ≡ []
      nil_of_length [] h = refl
      nil_of_length (x ∷ q) h = absurd (omega arith)
  walk-Done (suc fuel) bound w b i o f = elim (List-cases w.queue) [
    | inl e ↦ rw e (empty-Done bound w i o e)
    | inr (pid, queue, e) ↦
        let r : Visited children root bound (popped w queue)
            (visit (popped w queue) (children_of children pid)) (children_of children pid) =
          visit-Visited children root bound (popped w queue) (children_of children pid)
            (popped-IsWalk bound w pid queue e i) (b pid)
            (All_of (Descends children root) (children_of children pid) λ c k.
              child
                (All_at (Descends children root) w.seen pid i.sound
                  (i.within pid (ap (member pid) e ∙ rw (==_refl pid) refl)))
                k) in
        rw e (
          walk-Done fuel bound (visit (popped w queue) (children_of children pid)) b r.kept
            (popped-IsOpen bound w _ pid queue e o r) (omega (arith, r.counted, ap length e, f)))
  ]

  -- Whatever descends from the root was seen.
  Descends-member :
      (bound : ℕ) (ds : List ℕ) (r : Done bound ds) (x : ℕ)
      → Descends children root x
      → member x r.last.seen ≡ true
  Descends-member bound ds r root self = r.right.same root ∙ rw (==_refl root) refl
  Descends-member bound ds r x (child {p = p} d k) = r.closed p x (Descends-member bound ds r p d) k

first_walk : ℕ → Walk
first_walk root = record { seen = root ∷ []; queue = root ∷ []; descendants = [] }

first_walk-IsWalk :
    (children : ℕ → Option Str) (root : ℕ)
    → root < 2 ^ 32
    → IsWalk children root (2 ^ 32) (first_walk root)
unfolding first_walk any
first_walk-IsWalk children root h = record {
  small = (h, tt);
  sound = (self, tt);
  same = λ x. refl;
  fresh = refl;
  distinct = tt;
  within = λ x k. k;
}

collected :
    (children : ℕ → Option Str) (root : ℕ)
    → root < 2 ^ 32
    → Done children root (2 ^ 32) (collect_descendants children root)
unfolding collect_descendants first_walk
collected children root h =
    walk-Done children root (2 ^ 32 + 1) (2 ^ 32) (first_walk root) (children_of_small children)
      (first_walk-IsWalk children root h) (λ p k. inl k)
      (omega (arith, unseen_le (2 ^ 32) (root ∷ [])))

-- From a root of 32 bits, `collect_descendants` collects each descendant once, those and no others,
-- and not the root, also where a process is said to descend from itself.
pub collect_descendants_lem :
    (children : ℕ → Option Str) (root : ℕ)
    → root < 2 ^ 32
    → AreDistinct (collect_descendants children root)
      × (member root (collect_descendants children root) ≡ false)
      × ((x : ℕ)
          → (member x (root ∷ collect_descendants children root) ≡ true) ↔ Descends children root x)
unfolding collect_descendants any
collect_descendants_lem children root h =
    let r = collected children root h in
    (
      rw r.ended r.right.distinct,
      rw r.ended r.right.fresh,
      λ x. (
        (λ k.
            All_at (Descends children root) r.last.seen x r.right.sound
              (r.right.same x ∙ ap (λ ds. root == x || member x ds) (sym r.ended) ∙ k)),
        λ d.
            ap (λ ds. root == x || member x ds) r.ended
            ∙ sym (r.right.same x)
            ∙ Descends-member children root (2 ^ 32) (collect_descendants children root) r x d,
      ),
    )
