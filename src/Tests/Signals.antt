-- ===== src/Tests/Signals.antt =====
-- The signals to a small process tree: the process 5 with the children 6 and 7.
use neals.Prelude.{ℕ, true, false, Option, none, some, ◌∷◌, ◌≡◌, ◌↔◌, arith}
use neals.Prelude.Bools.{◌==◌, if◌then◌else◌}
use neals.Prelude.Text.{Str, codes}
use neals.Daemon.Signals.{collect_descendants, TreeEnv}
use neals.Daemon.Signals.Members.{member, AreDistinct}
use neals.Daemon.Signals.Walks.{Descends}
use neals.Daemon.Signals.Descendants.{collect_descendants_lem}

abbrev two_children : ℕ → Option Str
two_children p = if p == 5 then some (codes "6 7\n") else none

collect_descendants_lem_example :
    AreDistinct (collect_descendants two_children 5)
    × (member 5 (collect_descendants two_children 5) ≡ false)
    × ((x : ℕ)
        → (member x (5 ∷ collect_descendants two_children 5) ≡ true) ↔ Descends two_children 5 x)
collect_descendants_lem_example = collect_descendants_lem two_children 5 (omega arith)

abbrev two_env : TreeEnv
two_env = record {
  children = two_children;
  children_later = λ p. none;
  child_ends = false;
  alive = λ poll p. p == 7;
  polls = 2;
}
