-- ===== src/Tests/Namespaces.antt =====
-- A namespace whose first process shows at the third look.
use neals.Prelude.{ℕ, some, none, []}
use neals.Prelude.Bools.{leb, if◌then◌else◌}
use neals.Prelude.Text.{codes}
use neals.Daemon.Netns.{Children, wait_netns_pid}
use neals.Daemon.Netns.Waited.{WaitPost, wait_netns_pid_lem}

abbrev slow_start : ℕ → Children
slow_start k = if leb 2 k then (some (codes "4711 4712\n"), []) else (none, [])

wait_netns_pid_lem_example : WaitPost slow_start 0 50 (wait_netns_pid slow_start)
wait_netns_pid_lem_example = wait_netns_pid_lem slow_start
