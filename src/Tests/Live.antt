-- ===== src/Tests/Live.antt =====
-- A live view of a project that is gone.
use neals.Prelude.{false, true, some, none, [], ◌∷◌, ◌≡◌, refl, arith}
use neals.Prelude.Outcome.{err, ok}
use neals.Cli.Live.Waits.{Sight, Waiting, wait_for_process_logs}
use neals.Cli.Live.Waits.Bounded.{is_over, wait_for_process_logs_ends}
use neals.Prelude.Lists.{length-replicate, find, replicate, All}
use neals.Prelude.Text.{codes}
use neals.Common.Ipc.{running}
use neals.Cli.Dedup.{new_deduper}
use neals.Cli.Logs.Follower.{Disk}
use neals.Cli.Live.{Look, View, Key, follow_loop}
use neals.Cli.Live.Ends.{IsGone, has_ended, follow_loop_ends}

abbrev log_disk : Disk
log_disk = record { at_path = some 0; bytes = λ f. codes "a\n" }

abbrev gone_look : Look
gone_look = record {
  key = ok (some Key.other_key);
  alive = λ p. true;
  status = ok (running []);
  runtime_known = true;
  files = codes "web.stdout.log" ∷ [];
  disk_of = λ name stream. log_disk;
  merged_disk = log_disk;
}

abbrev late_view : View
late_view = record {
  mux = none;
  ticks = 253;
  dedup = new_deduper 128;
  netns_pid = some 77;
  merged = record { file = 0; offset = 2; pending = [] };
  devenv_width = 6;
}

gone_look-IsGone : IsGone (codes "shop") gone_look
unfolding find
gone_look-IsGone = ([], refl, refl)

five_looks : All (IsGone (codes "shop")) (replicate 5 gone_look)
five_looks = let g = gone_look-IsGone in (g, (g, (g, (g, (g, tt)))))

follow_loop_ends_example :
    has_ended (follow_loop true (codes "shop") late_view (replicate 5 gone_look)) ≡ true
follow_loop_ends_example =
    follow_loop_ends true (codes "shop") late_view (replicate 5 gone_look) (omega arith)
      (omega arith) five_looks

abbrev blank_sight : Sight
blank_sight = record {
  alive = λ p. true;
  status = err (codes "no daemon");
  out_there = false;
  err_there = false;
  files = [];
  merged_disk = log_disk;
}

abbrev first_wait : Waiting
first_wait = record { ticks = 0; netns_pid = none; merged = none }

wait_for_process_logs_ends_example :
    is_over (
      wait_for_process_logs false
        (codes "shop")
        (codes "web")
        first_wait
        (replicate 150 blank_sight))
    ≡ true
wait_for_process_logs_ends_example =
    wait_for_process_logs_ends (codes "shop") (codes "web") first_wait (replicate 150 blank_sight)
      refl (omega (arith, length-replicate 150 blank_sight))
