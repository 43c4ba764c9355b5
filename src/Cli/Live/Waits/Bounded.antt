-- ===== src/Cli/Live/Waits/Bounded.antt =====
-- How long the waits of crates/cli/src/logs.rs last.
use neals.Prelude.{
  not, ◌&&◌, ◌%◌, ◌||◌, suc, ◌+◌, ◌≤◌, Bool, true, false, Option, List, [], ◌∷◌, ◌≡◌, refl, arith,
  subst, ◌⊎◌, inl, inr,
}
use neals.Prelude.Bools.{◌==◌, if◌then◌else◌, leb, take_both}
use neals.Prelude.Lists.{length, any}
use neals.Prelude.Outcome.{Outcome, ok, err}
use neals.Prelude.Text.{is_empty, str_eq, Str}
use neals.Cli.Logs.Follower.{LogFollower}
use neals.Cli.Logs.Names.{process_log_names}
use neals.Cli.Live.{dead, project_gone}
use neals.Cli.Live.Waits.{
  Ending, Sight, Waiting, Wait, waits, over, show_bootstrap, bootstrap_turn, names_turn, wait_turn,
  wait_for_process_logs, given_up,
}

abbrev pub is_over : Wait → Bool
is_over (waits s shown) = false
is_over (over e) = true

-- A round without `follow` that goes on has counted, and not to 150.
abbrev Counted : Waiting → Wait → Type 0
Counted s (waits t shown) = (t.ticks ≡ s.ticks) × (suc t.ticks ≤ 150)
Counted s (over e) = Unit

bootstrap-Counted : (look : Sight) (s : Waiting) → Counted s (bootstrap_turn false look s)
unfolding bootstrap_turn
bootstrap-Counted look s = bootstrap_cases (show_bootstrap look.merged_disk s.merged)
  where
    bootstrap_cases :
        (o : Outcome Str (Option LogFollower × List Str))
        → Counted s (elim o [
          | err e ↦ over (Ending.broken e)
          | ok r ↦
              if leb 150 s.ticks
              then over (given_up (process_log_names look.files))
              else waits (record s { merged = r.0 }) r.1
        ])
    bootstrap_cases (err e) = tt
    bootstrap_cases (ok r) =
        take_both (Counted s) (leb 150 s.ticks) _ _ (λ _. tt) λ few. (refl, ground arith)

names-Counted :
    (process : Str) (look : Sight) (s : Waiting) → Counted s (names_turn false process look s)
unfolding names_turn
names-Counted process look s =
    let names = process_log_names look.files in
    take_both (Counted s) (look.out_there || look.err_there) (over Ending.ready) _ (λ _. tt)
      λ _.
        take_both (Counted s) (not (is_empty names) && not (any (str_eq process) names))
          (over (Ending.only_others names)) (bootstrap_turn false look s) (λ _. tt)
          λ _. bootstrap-Counted look s

counted : Waiting → Waiting
counted s = record s { ticks = suc s.ticks }

wait_turn-Counted :
    (project process : Str) (look : Sight) (s : Waiting)
    → Counted (counted s) (wait_turn false project process look s)
unfolding wait_turn counted
wait_turn-Counted project process look s =
    let gone = project_gone project look.alive look.status s.netns_pid in
    take_both (Counted (counted s)) (dead look.alive s.netns_pid) (over Ending.stopped_before) _
      (λ _. tt)
      λ _.
        take_both (Counted (counted s)) (suc s.ticks % 5 == 0) _ _
          (λ _.
            take_both (Counted (counted s)) gone.0 (over Ending.stopped_before) _ (λ _. tt)
              λ _.
                names-Counted process look (record s { ticks = suc s.ticks; netns_pid = gone.1 }))
          λ _. names-Counted process look (counted s)

ticks-counted : (s : Waiting) → (counted s).ticks ≡ suc s.ticks
unfolding counted
ticks-counted s = refl

Wait-cases :
    (t : Wait)
    → ((s : Waiting) × (shown : List Str) × (t ≡ waits s shown)) ⊎ ((e : Ending) × (t ≡ over e))
Wait-cases (waits s shown) = inl (s, shown, refl)
Wait-cases (over e) = inr (e, refl)

ends_by :
    (project process : Str) (s : Waiting) (looks : List Sight)
    → 150 ≤ s.ticks + length looks
    → s.ticks + 1 ≤ 150
    → is_over (wait_for_process_logs false project process s looks) ≡ true
unfolding wait_for_process_logs
ends_by project process s [] l b = absurd (omega arith)
ends_by project process s (look ∷ looks) l b =
    elim (Wait-cases (wait_turn false project process look s)) [
      | inr (e, h) ↦ rw (wait_for_process_logs, h) refl
      | inl (t, shown, h) ↦
          let c : Counted (counted s) (waits t shown) =
            subst (Counted (counted s)) h (wait_turn-Counted project process look s) in
          rw (wait_for_process_logs, h)
            (ends_by project process t looks (omega (arith, ticks-counted s, c.0))
              (omega (arith, c.1)))
    ]

-- Without `follow` the wait for the log of a process ends within 150 rounds: it is ready, or it ends
-- with an error.
pub wait_for_process_logs_ends :
    (project process : Str) (s : Waiting) (looks : List Sight)
    → s.ticks ≡ 0
    → 150 ≤ length looks
    → is_over (wait_for_process_logs false project process s looks) ≡ true
wait_for_process_logs_ends project process s looks z l =
    ends_by project process s looks (omega arith) (omega arith)
