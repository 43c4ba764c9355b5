-- ===== src/Cli/Live/Ends.antt =====
-- How the live view of crates/cli/src/live.rs ends.
use neals.Prelude.{
  zero, ◌-◌, ◌<◌, ◌∷◌, ◌≤◌, inr, suc, inl, ◌⊎◌, subst, ◌++◌, ℕ, ◌+◌, ◌%◌, Bool, true, false, Option,
  none, some, List, [], ◌≡◌, refl, ap, ◌∙◌, arith,
}
use neals.Prelude.Bools.{Bool-cases, ◌==◌, if◌then◌else◌, take_both}
use neals.Prelude.Lists.{All, length, find}
use neals.Cli.Logs.Mux.{refresh, poll_streams}
use neals.Cli.Logs.Follower.{poll_lines}
use neals.Prelude.Outcome.{◌>>=◌, any-OnOk, Outcome, ok, err, OnOk, then-OnOk}
use neals.Prelude.Text.{Str, str_eq}
use neals.Common.Ipc.{ProjectRuntime, running}
use neals.Cli.Logs.Mux.{ProcessLogMux, new_mux}
use neals.Cli.Live.{
  key_turn, follow_loop, follow_step, Key, checked_tick, with_disks, turn_of, Look, View, Turn,
  goes_on, leaves, breaks, exited, dead, reported_gone, project_gone, refresh_view, discover,
  poll_mux, poll_merged, read_logs, discover_turn, tick,
}

-- The daemon reports running projects, and this one is not among them.
abbrev pub IsGone : Str → Look → Type 0
IsGone project look =
    (ps : List ProjectRuntime) × (look.status ≡ ok (running ps))
    × (find (λ p. str_eq p.name project) ps ≡ none)

abbrev pub has_ended : Turn → Bool
has_ended (goes_on v shown) = false
has_ended (leaves o) = true
has_ended (breaks e) = true

Same : View → View × List Str → Type 0
Same v r = r.0.ticks ≡ v.ticks

refresh_view-Same :
    (look : Look) (v : View) (m : ProcessLogMux) → OnOk (Same v) (refresh_view look v m)
unfolding refresh_view Same
refresh_view-Same look v m = any-OnOk (Same v) (refresh look.disk_of none m look.files) _ λ r. refl

-- A choice on an option, both ways.
option-OnOk :
    {A B : Type 0} (Q : B → Type 0) (o : Option A) (a : Outcome Str B) (f : A → Outcome Str B)
    → OnOk Q a
    → ((x : A) → OnOk Q (f x))
    → OnOk Q (elim o [ none ↦ a | some x ↦ f x ])
option-OnOk Q none a f h k = h
option-OnOk Q (some x) a f h k = k x

discover-Same : (look : Look) (v : View) → OnOk (Same v) (discover look v)
unfolding discover Same
discover-Same look v =
    option-OnOk (Same v) v.mux
      (if look.runtime_known then refresh_view look v new_mux else ok (v, [])) (refresh_view look v)
      (take_both (OnOk (Same v)) look.runtime_known (refresh_view look v new_mux) (ok (v, []))
        (λ _. refresh_view-Same look v new_mux) λ _. refl)
      λ m. refresh_view-Same look v m

poll_mux-Same : (look : Look) (v : View) → OnOk (Same v) (poll_mux look v)
unfolding poll_mux Same
poll_mux-Same look v =
    option-OnOk (Same v) v.mux (ok (v, [])) _ refl
      λ m. any-OnOk (Same v) (poll_streams (with_disks look.disk_of m.known m.streams)) _ λ r. refl

poll_merged-Same : (look : Look) (v : View) → OnOk (Same v) (poll_merged look v)
unfolding poll_merged Same
poll_merged-Same look v = any-OnOk (Same v) (poll_lines look.merged_disk v.merged) _ λ r. refl

read_logs-Same : (look : Look) (v : View) → OnOk (Same v) (read_logs look v)
unfolding Same
read_logs-Same look v =
    then-OnOk (Same v) (Same v) (poll_mux look v) _ (poll_mux-Same look v) λ a h.
      then-OnOk (Same a.0) (Same v) (poll_merged look a.0) _ (poll_merged-Same look a.0)
        λ b k. k ∙ h

-- A turn that goes on has counted, and it is no turn that asked while the project was gone.
abbrev Counted : Str → Look → View → Turn → Type 0
Counted project look v (goes_on w shown) =
    (w.ticks ≡ (v.ticks + 1) % 256) × (IsGone project look → (w.ticks % 5 == 0) ≡ false)
Counted project look v _ = Unit

turn-Counted :
    (project : Str) (look : Look) (v n : View) (o : Outcome Str (View × List Str))
    → n.ticks ≡ (v.ticks + 1) % 256
    → (IsGone project look → (n.ticks % 5 == 0) ≡ false)
    → OnOk (Same n) o
    → Counted project look v (turn_of o)
unfolding Same
turn-Counted project look v n (err e) h k s = tt
turn-Counted project look v n (ok r) h k s = (s ∙ h, λ g. ap (λ t. t % 5 == 0) s ∙ k g)

discover-logs :
    (look : Look) (v : View)
    → OnOk (Same v) (discover look v >>= λ a. read_logs look a.0 >>= λ b. ok (b.0, a.1 ++ b.1))
unfolding Same
discover-logs look v = then-OnOk (Same v) (Same v) (discover look v) _ (discover-Same look v) λ a h.
    then-OnOk (Same a.0) (Same v) (read_logs look a.0) _ (read_logs-Same look a.0) λ b k. k ∙ h

gone_reported :
    (project : Str) (look : Look) (known : Option ℕ)
    → IsGone project look
    → (project_gone project look.alive look.status known).0 ≡ true
unfolding project_gone
gone_reported project look known (ps, e, f) =
    take_both (λ r. r.0 ≡ true) (dead look.alive known) (true, known)
      (reported_gone project known look.status) (λ _. refl) λ _. rw (e, reported_gone, f) refl

counted_view : View → View
counted_view v = record v { ticks = (v.ticks + 1) % 256 }

asked_view : View → Option ℕ → View
asked_view v pid = record v { ticks = (v.ticks + 1) % 256; netns_pid = pid }

tick-Counted :
    (project : Str) (look : Look) (v : View) → Counted project look v (tick project look v)
unfolding tick discover_turn counted_view asked_view
tick-Counted project look v =
    let gone = project_gone project look.alive look.status v.netns_pid in
    take_both (Counted project look v) ((v.ticks + 1) % 256 % 5 == 0) _ _
      (λ fifth.
        take_both (Counted project look v) gone.0 (leaves exited) _ (λ _. tt)
          λ here.
            turn-Counted project look v (asked_view v gone.1) _ refl
              (λ g. absurd (ground (arith, here, gone_reported project look v.netns_pid g)))
              (discover-logs look (asked_view v gone.1)))
      λ plain.
        turn-Counted project look v (counted_view v) _ refl (λ _. plain)
          (read_logs-Same look (counted_view v))

checked-Counted :
    (project : Str) (look : Look) (v : View) → Counted project look v (checked_tick project look v)
unfolding checked_tick
checked-Counted project look v =
    take_both (Counted project look v) (dead look.alive v.netns_pid) (leaves exited)
      (tick project look v) (λ _. tt) λ _. tick-Counted project look v

key-Counted :
    (project : Str) (look : Look) (v : View) (next : Turn) (k : Key)
    → Counted project look v next
    → Counted project look v (key_turn next k)
key-Counted project look v next Key.ctrl_q h = tt
key-Counted project look v next Key.ctrl_b h = tt
key-Counted project look v next Key.ctrl_c h = tt
key-Counted project look v next Key.ctrl_x h = tt
key-Counted project look v next Key.other_key h = h

keyed-Counted :
    (project : Str) (look : Look) (v : View) (next : Turn) (o : Outcome Str (Option Key))
    → Counted project look v next
    → Counted project look v
        (elim o [ err e ↦ breaks e | ok none ↦ next | ok (some k) ↦ key_turn next k ])
keyed-Counted project look v next (err e) h = tt
keyed-Counted project look v next (ok none) h = h
keyed-Counted project look v next (ok (some k)) h = key-Counted project look v next k h

follow_step-Counted :
    (raw : Bool) (project : Str) (look : Look) (v : View)
    → Counted project look v (follow_step raw project look v)
unfolding follow_step
follow_step-Counted raw project look v =
    let h = checked-Counted project look v in
    take_both (Counted project look v) raw _ (checked_tick project look v)
      (λ _. keyed-Counted project look v (checked_tick project look v) look.key h) λ _. h

Turn-cases :
    (t : Turn) → ((v : View) × (shown : List Str) × (t ≡ goes_on v shown)) ⊎ (has_ended t ≡ true)
Turn-cases (goes_on v shown) = inl (v, shown, refl)
Turn-cases (leaves o) = inr refl
Turn-cases (breaks e) = inr refl

follow_loop-turn :
    (raw : Bool) (project : Str) (v : View) (look : Look) (looks : List Look)
    → has_ended (follow_step raw project look v) ≡ true
    → has_ended (follow_loop raw project v (look ∷ looks)) ≡ true
unfolding follow_loop
follow_loop-turn raw project v look looks h = ended_turn (follow_step raw project look v) h
  where
    ended_turn :
        (t : Turn)
        → has_ended t ≡ true
        → has_ended (elim t [
          | goes_on w shown ↦ follow_loop raw project w looks
          | leaves o ↦ leaves o
          | breaks e ↦ breaks e
        ])
          ≡ true
    ended_turn (goes_on w shown) k = absurd (ground (arith, k))
    ended_turn (leaves o) k = refl
    ended_turn (breaks e) k = refl

-- The turn that asks is `m` turns away.
ends_within :
    (raw : Bool) (project : Str) (m : ℕ) (v : View) (looks : List Look)
    → (v.ticks + suc m) % 256 % 5 ≡ 0
    → suc m ≤ length looks
    → All (IsGone project) looks
    → has_ended (follow_loop raw project v looks) ≡ true
unfolding follow_loop
ends_within raw project m v [] t l g = absurd (omega arith)
ends_within raw project zero v (look ∷ looks) t l g =
    elim (Turn-cases (follow_step raw project look v)) [
      | inr e ↦ follow_loop-turn raw project v look looks e
      | inl (w, shown, e) ↦
          let c : Counted project look v (goes_on w shown) =
            subst (Counted project look v) e (follow_step-Counted raw project look v) in
          absurd (ground (arith, c.0, c.1 g.0, t))
    ]
ends_within raw project (suc m) v (look ∷ looks) t l g =
    elim (Turn-cases (follow_step raw project look v)) [
      | inr e ↦ follow_loop-turn raw project v look looks e
      | inl (w, shown, e) ↦
          let c : Counted project look v (goes_on w shown) =
            subst (Counted project look v) e (follow_step-Counted raw project look v) in
          rw (follow_loop, e)
            (ends_within raw project m w looks (omega (arith, c.0, t)) (omega (arith, l)) g.1)
    ]

-- Once the daemon reports the project as gone at five turns one after the other, the live view has
-- ended, whatever keys are pressed and whatever the logs hold, also where its count wraps.
pub follow_loop_ends :
    (raw : Bool) (project : Str) (v : View) (looks : List Look)
    → v.ticks < 256
    → 5 ≤ length looks
    → All (IsGone project) looks
    → has_ended (follow_loop raw project v looks) ≡ true
follow_loop_ends raw project v looks b l g = elim (Bool-cases (v.ticks == 255)) [
  | inl last ↦ ends_within raw project 0 v looks (ground (arith, last)) (omega (arith, l)) g
  | inr e ↦
      ends_within raw project (4 - v.ticks % 5) v looks (ground (arith, e, b)) (omega (arith, l)) g
]
