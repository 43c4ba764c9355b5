-- ===== src/Daemon/Requests/Answers.antt =====
-- The answers of `handle_request` of crates/daemon/src/handler.rs, and what runs after them.
use neals.Prelude.{◌≡◌, ◌⊎◌, true, false, Option, none, some}
use neals.Prelude.Bools.{if◌then◌else◌}
use neals.Prelude.Lists.{find}
use neals.Prelude.Outcome.{Outcome}
use neals.Prelude.Text.{Str, str_eq}
use neals.Common.Ipc.{Request, ping, status, up, down}
use neals.Daemon.Binding.{UpError}
use neals.Daemon.State.{AppState, RunningProject, not_running, is_named, is_running}
use neals.Daemon.Handler.Started.{Started}
use neals.Daemon.Requests.{Answer, done, pong, up_failed, down_failed}

-- What was looked up is still there.
abbrev pub Kept : Option RunningProject → Option RunningProject → Type 0
Kept none o = Unit
Kept (some p) o = o ≡ some p

-- The project that runs under a name.
abbrev pub lookup : Str → AppState → Option RunningProject
lookup name s = find (is_named name) s.projects

abbrev pub Answered : Request → AppState → Answer × AppState → Type 0
Answered ping s (a, s') = (a ≡ pong) × (s' ≡ s)
Answered status s (a, s') = s' ≡ s
Answered (up name) s (a, s') =
    (((a ≡ done) × (is_running s' name ≡ true)) ⊎ ((e : UpError) × (a ≡ up_failed e)))
    × ((n : Str) → Kept (lookup n s) (lookup n s'))
Answered (down name) s (a, s') =
    ((a ≡ done)
      × (is_running s name ≡ true)
      × ((n : Str) → lookup n s' ≡ (if str_eq name n then none else lookup n s)))
    ⊎ ((a ≡ down_failed (not_running name)) × (is_running s name ≡ false) × (s' ≡ s))
