-- ===== src/Daemon/Requests.antt =====
-- crates/daemon/src/handler.rs, `handle_request`: what the daemon answers to a request, where no other
-- task moves meanwhile. The message of an error is kept as the error.
pub mod Answers
use neals.Prelude.{List}
use neals.Prelude.Outcome.{Outcome, ok, err}
use neals.Common.Ipc.{ProjectRuntime, Request, ping, status, up, down}
use neals.Daemon.Caddy.{CaddyEnv}
use neals.Daemon.State
use neals.Daemon.State.{AppState, StateError, stop}
use neals.Daemon.Binding.{UpError}
use neals.Daemon.Handler.{UpEnv, UpTask, finished, up_project}

pub data Answer : Type 0 where
  done pong : Answer
  running : (projects : List ProjectRuntime) → Answer
  up_failed : UpError → Answer
  down_failed : StateError → Answer
  unfinished : Answer

-- `unfinished` is for a start that is not at its end, which the start of a request always is.
abbrev pub answer_up : UpTask → Answer
answer_up (finished (ok u)) = done
answer_up (finished (err e)) = up_failed e
answer_up _ = unfinished

abbrev pub answer_down : Outcome StateError (Unit {0}) → Answer
answer_down (ok u) = done
answer_down (err e) = down_failed e

unfoldable pub handle_request : UpEnv → CaddyEnv → Request → AppState → Answer × AppState
handle_request env cleanup ping s = (pong, s)
handle_request env cleanup status s = (running (State.status env.now s), s)
handle_request env cleanup (up project) s =
    let (t, s') = up_project env project s in (answer_up t, s')
handle_request env cleanup (down project) s =
    let (r, s') = stop cleanup s project in (answer_down r, s')
