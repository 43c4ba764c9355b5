-- ===== src/Daemon/Handler/Committed.antt =====
-- crates/daemon/src/handler.rs: the last part of a start puts the project behind those that run, since
-- it has looked the name up under the same lock.
use neals.Prelude.{◌≡◌, false, List, [], ◌∷◌, ◌++◌}
use neals.Prelude.Text.{Str}
use neals.Daemon.Routes.{BoundRoute}
use neals.Daemon.State.{AppState, is_running, insert_project}
use neals.Daemon.State.Inserted.{insert_project_fresh}
use neals.Daemon.Handler.{UpEnv, Launch, running_of}

pub committed_fresh :
    (env : UpEnv) (name path : Str) (bound : List BoundRoute) (l : Launch) (s : AppState)
    → is_running s name ≡ false
    → insert_project (running_of env name path bound l) s.projects
      ≡ s.projects ++ running_of env name path bound l ∷ []
unfolding is_running running_of
committed_fresh env name path bound l s e =
    insert_project_fresh (running_of env name path bound l) s.projects e
