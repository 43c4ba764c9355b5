-- ===== src/Tests/Follow.antt =====
-- The followed view with windows of two lines, and a log that is opened.
use neals.Prelude.{arith}
use neals.Prelude.Text.{codes}
use neals.Prelude.{some, none, ◌∷◌, [], true}
use neals.Prelude.Outcome.{ok}
use neals.Common.Xdg.{LogFiles, open_log}
use neals.Common.Xdg.Rotation.{Opened, open_log_lem}
use neals.Cli.Dedup.{new_deduper, take_process, take_merged}
use neals.Cli.Dedup.Laws.{ShownOnce, new_deduper-IsCrossValid, take_lem}

take_lem_example :
    ShownOnce 2 take_merged (codes "app ready") (take_process (new_deduper 2) (codes "app ready"))
    × ShownOnce 2 take_process (codes "app ready") (take_merged (new_deduper 2) (codes "app ready"))
take_lem_example =
    take_lem 2 (new_deduper 2) (codes "app ready") (omega arith) (new_deduper-IsCrossValid 2)

abbrev short_log : LogFiles
short_log = record { current = some (1 ∷ 2 ∷ []); rotated = none }

open_log_lem_example : Opened (some (1 ∷ 2 ∷ [])) (open_log true (ok tt) short_log)
open_log_lem_example = open_log_lem (ok tt) short_log
