-- ===== src/Commands/Tests.antt =====
-- What the commands print.
use forksan.Prelude.{to_string, ◌≡◌, refl, none, some, codes}
use forksan.FileSystem.{join_path}
use forksan.Discovery.{discover_forks, project_root}
use forksan.Discovery.Tests.{disk, two_triggers_of}
use forksan.Commands.{fmt_ago, run_fork}
use forksan.Commands.Runs.{IsRun, fits, run_fork-IsRun}

fmt_ago-day : fmt_ago 200_000 0 ≡ codes "2d ago"
unfolding fmt_ago to_string
fmt_ago-day = refl

-- A time that has not come yet.
fmt_ago-later : fmt_ago 5 9 ≡ codes "0s ago"
unfolding fmt_ago to_string
fmt_ago-later = refl

run_fork-IsRun_example :
    IsRun
      (project_root disk (codes "/p"))
      (fits (some (codes "learner")) none)
      (discover_forks disk two_triggers_of
        (codes "/p")
        (some (join_path (codes "/home/.autofork") (codes "forks")))).entries
      (run_fork disk two_triggers_of
        (codes "/home/.autofork")
        (codes "/p")
        (some (codes "learner"))
        none)
run_fork-IsRun_example =
    run_fork-IsRun disk two_triggers_of (codes "/home/.autofork") (codes "/p")
      (some (codes "learner")) none
