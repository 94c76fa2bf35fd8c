-- ===== src/Tests/ProcessRuns.antt =====
-- Runs of src/process.cpp.
use wirelab_experiments.Common.{
  ◌≤◌, ◌≡◌, refl, true, false, [], ◌∷◌, List, Text, none, some, codes, length, returned,
}
use wirelab_experiments.Process.{
  end_of_file, received, readable, timed_out, Turn, Setup, WaitTurn, exited, signaled, changed,
  unchanged, reap_loop, read_loop, output_limit, finished, command, run_child, after_read,
  after_reap, conclude, succeeded,
}
use wirelab_experiments.Process.Output.{written_of, status_of, command-returned}
use wirelab_experiments.Process.Deadline.{is_finished, command-finished}

abbrev ready : Setup
ready = record { temporary_file = true; written = true; pipe = true; spawn_error = none }

abbrev argv : List Text
argv = codes "ip" ∷ codes "-j" ∷ []

-- The child writes two pieces and exits.
abbrev turns : List Turn
turns =
    record { overdue = false; ready = readable (received (codes "ab")) }
    ∷ record { overdue = false; ready = timed_out }
    ∷ record { overdue = false; ready = readable (received (codes "c")) }
    ∷ record { overdue = false; ready = readable end_of_file }
    ∷ []

abbrev waits : List WaitTurn
waits =
    record { wait = unchanged; overdue = false }
    ∷ record { wait = changed (exited 0); overdue = false }
    ∷ []

command-runs : command ready argv turns waits ≡ finished (returned (codes "abc"))
unfolding command run_child after_read after_reap conclude succeeded read_loop reap_loop
command-runs = refl

command-returned_example :
    (codes "abc" ≡ written_of turns)
    × (length (codes "abc") ≤ output_limit)
    × (status_of waits ≡ some (exited 0))
command-returned_example = command-returned ready argv turns waits (codes "abc") command-runs

-- A child that never ends its output, and is reported once it is killed.
abbrev late_turns : List Turn
late_turns =
    record { overdue = false; ready = timed_out }
    ∷ record { overdue = true; ready = timed_out }
    ∷ []

abbrev killed_waits : List WaitTurn
killed_waits = record { wait = changed signaled; overdue = true } ∷ []

command-finished_example : is_finished (command ready argv late_turns killed_waits) ≡ true
command-finished_example = command-finished ready argv late_turns killed_waits refl refl
