-- ===== src/Process.antt =====
-- `command` of src/process.cpp. What the operating system answers is an argument: the outcome of each
-- call before the loops, and one record for each round of a loop, with whether the deadline has
-- passed. A loop that has used up its rounds is still running.
pub mod Output
pub mod Deadline
use wirelab_experiments.Common.{
  ℕ, suc, ◌+◌, Bool, true, false, not, ◌&&◌, ◌||◌, List, [], ◌∷◌, ◌++◌, Option, none, some, Text,
  codes, length, ltb, leb, ◌==◌, if◌then◌else◌, Outcome, returned, thrown,
}
use wirelab_experiments.Network.Outside.{Exception, invalid_argument, runtime_error}

-- `read` on the pipe.
pub data Read : Type 0 where
  end_of_file read_interrupted read_failed : Read
  received : Text → Read

-- `poll`, and the `read` behind it.
pub data Ready : Type 0 where
  poll_interrupted poll_failed timed_out : Ready
  readable : Read → Ready

pub record Turn : Type 0 where
  pub overdue : Bool
  pub ready : Ready

pub data Reading : Type 0 where
  read_all : Text → Bool → Reading
  still_reading : Text → Reading

abbrev pub output_limit : ℕ
output_limit = 262_144

-- The loop over the pipe; the flag of the result is `failed`.
unfoldable pub read_loop : List Turn → Text → Reading
read_loop [] output = still_reading output
read_loop (t ∷ ts) output = elim (t.overdue || ltb output_limit (length output)) [
  | true ↦ read_all output true
  | false ↦ elim t.ready [
    | poll_interrupted ↦ read_loop ts output
    | poll_failed ↦ read_all output true
    | timed_out ↦ read_loop ts output
    | readable r ↦ elim r [
      | end_of_file ↦ read_all output false
      | read_interrupted ↦ read_loop ts output
      | read_failed ↦ read_all output true
      | received bytes ↦ read_loop ts (output ++ bytes)
    ]
  ]
]

pub data Status : Type 0 where
  exited : ℕ → Status
  signaled : Status

-- `waitpid`.
pub data Wait : Type 0 where
  changed : Status → Wait
  unchanged wait_interrupted wait_failed : Wait

pub record WaitTurn : Type 0 where
  pub wait : Wait
  pub overdue : Bool

-- The second loop: the status and `failed`, an exception, or no end yet. The number counts the
-- signals that it has sent.
pub data Reaping : Type 0 where
  reaped : Status → Bool → ℕ → Reaping
  not_reaped : Reaping
  still_waiting : Reaping

unfoldable pub reap_loop : List WaitTurn → Bool → ℕ → Reaping
reap_loop [] failed kills = still_waiting
reap_loop (t ∷ ts) failed kills = elim t.wait [
  | changed status ↦ reaped status failed kills
  | unchanged ↦ reap_loop ts (failed || t.overdue) (if t.overdue then kills + 1 else kills)
  | wait_interrupted ↦ reap_loop ts (failed || t.overdue) (if t.overdue then kills + 1 else kills)
  | wait_failed ↦ not_reaped
]

-- The calls before the loops: `tmpfile`, `fwrite` of all the input, `pipe2`, and `posix_spawnp`, with
-- the text of its error.
pub record Setup : Type 0 where
  pub temporary_file : Bool
  pub written : Bool
  pub pipe : Bool
  pub spawn_error : Option Text

unfoldable pub succeeded : Status → Bool
succeeded (exited code) = code == 0
succeeded signaled = false

-- The end, behind both loops.
unfoldable pub conclude : Text → Text → Status → Bool → Outcome Exception Text
conclude program output status failed =
    if failed || not (succeeded status)
    then thrown (
        runtime_error (
          program
          ++ (codes " failed: " ++ (if failed then codes "timeout or output limit" else output))))
    else returned output

-- Where the call stands: it has ended, or one of the loops goes on.
pub data Progress : Type 0 where
  finished : Outcome Exception Text → Progress
  running : Progress

unfoldable pub after_reap : Text → Text → Reaping → Progress
after_reap program output (reaped status failed kills) =
    finished (conclude program output status failed)
after_reap program output not_reaped =
    finished (thrown (runtime_error (codes "Cannot reap command process")))
after_reap program output still_waiting = running

-- A child whose output failed is killed before it is waited for.
unfoldable pub after_read : Text → List WaitTurn → Reading → Progress
after_read program waits (read_all output failed) =
    after_reap program output (reap_loop waits failed (if failed then 1 else 0))
after_read program waits (still_reading output) = running

unfoldable pub run_child : Setup → Text → List Turn → List WaitTurn → Progress
run_child setup program turns waits = elim setup.spawn_error [
  | some error ↦ finished (thrown (runtime_error (program ++ (codes ": " ++ error))))
  | none ↦ after_read program waits (read_loop turns [])
]

unfoldable pub command : Setup → List Text → List Turn → List WaitTurn → Progress
command setup [] turns waits = finished (thrown (invalid_argument (codes "Empty command")))
command setup (program ∷ args) turns waits =
    if not setup.temporary_file
    then finished (thrown (runtime_error (codes "Cannot create command input")))
    else if not setup.written
    then finished (thrown (runtime_error (codes "Cannot write command input")))
    else if not setup.pipe
    then finished (thrown (runtime_error (codes "Cannot create command pipe")))
    else run_child setup program turns waits
