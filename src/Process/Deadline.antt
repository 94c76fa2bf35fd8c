-- ===== src/Process/Deadline.antt =====
-- The end of `command` of src/process.cpp: its memory, its signals and its two loops.
use wirelab_experiments.Common.{
  ℕ, ◌+◌, ◌≤◌, ◌<◌, ◌≡◌, ◌⊎◌, inl, inr, refl, Bool, true, false, ◌||◌, List, [], ◌∷◌, ◌++◌, Text,
  length, length-append, if◌then◌else◌, arith, All,
}
use wirelab_experiments.Process.{
  end_of_file, read_interrupted, read_failed, received, Ready, poll_interrupted, poll_failed,
  timed_out, readable, Turn, Reading, read_all, still_reading, output_limit, read_loop, Status,
  changed, unchanged, wait_interrupted, wait_failed, WaitTurn, Reaping, reaped, not_reaped,
  still_waiting, reap_loop, Setup, Progress, finished, running, after_reap, after_read, run_child,
  command,
}

-- The text that a loop over the pipe holds.
abbrev pub held : Reading → Text
held (read_all output failed) = output
held (still_reading output) = output

-- A call of `read` gives at most what the buffer holds.
abbrev pub FitsBuffer : Turn → Type 0
FitsBuffer t = (bytes : Text) → t.ready ≡ readable (received bytes) → length bytes ≤ 4096

turn-held :
    (t : Turn) (ready : Ready) (ts : List Turn) (before : Text)
    → t.ready ≡ ready
    → FitsBuffer t
    → ((b : Text)
        → length b ≤ output_limit + 4096
        → length (held (read_loop ts b)) ≤ output_limit + 4096)
    → length before ≤ output_limit + 4096
    → length (held (read_loop (t ∷ ts) before)) ≤ output_limit + 4096
unfolding read_loop
turn-held t poll_interrupted ts before e f ih h = ground (arith, ih before)
turn-held t poll_failed ts before e f ih h = ground arith
turn-held t timed_out ts before e f ih h = ground (arith, ih before)
turn-held t (readable end_of_file) ts before e f ih h = ground arith
turn-held t (readable read_interrupted) ts before e f ih h = ground (arith, ih before)
turn-held t (readable read_failed) ts before e f ih h = ground arith
turn-held t (readable (received bytes)) ts before e f ih h =
    ground (arith, f bytes e, ih (before ++ bytes), length-append before bytes)

-- As long as no `read` gives more than 4096 bytes, what the loop over the pipe keeps in memory stays
-- within the limit and one buffer, whenever it is looked at.
pub read_loop-held :
    (ts : List Turn) (before : Text)
    → All FitsBuffer ts
    → length before ≤ output_limit + 4096
    → length (held (read_loop ts before)) ≤ output_limit + 4096
unfolding read_loop
read_loop-held [] before f h = h
read_loop-held (t ∷ ts) before f h =
    turn-held t t.ready ts before refl f.0 (λ b k. read_loop-held ts b f.1 k) h

reap_loop-kills :
    (ts : List WaitTurn) (failed : Bool) (kills : ℕ) (status : Status) (kills' : ℕ)
    → (failed ≡ false) ⊎ (0 < kills)
    → reap_loop ts failed kills ≡ reaped status true kills'
    → 0 < kills'
unfolding reap_loop
reap_loop-kills [] failed kills status kills' k h = cc
reap_loop-kills (t ∷ ts) failed kills status kills' k h = ground (
  arith,
  reap_loop-kills ts (failed || t.overdue) (if t.overdue then kills + 1 else kills) status kills',
)

-- Where reading failed, `command` has sent one signal before it waits. So if it reaps a child with
-- `failed` set, for a timeout, too much output or a failed read, then it has sent at least one.
pub reap_loop-kills_failed :
    (ts : List WaitTurn) (failed : Bool) (status : Status) (kills : ℕ)
    → reap_loop ts failed (if failed then 1 else 0) ≡ reaped status true kills
    → 0 < kills
reap_loop-kills_failed ts true status kills h =
    reap_loop-kills ts true 1 status kills (inr (omega arith)) h
reap_loop-kills_failed ts false status kills h =
    reap_loop-kills ts false 0 status kills (inl refl) h

abbrev pub any_overdue : List Turn → Bool
any_overdue [] = false
any_overdue (t ∷ ts) = t.overdue || any_overdue ts

-- Whether some `waitpid` reports the child.
abbrev pub any_change : List WaitTurn → Bool
any_change [] = false
any_change (t ∷ ts) = elim t.wait [
  | changed status ↦ true
  | unchanged ↦ any_change ts
  | wait_interrupted ↦ any_change ts
  | wait_failed ↦ any_change ts
]

abbrev is_read : Reading → Bool
is_read (read_all output failed) = true
is_read (still_reading output) = false

abbrev is_reaped : Reaping → Bool
is_reaped still_waiting = false
is_reaped (reaped status failed kills) = true
is_reaped not_reaped = true

abbrev pub is_finished : Progress → Bool
is_finished (finished r) = true
is_finished running = false

turn-is_read :
    (t : Turn) (ready : Ready) (ts : List Turn) (before : Text)
    → t.ready ≡ ready
    → any_overdue (t ∷ ts) ≡ true
    → ((b : Text) → any_overdue ts ≡ true → is_read (read_loop ts b) ≡ true)
    → is_read (read_loop (t ∷ ts) before) ≡ true
unfolding read_loop
turn-is_read t poll_interrupted ts before e h ih = ground (arith, ih before)
turn-is_read t poll_failed ts before e h ih = ground arith
turn-is_read t timed_out ts before e h ih = ground (arith, ih before)
turn-is_read t (readable end_of_file) ts before e h ih = ground arith
turn-is_read t (readable read_interrupted) ts before e h ih = ground (arith, ih before)
turn-is_read t (readable read_failed) ts before e h ih = ground arith
turn-is_read t (readable (received bytes)) ts before e h ih = ground (arith, ih (before ++ bytes))

read_loop-is_read :
    (ts : List Turn) (before : Text) → any_overdue ts ≡ true → is_read (read_loop ts before) ≡ true
read_loop-is_read [] before h = cc
read_loop-is_read (t ∷ ts) before h =
    turn-is_read t t.ready ts before refl h (λ b k. read_loop-is_read ts b k)

reap_loop-is_reaped :
    (ts : List WaitTurn) (failed : Bool) (kills : ℕ)
    → any_change ts ≡ true
    → is_reaped (reap_loop ts failed kills) ≡ true
unfolding reap_loop
reap_loop-is_reaped [] failed kills h = cc
reap_loop-is_reaped (t ∷ ts) failed kills h =
    ground
      (arith, reap_loop-is_reaped ts (failed || t.overdue) (if t.overdue then kills + 1 else kills))

after_reap-finished :
    (program output : Text) (r : Reaping)
    → is_reaped r ≡ true
    → is_finished (after_reap program output r) ≡ true
unfolding after_reap
after_reap-finished program output (reaped status failed kills) h = refl
after_reap-finished program output not_reaped h = refl
after_reap-finished program output still_waiting h = cc

after_read-finished :
    (program : Text) (waits : List WaitTurn) (r : Reading)
    → any_change waits ≡ true
    → is_read r ≡ true
    → is_finished (after_read program waits r) ≡ true
unfolding after_read
after_read-finished program waits (read_all output failed) w h =
    after_reap-finished program output _
      (reap_loop-is_reaped waits failed (if failed then 1 else 0) w)
after_read-finished program waits (still_reading output) w h = cc

-- `command` comes to its end once the deadline has passed in some round of reading and the child is
-- reported in some round of waiting, whatever else the system answers.
pub command-finished :
    (setup : Setup) (argv : List Text) (turns : List Turn) (waits : List WaitTurn)
    → any_overdue turns ≡ true
    → any_change waits ≡ true
    → is_finished (command setup argv turns waits) ≡ true
unfolding command run_child
command-finished setup [] turns waits t w = refl
command-finished setup (program ∷ args) turns waits t w =
    ground
      (arith, after_read-finished program waits (read_loop turns []), read_loop-is_read turns [])
