-- ===== src/Process/Output.antt =====
-- What `command` of src/process.cpp returns.
use wirelab_experiments.Common.{
  ℕ, zero, suc, ◌+◌, ◌≤◌, ◌≡◌, inl, inr, refl, Bool, true, false, ◌||◌, List, [], ◌∷◌, ◌++◌,
  append-nil, append_assoc, Option, none, some, Text, length, ltb, if◌then◌else◌, returned, arith,
  Bool-cases,
}
use wirelab_experiments.Process.{
  end_of_file, read_interrupted, read_failed, received, Ready, poll_interrupted, poll_failed,
  timed_out, readable, Turn, Reading, read_all, still_reading, output_limit, read_loop, Status,
  exited, signaled, changed, unchanged, wait_interrupted, wait_failed, WaitTurn, Reaping, reaped,
  not_reaped, still_waiting, reap_loop, Setup, succeeded, conclude, finished, after_reap,
  after_read, run_child, command,
}

-- What the child writes before it closes its end of the pipe.
abbrev pub written_of : List Turn → Text
written_of [] = []
written_of (t ∷ ts) = elim t.ready [
  | poll_interrupted ↦ written_of ts
  | poll_failed ↦ written_of ts
  | timed_out ↦ written_of ts
  | readable r ↦ elim r [
    | end_of_file ↦ []
    | read_interrupted ↦ written_of ts
    | read_failed ↦ written_of ts
    | received bytes ↦ bytes ++ written_of ts
  ]
]

-- The status that the first successful `waitpid` reports.
abbrev pub status_of : List WaitTurn → Option Status
status_of [] = none
status_of (t ∷ ts) = elim t.wait [
  | changed status ↦ some status
  | unchanged ↦ status_of ts
  | wait_interrupted ↦ status_of ts
  | wait_failed ↦ status_of ts
]

abbrev IsComplete : List Turn → Text → Text → Type 0
IsComplete ts before output =
    read_loop ts before ≡ read_all output false
    → (output ≡ before ++ written_of ts) × (length output ≤ output_limit)

turn-written_of :
    (t : Turn) (ready : Ready) (ts : List Turn) (before output : Text)
    → t.ready ≡ ready
    → ((b : Text) → IsComplete ts b output)
    → (t.overdue || ltb output_limit (length before)) ≡ false
    → IsComplete (t ∷ ts) before output
unfolding read_loop
turn-written_of t poll_interrupted ts before output e ih f h = ground (arith, ih before)
turn-written_of t poll_failed ts before output e ih f h = ground arith
turn-written_of t timed_out ts before output e ih f h = ground (arith, ih before)
turn-written_of t (readable end_of_file) ts before output e ih f h =
    ground (arith, append-nil before)
turn-written_of t (readable read_interrupted) ts before output e ih f h = ground (arith, ih before)
turn-written_of t (readable read_failed) ts before output e ih f h = ground arith
turn-written_of t (readable (received bytes)) ts before output e ih f h =
    ground (arith, ih (before ++ bytes), append_assoc before bytes (written_of ts))

read_loop-written_of : (ts : List Turn) (before output : Text) → IsComplete ts before output
unfolding read_loop
read_loop-written_of [] before output h = cc
read_loop-written_of (t ∷ ts) before output h =
    elim (Bool-cases (t.overdue || ltb output_limit (length before))) [
      | inl e ↦ ground arith
      | inr e ↦
          turn-written_of t t.ready ts before output refl (λ b. read_loop-written_of ts b output) e
            h
    ]

reap_loop-reaped :
    (ts : List WaitTurn) (failed : Bool) (kills : ℕ) (status : Status) (kills' : ℕ)
    → reap_loop ts failed kills ≡ reaped status false kills'
    → (failed ≡ false) × (status_of ts ≡ some status) × (kills' ≡ kills)
unfolding reap_loop
reap_loop-reaped [] failed kills status kills' h = cc
reap_loop-reaped (t ∷ ts) failed kills status kills' h = ground (
  arith,
  reap_loop-reaped ts (failed || t.overdue) (if t.overdue then kills + 1 else kills) status kills',
)

after_reap-returned :
    (program output out : Text) (r : Reaping)
    → after_reap program output r ≡ finished (returned out)
    → (kills : ℕ) × (r ≡ reaped (exited 0) false kills) × (out ≡ output)
unfolding after_reap conclude succeeded
after_reap-returned program output out (reaped (exited code) true kills) h = cc
after_reap-returned program output out (reaped (exited zero) false kills) h = (kills, refl, cc)
after_reap-returned program output out (reaped (exited (suc code)) false kills) h = ground arith
after_reap-returned program output out (reaped signaled true kills) h = cc
after_reap-returned program output out (reaped signaled false kills) h = cc
after_reap-returned program output out not_reaped h = cc
after_reap-returned program output out still_waiting h = cc

after_read-returned :
    (program out : Text) (waits : List WaitTurn) (r : Reading)
    → after_read program waits r ≡ finished (returned out)
    → (r ≡ read_all out false) × (status_of waits ≡ some (exited 0))
unfolding after_read
after_read-returned program out waits (read_all output failed) h =
    let e = after_reap-returned program output out _ h in
    let w = reap_loop-reaped waits failed (if failed then 1 else 0) (exited 0) e.0 e.1 in
    (cc (w.0, e.2), w.1)
after_read-returned program out waits (still_reading output) h = cc

-- If `command` returns a text, the child exited with status 0, and the text is all that it wrote and
-- at most 262,144 bytes long.
pub command-returned :
    (setup : Setup) (argv : List Text) (turns : List Turn) (waits : List WaitTurn) (output : Text)
    → command setup argv turns waits ≡ finished (returned output)
    → (output ≡ written_of turns)
      × (length output ≤ output_limit)
      × (status_of waits ≡ some (exited 0))
unfolding command run_child
command-returned setup [] turns waits output h = cc
command-returned setup (program ∷ args) turns waits output h = ground (
  arith,
  after_read-returned program output waits (read_loop turns []),
  read_loop-written_of turns [] output,
)
