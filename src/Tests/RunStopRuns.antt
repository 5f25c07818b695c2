-- ===== src/Tests/RunStopRuns.antt =====
-- The theorems on `run` and `stop`, at one interleaving.
use firelink_net.Prelude.{update, ◌≤◌, ◌*◌, ℕ, ◌≡◌, refl, false, none, some, arith}
use firelink_net.IoCore.RunStop.{
  testing, yielding, asleep, leaving, returned, flagged, locked, woken, stopped, runner_owns,
  stopper_owns, Sched, run_to, stop_to, wake, run_acquire, test_again, test_done, sleep, wake_alone,
  run_reacquire, run_release, set_flag, stop_acquire, wake_all, stop_release, start, Reach, here,
  next,
}
use firelink_net.IoCore.RunStop.Threads.{Run, stay, more, IsStuck}
use firelink_net.IoCore.RunStop.Progress.{stop_bounds_steps, everyone_returns}
use firelink_net.IoCore.RunStop.Invariant.{
  pending, sleepy, inside, no_thread_left_asleep, lock_exclusive,
}

-- Thread 0 goes to sleep in `run`.
abbrev slept : Sched
slept =
    run_to
      (run_to (run_to start 0 testing (some (runner_owns 0))) 0 yielding (some (runner_owns 0))) 0
      asleep none

slept_reached : Reach start slept
slept_reached =
    next (next (next here (run_acquire 0 refl refl)) (test_again 0 refl refl)) (sleep 0 refl)

-- Then another one sets the flag, and takes the lock.
abbrev asked : Sched
asked = record slept { stopper = update slept.stopper 0 flagged; stop_requested = 1 }

abbrev locking : Sched
locking = stop_to asked 0 locked (some (stopper_owns 0))

locking_reached : Reach start locking
locking_reached = next (next slept_reached (set_flag 0 refl)) (stop_acquire 0 refl refl)

-- It wakes the sleeper, and gives the lock back.
abbrev signalled : Sched
signalled = record locking {
  stopper = update locking.stopper 0 woken;
  runner = λ i. wake (locking.runner i);
}

abbrev over : Sched
over = stop_to signalled 0 stopped none

over_reached : Reach start over
over_reached = next (next locking_reached (wake_all 0 refl)) (stop_release 0 refl)

over_quiet : (k : ℕ) → pending (over.stopper k) ≡ false
over_quiet k = ground arith

no_thread_left_asleep_example : sleepy (over.runner 0) ≡ false
no_thread_left_asleep_example = no_thread_left_asleep over_reached 0 refl over_quiet 0

lock_exclusive_example : inside locking (runner_owns 0) ≡ false
lock_exclusive_example =
    lock_exclusive locking_reached (stopper_owns 0) (runner_owns 0) (ground arith) refl

-- Thread 0 takes the lock again, sees the flag, and returns.
abbrev leaving_run : Sched
leaving_run = run_to (run_to over 0 testing (some (runner_owns 0))) 0 leaving (some (runner_owns 0))

abbrev finished : Sched
finished = run_to leaving_run 0 returned none

asked-Run : Run 1 start 4 asked
asked-Run =
    more
      (more
        (more (more stay (run_acquire 0 refl refl) (omega arith)) (test_again 0 refl refl)
          (omega arith))
        (sleep 0 refl) (omega arith))
      (set_flag 0 refl) (omega arith)

locking-Run : Run 1 asked 1 locking
locking-Run = more stay (stop_acquire 0 refl refl) (omega arith)

finished-Run : Run 1 start 10 finished
finished-Run =
    more
      (more
        (more
          (more
            (more (more asked-Run (stop_acquire 0 refl refl) (omega arith)) (wake_all 0 refl)
              (omega arith))
            (stop_release 0 refl) (omega arith))
          (run_reacquire 0 refl refl) (omega arith))
        (test_done 0 refl (omega arith)) (omega arith))
      (run_release 0 refl) (omega arith)

finished-IsStuck : IsStuck 1 finished
finished-IsStuck t (run_acquire i at free) lt = ground arith
finished-IsStuck t (test_again i at flag) lt = ground arith
finished-IsStuck t (test_done i at flag) lt = ground arith
finished-IsStuck t (sleep i at) lt = ground arith
finished-IsStuck t (wake_alone i at) lt = refl
finished-IsStuck t (run_reacquire i at free) lt = ground arith
finished-IsStuck t (run_release i at) lt = ground arith
finished-IsStuck t (set_flag j at) lt = ground arith
finished-IsStuck t (stop_acquire j at free) lt = ground arith
finished-IsStuck t (wake_all j at) lt = ground arith
finished-IsStuck t (stop_release j at) lt = ground arith

stop_bounds_steps_example : 1 ≤ 10 * 1
stop_bounds_steps_example = stop_bounds_steps (omega arith) locking-Run

everyone_returns_example :
    (finished.runner 0 ≡ returned) × (finished.stopper 0 ≡ stopped) × (finished.lock ≡ none)
everyone_returns_example =
    everyone_returns finished-Run (omega arith) finished-IsStuck 0 (omega arith)
