-- ===== src/IoCore/RunStop.antt =====
-- `WinIOCore::run` and `WinIOCore::stop` (src/platform/windows/win_io_core.cpp) as interleavings of
-- any number of threads: a step is one call of the system or one look at the flag by one thread.
-- The lock admits one thread; a thread that sleeps on the condition variable has given the lock up,
-- and may also wake for no reason. `stop_requested_` is only reset by `initialize`, which is taken
-- not to run at the same time.
pub mod Invariant
pub mod Threads
pub mod Progress
use firelink_net.Prelude.{update, ℕ, ◌≡◌, ◌≢◌, Option, none, some, ◌==◌, if◌then◌else◌}

-- Where a thread stands in `run`.
pub data RunPc : Type 0 where
  outside : RunPc  -- before `AcquireSRWLockExclusive`
  testing : RunPc  -- has the lock, before the test of the loop
  yielding : RunPc  -- has the lock, before `SleepConditionVariableSRW`
  asleep : RunPc  -- sleeps, without the lock
  waking : RunPc  -- woken, wants the lock back
  leaving : RunPc  -- has the lock, after the loop
  returned : RunPc

-- Where a thread stands in `stop`.
pub data StopPc : Type 0 where
  idle : StopPc  -- before `InterlockedExchange`
  flagged : StopPc  -- before `AcquireSRWLockExclusive`
  locked : StopPc  -- has the lock, before `WakeAllConditionVariable`
  woken : StopPc  -- has the lock, before `ReleaseSRWLockExclusive`
  stopped : StopPc

pub data Owner : Type 0 where
  runner_owns stopper_owns : ℕ → Owner

pub record Sched : Type 0 where
  pub stop_requested : ℕ
  pub lock : Option Owner
  pub runner : ℕ → RunPc
  pub stopper : ℕ → StopPc

-- What `WakeAllConditionVariable` does to one thread.
abbrev pub wake : RunPc → RunPc
wake asleep = waking
wake outside = outside
wake testing = testing
wake yielding = yielding
wake waking = waking
wake leaving = leaving
wake returned = returned

abbrev pub run_to : Sched → ℕ → RunPc → Option Owner → Sched
run_to s i pc l = record s { runner = update s.runner i pc; lock = l }

abbrev pub stop_to : Sched → ℕ → StopPc → Option Owner → Sched
stop_to s j pc l = record s { stopper = update s.stopper j pc; lock = l }

pub data Step (s : Sched) : Sched → Type 0 where
  run_acquire :
      (i : ℕ)
      → s.runner i ≡ outside
      → s.lock ≡ none
      → Step s (run_to s i testing (some (runner_owns i)))
  test_again :
      (i : ℕ) → s.runner i ≡ testing → s.stop_requested ≡ 0 → Step s (run_to s i yielding s.lock)
  test_done :
      (i : ℕ) → s.runner i ≡ testing → s.stop_requested ≢ 0 → Step s (run_to s i leaving s.lock)
  sleep : (i : ℕ) → s.runner i ≡ yielding → Step s (run_to s i asleep none)
  wake_alone : (i : ℕ) → s.runner i ≡ asleep → Step s (run_to s i waking s.lock)
  run_reacquire :
      (i : ℕ)
      → s.runner i ≡ waking
      → s.lock ≡ none
      → Step s (run_to s i testing (some (runner_owns i)))
  run_release : (i : ℕ) → s.runner i ≡ leaving → Step s (run_to s i returned none)
  set_flag :
      (j : ℕ)
      → s.stopper j ≡ idle
      → Step s (record s { stopper = update s.stopper j flagged; stop_requested = 1 })
  stop_acquire :
      (j : ℕ)
      → s.stopper j ≡ flagged
      → s.lock ≡ none
      → Step s (stop_to s j locked (some (stopper_owns j)))
  wake_all :
      (j : ℕ)
      → s.stopper j ≡ locked
      → Step s (record s { stopper = update s.stopper j woken; runner = λ i. wake (s.runner i) })
  stop_release : (j : ℕ) → s.stopper j ≡ woken → Step s (stop_to s j stopped none)

-- No thread has come yet.
abbrev pub start : Sched
start = record { stop_requested = 0; lock = none; runner = λ i. outside; stopper = λ j. idle }

pub data Reach (s : Sched) : Sched → Type 0 where
  here : Reach s s
  next : {t u : Sched} → Reach s t → Step t u → Reach s u
