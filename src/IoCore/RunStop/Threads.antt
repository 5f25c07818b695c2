-- ===== src/IoCore/RunStop/Threads.antt =====
-- `run` and `stop` by finitely many threads (src/platform/windows/win_io_core.cpp): which steps the
-- first `n` threads take, what they have still to do, and what holds of the others.
use firelink_net.Prelude.{total, ℕ, zero, suc, ◌+◌, ◌<◌, ◌≤◌, ◌≡◌, Bool, true, false, some, arith}
use firelink_net.IoCore.RunStop.{
  RunPc, outside, testing, yielding, asleep, waking, leaving, returned, StopPc, idle, flagged,
  locked, woken, stopped, runner_owns, stopper_owns, Sched, wake, Step, run_acquire, test_again,
  test_done, sleep, wake_alone, run_reacquire, run_release, set_flag, stop_acquire, wake_all,
  stop_release,
}
use firelink_net.IoCore.RunStop.Invariant.{run_holds, stop_holds}

-- The number of the thread that takes the step, among those in `run` or those in `stop`.
abbrev pub actor : {s t : Sched} → Step s t → ℕ
actor (run_acquire i at free) = i
actor (test_again i at flag) = i
actor (test_done i at flag) = i
actor (sleep i at) = i
actor (wake_alone i at) = i
actor (run_reacquire i at free) = i
actor (run_release i at) = i
actor (set_flag j at) = j
actor (stop_acquire j at free) = j
actor (wake_all j at) = j
actor (stop_release j at) = j

-- The step is a wake-up for no reason.
abbrev pub is_spurious : {s t : Sched} → Step s t → Bool
is_spurious (wake_alone i at) = true
is_spurious (run_acquire i at free) = false
is_spurious (test_again i at flag) = false
is_spurious (test_done i at flag) = false
is_spurious (sleep i at) = false
is_spurious (run_reacquire i at free) = false
is_spurious (run_release i at) = false
is_spurious (set_flag j at) = false
is_spurious (stop_acquire j at free) = false
is_spurious (wake_all j at) = false
is_spurious (stop_release j at) = false

-- `k` steps of the first `n` threads in `run` and the first `n` in `stop`.
pub data Run (n : ℕ) (s : Sched) : ℕ → Sched → Type 0 where
  stay : Run n s zero s
  more : {k : ℕ} {t u : Sched} → Run n s k t → (st : Step t u) → actor st < n → Run n s (suc k) u

-- None of the threads can go on, but for a wake-up that has no reason.
abbrev pub IsStuck : ℕ → Sched → Type 0
IsStuck n s = (t : Sched) (st : Step s t) → actor st < n → is_spurious st ≡ true

-- How many steps a thread is from the end at most, once the flag is set.
abbrev pub run_left : RunPc → ℕ
run_left outside = 6
run_left yielding = 5
run_left asleep = 4
run_left waking = 3
run_left testing = 2
run_left leaving = 1
run_left returned = 0

abbrev pub stop_left : StopPc → ℕ
stop_left idle = 4
stop_left flagged = 3
stop_left locked = 2
stop_left woken = 1
stop_left stopped = 0

abbrev pub steps_left : ℕ → Sched → ℕ
steps_left n s = total run_left n s.runner + total stop_left n s.stopper

pub total-wake : (n : ℕ) (f : ℕ → RunPc) → total run_left n (λ i. wake (f i)) ≤ total run_left n f
total-wake zero f = omega arith
total-wake (suc n) f = ground (arith, total-wake n f)

-- The owner of the lock is where it should be, and the threads from `n` on have not come.
pub record Owned (n : ℕ) (s : Sched) : Type 0 where
  pub owner_runs : (i : ℕ) → s.lock ≡ some (runner_owns i) → run_holds (s.runner i) ≡ true
  pub owner_stops : (j : ℕ) → s.lock ≡ some (stopper_owns j) → stop_holds (s.stopper j) ≡ true
  pub runners : (i : ℕ) → n ≤ i → s.runner i ≡ outside
  pub stoppers : (j : ℕ) → n ≤ j → s.stopper j ≡ idle
