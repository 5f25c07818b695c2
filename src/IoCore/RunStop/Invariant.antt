-- ===== src/IoCore/RunStop/Invariant.antt =====
-- No wake-up is lost between `run` and `stop`, and the lock admits one thread
-- (src/platform/windows/win_io_core.cpp).
use firelink_net.Prelude.{Bool-cases, inl, inr, ℕ, ◌≡◌, ◌≢◌, Bool, true, false, some, arith}
use firelink_net.IoCore.RunStop.{
  RunPc, testing, yielding, asleep, leaving, returned, StopPc, idle, flagged, locked, woken, Owner,
  runner_owns, stopper_owns, Sched, Step, run_acquire, test_again, test_done, sleep, wake_alone,
  run_reacquire, run_release, set_flag, stop_acquire, wake_all, stop_release, start, Reach, here,
  next,
}

-- The thread has the lock.
abbrev pub run_holds : RunPc → Bool
run_holds testing = true
run_holds yielding = true
run_holds leaving = true
run_holds _ = false

abbrev pub stop_holds : StopPc → Bool
stop_holds locked = true
stop_holds woken = true
stop_holds _ = false

-- The thread sleeps, or will without another look at the flag.
abbrev pub sleepy : RunPc → Bool
sleepy yielding = true
sleepy asleep = true
sleepy _ = false

abbrev pub done : RunPc → Bool
done leaving = true
done returned = true
done _ = false

-- The thread has set the flag and has still to wake the sleepers.
abbrev pub pending : StopPc → Bool
pending flagged = true
pending locked = true
pending _ = false

abbrev pub has_begun : StopPc → Bool
has_begun idle = false
has_begun _ = true

pub record Inv (s : Sched) : Type 0 where
  pub run_lock : (i : ℕ) → run_holds (s.runner i) ≡ true → s.lock ≡ some (runner_owns i)
  pub stop_lock : (j : ℕ) → stop_holds (s.stopper j) ≡ true → s.lock ≡ some (stopper_owns j)
  pub left_asked : (i : ℕ) → done (s.runner i) ≡ true → s.stop_requested ≢ 0
  pub flag_set : (j : ℕ) → has_begun (s.stopper j) ≡ true → s.stop_requested ≢ 0
  pub no_lost_wakeup :
      (i : ℕ)
      → sleepy (s.runner i) ≡ true
      → s.stop_requested ≢ 0
      → (j : ℕ) × (pending (s.stopper j) ≡ true)

start-Inv : Inv start
start-Inv = record {
  run_lock = λ i h. cc;
  stop_lock = λ j h. cc;
  left_asked = λ i h. cc;
  flag_set = λ j h. cc;
  no_lost_wakeup = λ i h. cc;
}

-- Every step of every thread keeps the invariant.
Step-Inv : {s t : Sched} → Step s t → Inv s → Inv t
Step-Inv {s} (run_acquire i at free) v = record {
  run_lock = λ k h. ground (arith, v.run_lock k, v.run_lock i);
  stop_lock = λ j h. ground (arith, v.stop_lock j, v.run_lock i);
  left_asked = λ k h. ground (arith, v.left_asked k);
  flag_set = λ j h. ground (arith, v.flag_set j);
  no_lost_wakeup = λ k h q. v.no_lost_wakeup k (ground arith) q;
}
Step-Inv {s} (test_again i at flag) v = record {
  run_lock = λ k h. ground (arith, v.run_lock k, v.run_lock i);
  stop_lock = λ j h. ground (arith, v.stop_lock j, v.run_lock i);
  left_asked = λ k h. ground (arith, v.left_asked k);
  flag_set = λ j h. ground (arith, v.flag_set j);
  no_lost_wakeup = λ k h q. v.no_lost_wakeup k (ground arith) q;
}
Step-Inv {s} (test_done i at flag) v = record {
  run_lock = λ k h. ground (arith, v.run_lock k, v.run_lock i);
  stop_lock = λ j h. ground (arith, v.stop_lock j, v.run_lock i);
  left_asked = λ k h. ground (arith, v.left_asked k);
  flag_set = λ j h. ground (arith, v.flag_set j);
  no_lost_wakeup = λ k h q. v.no_lost_wakeup k (ground arith) q;
}
Step-Inv {s} (sleep i at) v = record {
  run_lock = λ k h. ground (arith, v.run_lock k, v.run_lock i);
  stop_lock = λ j h. ground (arith, v.stop_lock j, v.run_lock i);
  left_asked = λ k h. ground (arith, v.left_asked k);
  flag_set = λ j h. ground (arith, v.flag_set j);
  no_lost_wakeup = λ k h q. v.no_lost_wakeup k (ground arith) q;
}
Step-Inv {s} (wake_alone i at) v = record {
  run_lock = λ k h. ground (arith, v.run_lock k, v.run_lock i);
  stop_lock = λ j h. ground (arith, v.stop_lock j, v.run_lock i);
  left_asked = λ k h. ground (arith, v.left_asked k);
  flag_set = λ j h. ground (arith, v.flag_set j);
  no_lost_wakeup = λ k h q. v.no_lost_wakeup k (ground arith) q;
}
Step-Inv {s} (run_reacquire i at free) v = record {
  run_lock = λ k h. ground (arith, v.run_lock k, v.run_lock i);
  stop_lock = λ j h. ground (arith, v.stop_lock j, v.run_lock i);
  left_asked = λ k h. ground (arith, v.left_asked k);
  flag_set = λ j h. ground (arith, v.flag_set j);
  no_lost_wakeup = λ k h q. v.no_lost_wakeup k (ground arith) q;
}
Step-Inv {s} (run_release i at) v = record {
  run_lock = λ k h. ground (arith, v.run_lock k, v.run_lock i);
  stop_lock = λ j h. ground (arith, v.stop_lock j, v.run_lock i);
  left_asked = λ k h. ground (arith, v.left_asked k);
  flag_set = λ j h. ground (arith, v.flag_set j);
  no_lost_wakeup = λ k h q. v.no_lost_wakeup k (ground arith) q;
}
Step-Inv {s} (set_flag j at) v = record {
  run_lock = λ i h. v.run_lock i h;
  stop_lock = λ k h. ground (arith, v.stop_lock k);
  left_asked = λ i h. omega arith;
  flag_set = λ k h. omega arith;
  no_lost_wakeup = λ i h q. (j, ground arith);
}
Step-Inv {s} (stop_acquire j at free) v = record {
  run_lock = λ i h. ground (arith, v.run_lock i);
  stop_lock = λ k h. ground (arith, v.stop_lock k);
  left_asked = λ i h. v.left_asked i h;
  flag_set = λ k h. ground (arith, v.flag_set k);
  no_lost_wakeup = λ i h q. let w = v.no_lost_wakeup i h q in (w.0, ground arith);
}
Step-Inv {s} (wake_all j at) v = record {
  run_lock = λ i h. ground (arith, v.run_lock i);
  stop_lock = λ k h. ground (arith, v.stop_lock k);
  left_asked = λ i h. ground (arith, v.left_asked i);
  flag_set = λ k h. ground (arith, v.flag_set k);
  no_lost_wakeup = λ i h q. absurd (ground (arith, v.run_lock i, v.stop_lock j));
}
Step-Inv {s} (stop_release j at) v = record {
  run_lock = λ i h. ground (arith, v.run_lock i, v.stop_lock j);
  stop_lock = λ k h. ground (arith, v.stop_lock k, v.stop_lock j);
  left_asked = λ i h. v.left_asked i h;
  flag_set = λ k h. ground (arith, v.flag_set k);
  no_lost_wakeup = λ i h q. let w = v.no_lost_wakeup i h q in (w.0, ground arith);
}

pub Reach-Inv : {s : Sched} → Reach start s → Inv s
Reach-Inv here = start-Inv
Reach-Inv (next r st) = Step-Inv st (Reach-Inv r)

-- However the threads interleave: if some `stop` has set the flag and every `stop` that has set it
-- has also woken the sleepers, then no thread of `run` sleeps, and none is about to.
pub no_thread_left_asleep :
    {s : Sched}
    → Reach start s
    → (j : ℕ) → has_begun (s.stopper j) ≡ true
    → ((k : ℕ) → pending (s.stopper k) ≡ false)
    → (i : ℕ) → sleepy (s.runner i) ≡ false
no_thread_left_asleep {s} r j began quiet i = elim (Bool-cases (sleepy (s.runner i))) [
  | inl h ↦ absurd (woken_by (v.no_lost_wakeup i h (v.flag_set j began)))
  | inr h ↦ h
]
  where
    v : Inv s
    v = Reach-Inv r

    woken_by : (k : ℕ) × (pending (s.stopper k) ≡ true) → ⊥
    woken_by (k, p) = ground (arith, quiet k)

-- The thread is between the acquiring and the releasing of the lock, and does not sleep.
abbrev pub inside : Sched → Owner → Bool
inside s (runner_owns i) = run_holds (s.runner i)
inside s (stopper_owns j) = stop_holds (s.stopper j)

inside_owns : {s : Sched} (a : Owner) → Inv s → inside s a ≡ true → s.lock ≡ some a
inside_owns (runner_owns i) v h = v.run_lock i h
inside_owns (stopper_owns j) v h = v.stop_lock j h

-- In every interleaving, while a thread has the lock no other one has it, be they in `run` or in
-- `stop`.
pub lock_exclusive :
    {s : Sched} → Reach start s → (a b : Owner) → a ≢ b → inside s a ≡ true → inside s b ≡ false
lock_exclusive {s} r a b ne ha = elim (Bool-cases (inside s b)) [
  | inl hb ↦ absurd (ground (arith, inside_owns a v ha, inside_owns b v hb))
  | inr out ↦ out
]
  where
    v : Inv s
    v = Reach-Inv r
