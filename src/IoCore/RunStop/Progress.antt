-- ===== src/IoCore/RunStop/Progress.antt =====
-- Once a thread has called `stop`, every thread comes out of `run`
-- (src/platform/windows/win_io_core.cpp).
use firelink_net.Prelude.{
  total-bound, total-update, ℕ, suc, ◌+◌, ◌*◌, ◌<◌, ◌≤◌, ◌≡◌, ◌≢◌, ◌⊎◌, inl, inr, Option, none,
  some, true, false, arith, refl,
}
use firelink_net.IoCore.RunStop.{
  RunPc, outside, testing, yielding, asleep, waking, leaving, returned, StopPc, idle, flagged,
  locked, woken, stopped, Owner, runner_owns, stopper_owns, Sched, Step, run_acquire, test_again,
  test_done, sleep, wake_alone, run_to, run_reacquire, run_release, set_flag, stop_acquire,
  wake_all, stop_release, start, Reach, here, next,
}
use firelink_net.IoCore.RunStop.Invariant.{run_holds, Inv, Reach-Inv}
use firelink_net.IoCore.RunStop.Threads.{
  actor, Run, stay, more, IsStuck, run_left, stop_left, steps_left, total-wake, Owned,
}

-- A step of a thread in `run` gives the lock up, takes it, or leaves it as it is.
abbrev HandsOn : Sched → ℕ → RunPc → Option Owner → Type 0
HandsOn s i pc l =
    (l ≡ none)
    ⊎ (((l ≡ some (runner_owns i)) × (run_holds pc ≡ true))
        ⊎ ((l ≡ s.lock) × (run_holds pc ≡ run_holds (s.runner i))))

run_to-Owned :
    (n : ℕ) (s : Sched) (i : ℕ) (pc : RunPc) (l : Option Owner)
    → i < n
    → HandsOn s i pc l
    → Owned n s
    → Owned n (run_to s i pc l)
run_to-Owned n s i pc l lt hands o = record {
  owner_runs = λ k e. ground (arith, o.owner_runs k);
  owner_stops = λ j e. ground (arith, o.owner_stops j);
  runners = λ k h. ground (arith, o.runners k h);
  stoppers = o.stoppers;
}

Step-Owned : {s t : Sched} (n : ℕ) (st : Step s t) → actor st < n → Owned n s → Owned n t
Step-Owned {s} n (run_acquire i at free) lt o = run_to-Owned n s i _ _ lt (ground arith) o
Step-Owned {s} n (test_again i at flag) lt o = run_to-Owned n s i _ _ lt (ground arith) o
Step-Owned {s} n (test_done i at flag) lt o = run_to-Owned n s i _ _ lt (ground arith) o
Step-Owned {s} n (sleep i at) lt o = run_to-Owned n s i _ _ lt (ground arith) o
Step-Owned {s} n (wake_alone i at) lt o = run_to-Owned n s i _ _ lt (ground arith) o
Step-Owned {s} n (run_reacquire i at free) lt o = run_to-Owned n s i _ _ lt (ground arith) o
Step-Owned {s} n (run_release i at) lt o = run_to-Owned n s i _ _ lt (ground arith) o
Step-Owned n (set_flag j at) lt o = record {
  owner_runs = o.owner_runs;
  owner_stops = λ k e. ground (arith, o.owner_stops k);
  runners = o.runners;
  stoppers = λ k h. ground (arith, o.stoppers k h);
}
Step-Owned n (stop_acquire j at free) lt o = record {
  owner_runs = λ k e. ground (arith, o.owner_runs k);
  owner_stops = λ k e. ground (arith, o.owner_stops k);
  runners = o.runners;
  stoppers = λ k h. ground (arith, o.stoppers k h);
}
Step-Owned n (wake_all j at) lt o = record {
  owner_runs = λ k e. ground (arith, o.owner_runs k);
  owner_stops = λ k e. ground (arith, o.owner_stops k);
  runners = λ k h. ground (arith, o.runners k h);
  stoppers = λ k h. ground (arith, o.stoppers k h);
}
Step-Owned n (stop_release j at) lt o = record {
  owner_runs = λ k e. ground (arith, o.owner_runs k);
  owner_stops = λ k e. ground (arith, o.owner_stops k);
  runners = o.runners;
  stoppers = λ k h. ground (arith, o.stoppers k h);
}

Run-Reach : {n k : ℕ} {s : Sched} → Run n start k s → Reach start s
Run-Reach stay = here
Run-Reach (more r st lt) = next (Run-Reach r) st

Run-Owned : {n k : ℕ} {s : Sched} → Run n start k s → Owned n s
Run-Owned stay = record {
  owner_runs = λ i e. cc;
  owner_stops = λ j e. cc;
  runners = λ i h. refl;
  stoppers = λ j h. refl;
}
Run-Owned {n} (more r st lt) = Step-Owned n st lt (Run-Owned r)

-- Once the flag is set, every step brings the threads nearer to the end, and the flag stays.
Step-steps_left :
    {s t : Sched} (n : ℕ) (st : Step s t)
    → actor st < n
    → s.stop_requested ≢ 0
    → (suc (steps_left n t) ≤ steps_left n s) × (t.stop_requested ≢ 0)
Step-steps_left {s} n (run_acquire i at free) lt q =
    ground (arith, total-update run_left i testing s.runner n)
Step-steps_left {s} n (test_again i at flag) lt q = absurd (q flag)
Step-steps_left {s} n (test_done i at flag) lt q =
    ground (arith, total-update run_left i leaving s.runner n)
Step-steps_left {s} n (sleep i at) lt q = ground (arith, total-update run_left i asleep s.runner n)
Step-steps_left {s} n (wake_alone i at) lt q =
    ground (arith, total-update run_left i waking s.runner n)
Step-steps_left {s} n (run_reacquire i at free) lt q =
    ground (arith, total-update run_left i testing s.runner n)
Step-steps_left {s} n (run_release i at) lt q =
    ground (arith, total-update run_left i returned s.runner n)
Step-steps_left {s} n (set_flag j at) lt q =
    ground (arith, total-update stop_left j flagged s.stopper n)
Step-steps_left {s} n (stop_acquire j at free) lt q =
    ground (arith, total-update stop_left j locked s.stopper n)
Step-steps_left {s} n (wake_all j at) lt q =
    ground (arith, total-update stop_left j woken s.stopper n, total-wake n s.runner)
Step-steps_left {s} n (stop_release j at) lt q =
    ground (arith, total-update stop_left j stopped s.stopper n)

Run-steps_left :
    {n : ℕ} {s : Sched} {k : ℕ} {t : Sched}
    → s.stop_requested ≢ 0
    → Run n s k t
    → (k + steps_left n t ≤ steps_left n s) × (t.stop_requested ≢ 0)
Run-steps_left q stay = (omega arith, q)
Run-steps_left {n} q (more r st lt) =
    let ih = Run-steps_left q r in
    let one = Step-steps_left n st lt ih.1 in (omega (arith, ih.0, one.0), one.1)

steps_left_bound : (n : ℕ) (s : Sched) → steps_left n s ≤ 10 * n
steps_left_bound n s = omega (
  arith,
  total-bound run_left 6 (λ (p : RunPc). ground arith) s.runner n,
  total-bound stop_left 4 (λ (p : StopPc). ground arith) s.stopper n,
)

-- After some `stop` has set the flag, `n` threads in `run` and `n` in `stop` can take at most `10 *
-- n` more steps together, however they interleave: nobody loops in `run` any more.
pub stop_bounds_steps : {n k : ℕ} {s t : Sched} → s.stop_requested ≢ 0 → Run n s k t → k ≤ 10 * n
stop_bounds_steps {n} {k} {s} q r = omega (arith, (Run-steps_left q r).0, steps_left_bound n s)

module _ {n : ℕ} {s : Sched} (v : Inv s) (o : Owned n s) (q : s.stop_requested ≢ 0)
    (stuck : IsStuck n s) where
  runner_waits :
      (i : ℕ)
      → i < n
      → (p : RunPc) → s.runner i ≡ p
      → (p ≡ asleep) ⊎ ((p ≡ returned) ⊎ ((run_holds p ≡ false) × (s.lock ≢ none)))
  runner_waits i lt outside e =
      inr (inr (refl, λ free. ground (arith, stuck _ (run_acquire i e free) lt)))
  runner_waits i lt testing e = absurd (ground (arith, stuck _ (test_done i e q) lt))
  runner_waits i lt yielding e = absurd (ground (arith, stuck _ (sleep i e) lt))
  runner_waits i lt asleep e = inl refl
  runner_waits i lt waking e =
      inr (inr (refl, λ free. ground (arith, stuck _ (run_reacquire i e free) lt)))
  runner_waits i lt leaving e = absurd (ground (arith, stuck _ (run_release i e) lt))
  runner_waits i lt returned e = inr (inl refl)

  stopper_waits :
      (j : ℕ)
      → j < n
      → (p : StopPc) → s.stopper j ≡ p
      → (p ≡ stopped) ⊎ ((p ≡ flagged) × (s.lock ≢ none))
  stopper_waits j lt idle e = absurd (ground (arith, stuck _ (set_flag j e) lt))
  stopper_waits j lt flagged e =
      inr (refl, λ free. ground (arith, stuck _ (stop_acquire j e free) lt))
  stopper_waits j lt locked e = absurd (ground (arith, stuck _ (wake_all j e) lt))
  stopper_waits j lt woken e = absurd (ground (arith, stuck _ (stop_release j e) lt))
  stopper_waits j lt stopped e = inl refl

  -- Nobody has the lock.
  lock_free : (l : Option Owner) → s.lock ≡ l → s.lock ≡ none
  lock_free none e = e
  lock_free (some (runner_owns i)) e =
      absurd (grind (arith, o.owner_runs i e, o.runners i, runner_waits i))
  lock_free (some (stopper_owns j)) e =
      absurd (grind (arith, o.owner_stops j e, o.stoppers j, stopper_waits j))

  stoppers_done : (j : ℕ) → j < n → s.stopper j ≡ stopped
  stoppers_done j lt = ground (arith, stopper_waits j lt (s.stopper j), lock_free s.lock)

  runners_done : (i : ℕ) → i < n → s.runner i ≡ returned
  runners_done i lt = elim (runner_waits i lt (s.runner i) refl) [
    | inl dozes ↦
        let w = v.no_lost_wakeup i (ground arith) q in
        absurd (ground (arith, w.1, stoppers_done w.0, o.stoppers w.0))
    | inr rest ↦ ground (arith, lock_free s.lock)
  ]

-- Let `n` threads call `run` and `n` others `stop`, in any interleaving, and let some `stop` have
-- set the flag. If then none of them can take a step, a wake-up without a reason aside, then every
-- one has returned from `run` or from `stop`, and the lock is free: nobody depends on such a
-- wake-up, and there is no deadlock.
pub everyone_returns :
    {n k : ℕ} {s : Sched}
    → Run n start k s
    → s.stop_requested ≢ 0
    → IsStuck n s
    → (i : ℕ) → i < n
    → (s.runner i ≡ returned) × (s.stopper i ≡ stopped) × (s.lock ≡ none)
everyone_returns {n} {k} {s} r q stuck i lt =
    let v = Reach-Inv (Run-Reach r) in
    let o = Run-Owned r in
    (
      runners_done v o q stuck i lt,
      stoppers_done v o q stuck i lt,
      lock_free v o q stuck s.lock refl,
    )
