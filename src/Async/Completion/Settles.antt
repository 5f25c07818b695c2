-- ===== src/Async/Completion/Settles.antt =====
-- The completion routine and the work that it posted, together (src/platform/windows/win_socket.cpp).
use firelink_net.Prelude.{refl, ℕ, ◌≡◌, ◌⊎◌, ◌&&◌, none, some, List, [], ◌∷◌, if◌then◌else◌, arith}
use firelink_net.Os.{Os}
use firelink_net.Os.Laws.{SetsLastError}
use firelink_net.Async.Store.{IoData, Work, Store}
use firelink_net.Async.Completion.{is_given, run_work, socket_io_routine}
use firelink_net.Async.Completion.Fates.{CalledOnce, Waiting, Posted, Finished}
use firelink_net.Async.Completion.Lifetime.{socket_io_routine_outcome}

run_work_outcome :
    {W : Type 0} (s : Store W) (p result n : ℕ) (d : IoData) (w : Work)
    → w.io_data ≡ p
    → w.handler ≡ d.user_handler
    → Waiting d result n (s.heap p)
    → let s' = (run_work w s).1 in
      CalledOnce d result n s'.called s.called × (s'.deleted ≡ p ∷ s.deleted) × (s'.heap p ≡ none)
unfolding run_work
run_work_outcome s p result n d w wp wf waiting = ground arith

-- The user thread pool runs a list of work.
abbrev pub run_all : {W : Type 0} → List Work → Store W → Store W
run_all [] s = s
run_all (w ∷ ws) s = run_all ws (run_work w s).1

settle :
    {W : Type 0} (s s1 : Store W) (p result n : ℕ) (d : IoData) (ws : List Work)
    → s1.posted ≡ ws
    → s.posted ≡ []
    → Posted s s1 p d result n ⊎ Finished s s1 p d result n
    → let s2 = run_all ws s1 in
      (s2.heap p ≡ none)
      × (s2.deleted ≡ p ∷ s.deleted)
      × (if is_given d.user_handler && s.machine.core_alive
          then CalledOnce d result n s2.called s.called
          else s2.called ≡ s.called)
settle s s1 p result n d [] e none_posted h = ground arith
settle s s1 p result n d (w ∷ []) e none_posted h =
    ground (arith, run_work_outcome s1 p result n d w)
settle s s1 p result n d (w ∷ v ∷ ws) e none_posted h = absurd (ground arith)

-- When an operation on a live `IOData` completes while no other work is posted, then after the
-- routine and whatever it posted have run, the `IOData` has been deleted once; the handler that the
-- operation was begun with has been called once if it was given and the core is alive, and no
-- handler has been called otherwise.
-- Condition: a failed call of the system sets the last error, to a code that is not 0.
pub completion_settles :
    (os : Os)
    → SetsLastError os
    → (s : Store os.World) (p result n : ℕ) (d : IoData) → s.heap p ≡ some d
    → s.posted ≡ []
    → let s1 = (socket_io_routine os p result n s).1 in
      let s2 = run_all s1.posted s1 in
      (s2.heap p ≡ none)
      × (s2.deleted ≡ p ∷ s.deleted)
      × (if is_given d.user_handler && s.machine.core_alive
          then CalledOnce d result n s2.called s.called
          else s2.called ≡ s.called)
completion_settles os law s p result n d live none_posted =
    let s1 = (socket_io_routine os p result n s).1 in
    settle s s1 p result n d s1.posted refl none_posted
      (socket_io_routine_outcome os law s p result n d live)
