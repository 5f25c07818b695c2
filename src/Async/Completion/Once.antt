-- ===== src/Async/Completion/Once.antt =====
-- How much work a completion posts, and how many handlers it calls, at most
-- (src/platform/windows/win_socket.cpp).
use firelink_net.Prelude.{
  ℕ, suc, ◌≤◌, ◌≡◌, ◌⊎◌, refl, Option, none, some, List, [], ◌∷◌, length, arith,
}
use firelink_net.Os.{Os}
use firelink_net.Os.Laws.{SetsLastError}
use firelink_net.Async.Store.{Handler, IoData, Work, Invocation, Store}
use firelink_net.Async.Completion.{socket_io_routine, run_work}
use firelink_net.Async.Completion.Fates.{PostedOne, CalledOnce}
use firelink_net.Async.Completion.Lifetime.{socket_io_routine_outcome}

length-PostedOne :
    (p : ℕ) (f : Handler) (ws old : List Work) → PostedOne p f ws old → length ws ≡ suc (length old)
length-PostedOne p f [] old h = absurd h
length-PostedOne p f (w ∷ ws) old h = ground arith

length-CalledOnce :
    (d : IoData) (result n : ℕ) (is old : List Invocation)
    → CalledOnce d result n is old
    → length is ≡ suc (length old)
length-CalledOnce d result n [] old h = absurd h
length-CalledOnce d result n (i ∷ is) old h = ground arith

module _ (os : Os) where
  routine_of_none :
      (p result n : ℕ) (s : Store os.World)
      → s.heap p ≡ none
      → (socket_io_routine os p result n s).1 ≡ s
  unfolding socket_io_routine
  routine_of_none p result n s e = ground arith

  routine_at :
      (o : Option IoData) (p result n : ℕ) (s : Store os.World)
      → SetsLastError os
      → s.heap p ≡ o
      → let t = (socket_io_routine os p result n s).1 in
        ((length t.posted ≡ suc (length s.posted)) × (t.called ≡ s.called))
        ⊎ ((t.posted ≡ s.posted) × (length t.called ≤ suc (length s.called)))
  routine_at none p result n s law e = ground (arith, routine_of_none p result n s e)
  routine_at (some d) p result n s law e =
      let t = (socket_io_routine os p result n s).1 in
      ground (
        arith,
        socket_io_routine_outcome os law s p result n d e,
        length-PostedOne p d.user_handler t.posted s.posted,
        length-CalledOnce d result n t.called s.called,
      )

-- The completion routine posts one piece of work, or calls one handler at most.
pub routine_once :
    (os : Os)
    → SetsLastError os
    → (p result n : ℕ) (s : Store os.World)
    → let t = (socket_io_routine os p result n s).1 in
      ((length t.posted ≡ suc (length s.posted)) × (t.called ≡ s.called))
      ⊎ ((t.posted ≡ s.posted) × (length t.called ≤ suc (length s.called)))
routine_once os law p result n s = routine_at os (s.heap p) p result n s law refl

pub run_work_once :
    {W : Type 0} (w : Work) (s : Store W)
    → let t = (run_work w s).1 in (t.posted ≡ s.posted) × (length t.called ≤ suc (length s.called))
unfolding run_work
run_work_once w s = ground arith
