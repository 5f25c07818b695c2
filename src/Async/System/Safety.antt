-- ===== src/Async/System/Safety.antt =====
-- What holds of every `IOData` in every interleaving of operations
-- (src/platform/windows/win_socket.cpp).
use firelink_net.Prelude.{one, count, ℕ, ◌+◌, ◌≤◌, ◌≡◌, ◌⊎◌, true, false, refl, arith}
use firelink_net.Os.{Os, Machine}
use firelink_net.Os.Laws.{SetsLastError}
use firelink_net.Socket.State.{WinSocket}
use firelink_net.Async.Start.Effect.{is_live}
use firelink_net.Async.System.{Sys, idle, Reach, here, next}
use firelink_net.Async.System.Phases.{Phase, unused, is_pending, is_queued, is_gone}
use firelink_net.Async.System.Follows.{Follows}
use firelink_net.Async.System.Counts.{count_work}
use firelink_net.Async.System.Refines.{Sim, Step-Matched}

one_phase : (p : Phase) → one (is_pending p) + one (is_queued p) + one (is_gone p) ≤ 1
one_phase p = ground arith

module _ (os : Os) (law : SetsLastError os) (m : Machine os.World) (sockets : ℕ → WinSocket) where
  -- However starts, completions and posted work interleave with one another and with everything
  -- else, there are phases, at first all unused, that follow the run step by step, and the state
  -- reached implements the last ones. A start that succeeds makes the next `IOData` pending; one
  -- that fails makes it gone, or lost for ever, or makes none. A completion makes its pending
  -- `IOData` queued or gone, posted work its queued one gone; no step changes any other phase.
  -- Pending is in flight once, queued is posted once, gone is deleted once, and exactly what is
  -- unused or gone is off the heap.
  -- Condition: a failed call of the system sets the last error, to a code that is not 0.
  pub Reach-refines :
      {t : Sys os.World} (r : Reach os (idle m sockets) t) → (f : ℕ → Phase) × Follows r f × Sim t f
  Reach-refines here = ((λ p. unused), refl, λ p. ground arith)
  Reach-refines (next {t} {u} r st) =
      let (f, follows, sim) = Reach-refines r in
      let (g, allowed, sim') = Step-Matched os law t u f st sim in (g, (f, follows, allowed), sim')

  -- In every interleaving, where an operation is in flight from the acceptance of its overlapped
  -- call by the system to its completion, whatever the start method returned: an `IOData` is
  -- deleted at most once, and has one owner at most: it is in flight once, or posted once, or
  -- deleted, never two of these. One that is in flight or posted is still on the heap, and one that
  -- was deleted is not.
  -- Condition: a failed call of the system sets the last error, to a code that is not 0.
  pub one_owner :
      {t : Sys os.World}
      → Reach os (idle m sockets) t
      → (p : ℕ)
      → let flying = count p t.in_flight in
        let queued = count_work p t.store.posted in
        let deleted = count p t.store.deleted in
        let live = is_live (t.store.heap p) in
        (flying + queued + deleted ≤ 1)
        × ((live ≡ true) ⊎ ((flying ≡ 0) × (queued ≡ 0)))
        × ((live ≡ false) ⊎ (deleted ≡ 0))
  one_owner r p = let (f, moves, sim) = Reach-refines r in ground (arith, sim p, one_phase (f p))
