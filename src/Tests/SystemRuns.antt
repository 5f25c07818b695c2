-- ===== src/Tests/SystemRuns.antt =====
-- The theorems on interleaved operations and posted closures, at short runs.
use firelink_net.Prelude.{ℕ, ◌+◌, ◌≤◌, ◌≡◌, ◌⊎◌, refl, true, false, some, List, [], ◌∷◌, count}
use firelink_net.Types.{success}
use firelink_net.Os.Base.{Reply}
use firelink_net.Os.{Machine}
use firelink_net.Os.Script.{returns, scripted, start, scripted-SetsLastError}
use firelink_net.Socket.State.{WinSocket}
use firelink_net.Async.Start.{start_recv}
use firelink_net.Async.Start.Effect.{is_live}
use firelink_net.Async.System.{
  Op, perform, Sys, after_start, starts, completes, runs, idle, Reach, here, next,
}
use firelink_net.Async.System.Phases.{Phase}
use firelink_net.Async.System.Follows.{Follows}
use firelink_net.Async.System.Refines.{Sim}
use firelink_net.Async.System.Drains.{Drain, rest, then_step, runs_left, calls, work_bounded}
use firelink_net.Async.Store.{Work, read_handler}
use firelink_net.Endpoint.{blank}
use firelink_net.Async.System.Safety.{Reach-refines, one_owner}
use firelink_net.Async.System.Counts.{count_work}
use firelink_net.Async.Completion.{socket_io_routine, run_work}
use firelink_net.IoCore.Post
use firelink_net.IoCore.Post.Ownership.{OwnedAt, closure_owned}
use firelink_net.Tests.Fixtures.{opened, buffer}

-- The notification, the read, and the handing over to the user thread pool all succeed.
abbrev reading : Machine (List Reply)
reading = start (returns 0 ∷ returns 0 ∷ returns 1 ∷ [])

abbrev sockets : ℕ → WinSocket
sockets i = opened

abbrev read : Op
read = Op.recv 1 buffer (some 4)

-- A read is in flight.
abbrev begun : Sys (List Reply)
begun = after_start (idle reading sockets) (perform scripted read (idle reading sockets).store)

-- It has completed, and its work is posted.
abbrev completed : Sys (List Reply)
completed = record {
  store = (socket_io_routine scripted 0 success 12 begun.store).1;
  in_flight = [];
}

completed_reached : Reach scripted (idle reading sockets) completed
unfolding perform start_recv
completed_reached = next (next here (starts read)) (completes [] 0 [] success 12 refl)

Reach-refines_example : (f : ℕ → Phase) × Follows completed_reached f × Sim completed f
Reach-refines_example =
    Reach-refines scripted scripted-SetsLastError reading sockets completed_reached

one_owner_example :
    let flying : ℕ = 0 in
    let queued = count_work 0 completed.store.posted in
    let deleted = count 0 completed.store.deleted in
    let live = is_live (completed.store.heap 0) in
    (flying + queued + deleted ≤ 1)
    × ((live ≡ true) ⊎ ((flying ≡ 0) × (queued ≡ 0)))
    × ((live ≡ false) ⊎ (deleted ≡ 0))
one_owner_example = one_owner scripted scripted-SetsLastError reading sockets completed_reached 0

-- The pool takes the first closure and refuses the second one.
abbrev two_posts : Machine (List Reply)
two_posts = start (returns 1 ∷ returns 0 ∷ [])

abbrev posted : Post.Closures (List Reply)
posted = (Post.post scripted 1 (Post.post scripted 1 (Post.empty two_posts)).1).1

posted_reached : Post.Reach scripted (Post.empty two_posts) posted
posted_reached =
    Post.Reach.next (Post.Reach.next Post.Reach.here (Post.Step.posts 1)) (Post.Step.posts 1)

closure_owned_example : OwnedAt posted 1
closure_owned_example = closure_owned scripted two_posts posted_reached 1

-- The work of the read 0.
abbrev work_of_read : Work
work_of_read = record {
  io_data = 0;
  handler = read_handler (some 4);
  local_ep = blank;
  peer_ep = blank;
}

-- Two reads were begun: the first has completed, and its work is posted; the second is in flight.
abbrev two_reads : Sys (List Reply)
two_reads =
    let s = after_start begun (perform scripted read begun.store) in
    record { store = record (s.store) { posted = work_of_read ∷ [] }; in_flight = 1 ∷ [] }

-- The posted work is run.
abbrev one_served : Sys (List Reply)
one_served = record two_reads {
  store = (run_work work_of_read (record (two_reads.store) { posted = [] })).1;
}

-- The second read completes.
abbrev both_completed : Sys (List Reply)
both_completed = record {
  store = (socket_io_routine scripted 1 success 12 one_served.store).1;
  in_flight = [];
}

reads-Drain : Drain scripted two_reads 2 both_completed
reads-Drain =
    then_step (then_step rest (runs [] work_of_read [] refl) refl)
      (completes [] 1 [] success 12 refl) refl

work_bounded_example :
    (2 + runs_left both_completed ≤ runs_left two_reads) × (calls both_completed ≤ calls two_reads)
work_bounded_example = work_bounded scripted scripted-SetsLastError reads-Drain
