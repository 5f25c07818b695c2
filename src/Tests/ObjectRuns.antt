-- ===== src/Tests/ObjectRuns.antt =====
-- The theorem on sequences of calls, for a server with one connection.
use firelink_net.Prelude.{refl, arith, List, [], ◌∷◌}
use firelink_net.Types.{ipv4, stream, tcp}
use firelink_net.Os.Base.{Reply}
use firelink_net.Os.{Machine}
use firelink_net.Os.Ledger.{sock, lost_sock, thread_io, Holds, Remains}
use firelink_net.Os.Script.{returns, scripted, start, scripted-SetsLastError}
use firelink_net.Socket.State.{new_socket, socket}
use firelink_net.Socket.Sync.{bind, listen, accept}
use firelink_net.Socket.Objects.{
  Objects, opens, binds, listens, accepts, method, after, Calls, stay, more, all_new,
}
use firelink_net.Socket.Objects.Owned.{objects_own_handles}
use firelink_net.Tests.Fixtures.{home}

-- `WSASocket` returns 7, the thread-pool IO 9, `accept` 8 and its thread-pool IO 11.
abbrev serving : Machine (List Reply)
serving =
    start (returns 7 ∷ returns 9 ∷ returns 0 ∷ returns 0 ∷ returns 8 ∷ returns 0 ∷ returns 11 ∷ [])

-- The object 0 listens, and has accepted a connection into the object 1.
abbrev connected : Objects (List Reply)
connected = after scripted (accepts 0 1) (
    after scripted (listens 0 5)
      (after scripted (binds 0 home) (after scripted (opens 0 ipv4 stream tcp) (all_new serving))))

connected_reached : Calls scripted 2 (all_new serving) connected
unfolding method new_socket socket bind listen accept
connected_reached =
    let opened = more stay (opens 0 ipv4 stream tcp) (omega arith) refl in
    let bound = more opened (binds 0 home) (omega arith) refl in
    let listening = more bound (listens 0 5) (omega arith) refl in
    more listening (accepts 0 1) (omega arith) refl

objects_own_handles_example :
    Remains sock lost_sock 8 [] connected.machine.trace 1
    × Holds thread_io 8 [] connected.machine.trace 0
unfolding method new_socket socket bind listen accept
objects_own_handles_example =
    objects_own_handles scripted scripted-SetsLastError 8 2 serving connected_reached
