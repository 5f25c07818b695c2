-- ===== src/Examples/EchoClient/Ledger.antt =====
-- What the client holds of the system when it ends well
-- (examples/async_echo_client/async_echo_client.cpp).
use firelink_net.Prelude.{update, ℕ, ◌≡◌, true, some, arith}
use firelink_net.Types.{ipv4, stream, tcp}
use firelink_net.Os.{Os}
use firelink_net.Os.Laws.{SetsLastError}
use firelink_net.Os.Ledger.{sock, winsock, Holds}
use firelink_net.Socket.State.{new_socket, socket, close}
use firelink_net.Socket.Lifecycle.{socket-sock, close_gives_back}
use firelink_net.IoCore.Threadpool.{Threadpool}
use firelink_net.IoCore.Extensions.{Extensions}
use firelink_net.IoCore.Core.{WinIoCore, new_core, initialize, create}
use firelink_net.IoCore.Core.Shutdown.{initialize-Holds, release_gives_back, release-winsock}
use firelink_net.Async.Store.{Store, S}
use firelink_net.Async.Start.{start_connect}
use firelink_net.Async.Start.Ledger.{Kept, start_connect_quiet}
use firelink_net.Examples.Buffer.{two_threads, echo_ep, release_and_fail}
use firelink_net.Examples.EchoClient.{
  run_and_release, connect_and_run, open_connection, client_main,
}
use firelink_net.Examples.Ledger.{socket-winsock, close-winsock, IsTame, Ends, held}

module _ (os : Os) (blocked : S os.World (Unit {0})) (h : ℕ) (tame : IsTame h blocked)
    (law : SetsLastError os) where
  run_and_release-Ends :
      (core : WinIoCore) (s : Store os.World)
      → (run_and_release os blocked core s).0 ≡ 0
      → Ends h s (run_and_release os blocked core s).1 (held h s 0)
  unfolding run_and_release release_and_fail
  run_and_release-Ends core s e =
      let b = (blocked s).1 in
      let c = close os (b.sockets 0) b.machine in
      ground (
        arith,
        tame s,
        close_gives_back os (b.sockets 0) b.machine h law,
        close-winsock os h (b.sockets 0) b.machine,
        release_gives_back os core c.1 h,
        release-winsock os law core c.1,
      )

  connect_and_run-Ends :
      (core : WinIoCore) (s : Store os.World)
      → (connect_and_run os blocked core s).0 ≡ 0
      → Ends h s (connect_and_run os blocked core s).1 (held h s 0)
  unfolding connect_and_run release_and_fail
  connect_and_run-Ends core s e =
      let t = (start_connect os 0 echo_ep (some 1) s).1 in
      ground (arith, start_connect_quiet os h 0 echo_ep (some 1) s, run_and_release-Ends core t)

  open_connection-Ends :
      (core : WinIoCore) (s : Store os.World)
      → (open_connection os blocked core s).0 ≡ 0
      → Ends h s (open_connection os blocked core s).1 0
  unfolding open_connection release_and_fail
  open_connection-Ends core s e =
      let r = socket os new_socket ipv4 stream tcp s.machine in
      let t = record s {
        machine = r.1;
        sockets = update (update s.sockets 0 new_socket) 0 r.0.1;
      } in
      ground (
        arith,
        socket-sock os new_socket s.machine h ipv4 stream tcp law,
        socket-winsock os h new_socket ipv4 stream tcp s.machine,
        connect_and_run-Ends core t,
      )

  -- If the client's `main` returns 0, and what happens while it is blocked in `run` neither starts
  -- nor ends Winsock, neither opens nor closes the handle `h`, and leaves those of `main` in their
  -- objects, then `main` has closed the handle `h` as often as it opened it; but Winsock has been
  -- started once more often than it was ended, since `create` has already initialised the core that
  -- `main` initialises again.
  -- Condition: a failed call of the system sets the last error, to a code that is not 0.
  pub client_main_ledger :
      (io user : Threadpool) (x : Extensions) (s : Store os.World)
      → (client_main os blocked io user x s).0 ≡ 0
      → let t = (client_main os blocked io user x s).1 in
        Holds winsock 0 s.machine.trace t.machine.trace 1 × Kept sock h s t
  unfolding client_main create
  client_main_ledger io user x s e =
      let a = initialize os (new_core two_threads io user x) s.machine in
      let m = record (a.1) { core_alive = true } in
      let b = initialize os a.0.1 m in
      ground (
        arith,
        initialize-Holds os (new_core two_threads io user x) s.machine h law,
        initialize-Holds os a.0.1 m h law,
        open_connection-Ends b.0.1 (record s { machine = b.1 }),
      )
