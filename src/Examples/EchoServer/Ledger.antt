-- ===== src/Examples/EchoServer/Ledger.antt =====
-- What the server holds of the system when it ends well
-- (examples/async_echo_server/async_echo_server.cpp).
use firelink_net.Prelude.{update, ℕ, ◌+◌, ◌≡◌, true, some, arith}
use firelink_net.Types.{ipv4, stream, tcp}
use firelink_net.Os.{Os}
use firelink_net.Os.Ledger.{sock, winsock, Holds}
use firelink_net.Os.Laws.{SetsLastError}
use firelink_net.Socket.State.{new_socket, socket, close}
use firelink_net.Socket.Sync.{bind, listen}
use firelink_net.Socket.Lifecycle.{socket-sock, socket_outcome, close_gives_back}
use firelink_net.IoCore.Threadpool.{Threadpool}
use firelink_net.IoCore.Extensions.{Extensions}
use firelink_net.IoCore.Core.{WinIoCore, new_core, initialize, create}
use firelink_net.IoCore.Core.Shutdown.{initialize-Holds, release_gives_back, release-winsock}
use firelink_net.Async.Store.{Store, S}
use firelink_net.Async.Start.{start_accept}
use firelink_net.Async.Start.Ledger.{Kept, bind_quiet, start_accept_quiet}
use firelink_net.Examples.Buffer.{two_threads, echo_ep, release_and_fail}
use firelink_net.Examples.EchoServer.{
  close_listener, run_and_close, accept_one, bind_and_listen, open_listener, server_main,
}
use firelink_net.Examples.Ledger.{socket-winsock, close-winsock, listen_quiet, IsTame, Ends, held}

module _ (os : Os) (blocked : S os.World (Unit {0})) (h : ℕ) (tame : IsTame h blocked)
    (law : SetsLastError os) where
  close_listener-Ends :
      (core : WinIoCore) (s : Store os.World)
      → (close_listener os blocked core s).0 ≡ 0
      → Ends h s (close_listener os blocked core s).1 (held h s 0)
  unfolding close_listener release_and_fail
  close_listener-Ends core s e =
      let c = close os (s.sockets 0) s.machine in
      ground (
        arith,
        close_gives_back os (s.sockets 0) s.machine h law,
        close-winsock os h (s.sockets 0) s.machine,
        release_gives_back os core c.1 h,
        release-winsock os law core c.1,
      )

  run_and_close-Ends :
      (core : WinIoCore) (s : Store os.World)
      → (run_and_close os blocked core s).0 ≡ 0
      → Ends h s (run_and_close os blocked core s).1 (held h s 0 + held h s 1)
  unfolding run_and_close release_and_fail
  run_and_close-Ends core s e =
      let b = (blocked s).1 in
      let c = close os (b.sockets 1) b.machine in
      let t = record b { machine = c.1; sockets = update b.sockets 1 c.0.1 } in
      ground (
        arith,
        tame s,
        close_gives_back os (b.sockets 1) b.machine h law,
        close-winsock os h (b.sockets 1) b.machine,
        close_listener-Ends core t,
      )

  accept_one-Ends :
      (core : WinIoCore) (s : Store os.World)
      → (accept_one os blocked core s).0 ≡ 0
      → Ends h s (accept_one os blocked core s).1 (held h s 0)
  unfolding accept_one release_and_fail new_socket
  accept_one-Ends core s e =
      let r = socket os new_socket ipv4 stream tcp s.machine in
      let t = record s {
        machine = r.1;
        sockets = update (update s.sockets 1 new_socket) 1 r.0.1;
      } in
      let u = (start_accept os 0 1 (some 1) t).1 in
      ground (
        arith,
        socket-sock os new_socket s.machine h ipv4 stream tcp law,
        socket-winsock os h new_socket ipv4 stream tcp s.machine,
        socket_outcome os new_socket s.machine ipv4 stream tcp law,
        start_accept_quiet os h 0 1 (some 1) t,
        run_and_close-Ends core u,
      )

  bind_and_listen-Ends :
      (core : WinIoCore) (s : Store os.World)
      → (bind_and_listen os blocked core s).0 ≡ 0
      → Ends h s (bind_and_listen os blocked core s).1 (held h s 0)
  unfolding bind_and_listen release_and_fail
  bind_and_listen-Ends core s e =
      let b = bind os (s.sockets 0) echo_ep s.machine in
      let t = record s { machine = b.1; sockets = update s.sockets 0 b.0.1 } in
      let l = (listen os b.0.1 5 b.1).1 in
      let u = record t { machine = l } in
      ground (
        arith,
        bind_quiet os h (s.sockets 0) echo_ep s.machine,
        listen_quiet os h b.0.1 5 b.1,
        accept_one-Ends core u,
      )

  open_listener-Ends :
      (core : WinIoCore) (s : Store os.World)
      → (open_listener os blocked core s).0 ≡ 0
      → Ends h s (open_listener os blocked core s).1 0
  unfolding open_listener release_and_fail
  open_listener-Ends core s e =
      let r = socket os new_socket ipv4 stream tcp s.machine in
      let t = record s {
        machine = r.1;
        sockets = update (update s.sockets 0 new_socket) 0 r.0.1;
      } in
      ground (
        arith,
        socket-sock os new_socket s.machine h ipv4 stream tcp law,
        socket-winsock os h new_socket ipv4 stream tcp s.machine,
        bind_and_listen-Ends core t,
      )

  -- If the server's `main` returns 0, and what happens while it is blocked in `run` neither starts
  -- nor ends Winsock, neither opens nor closes the handle `h`, and leaves those of `main` in their
  -- objects, then `main` has closed the handle `h` as often as it opened it; but Winsock has been
  -- started once more often than it was ended, since `create` has already initialised the core that
  -- `main` initialises again.
  -- Condition: a failed call of the system sets the last error, to a code that is not 0.
  pub server_main_ledger :
      (io user : Threadpool) (x : Extensions) (s : Store os.World)
      → (server_main os blocked io user x s).0 ≡ 0
      → let t = (server_main os blocked io user x s).1 in
        Holds winsock 0 s.machine.trace t.machine.trace 1 × Kept sock h s t
  unfolding server_main create
  server_main_ledger io user x s e =
      let a = initialize os (new_core two_threads io user x) s.machine in
      let m = record (a.1) { core_alive = true } in
      let b = initialize os a.0.1 m in
      ground (
        arith,
        initialize-Holds os (new_core two_threads io user x) s.machine h law,
        initialize-Holds os a.0.1 m h law,
        open_listener-Ends b.0.1 (record s { machine = b.1 }),
      )
