-- ===== src/Examples/Ledger.antt =====
-- What the example programs hold of the system when they end well
-- (examples/async_echo_server/async_echo_server.cpp,
-- examples/async_echo_client/async_echo_client.cpp).
use firelink_net.Prelude.{ℕ, ◌≡◌, arith}
use firelink_net.Types.{invalid_socket}
use firelink_net.Os.{Os, Machine}
use firelink_net.Os.Ledger.{sock, winsock, Holds}
use firelink_net.Socket.State.{WinSocket, socket, close}
use firelink_net.Socket.Sync.{listen}
use firelink_net.Socket.Lifecycle.{one_if}
use firelink_net.Async.Store.{Store, S}
use firelink_net.Async.Start.Ledger.{Kept}

module _ (os : Os) (h : ℕ) where
  -- The start of Winsock is touched by none of the methods of a socket.
  pub socket-winsock :
      (x : WinSocket) (family type proto : ℕ) (m : Machine os.World)
      → Holds winsock 0 m.trace (socket os x family type proto m).1.trace 0
  unfolding socket
  socket-winsock x family type proto m = ground arith

  pub close-winsock :
      (x : WinSocket) (m : Machine os.World) → Holds winsock 0 m.trace (close os x m).1.trace 0
  unfolding close
  close-winsock x m = ground arith

  pub listen_quiet :
      (x : WinSocket) (n : ℕ) (m : Machine os.World)
      → let m' = (listen os x n m).1 in
        Holds winsock 0 m.trace m'.trace 0 × Holds sock h m.trace m'.trace 0
  unfolding listen
  listen_quiet x n m = ground arith

-- What happens while `main` is blocked in `run` neither starts nor ends Winsock, opens or closes no
-- handle `h`, and leaves the two handles of `main` in its objects.
abbrev pub IsTame : {W : Type 0} → ℕ → S W (Unit {0}) → Type 0
IsTame {W} h blocked =
    (s : Store W)
    → let t = (blocked s).1 in
      Kept winsock 0 s t
      × Kept sock h s t
      × ((t.sockets 0).native_handle ≡ (s.sockets 0).native_handle)
      × ((t.sockets 1).native_handle ≡ (s.sockets 1).native_handle)

-- The last two steps of both programs: Winsock ends once, and `n` of the handles `h` are closed.
abbrev pub Ends : {W : Type 0} → ℕ → Store W → Store W → ℕ → Type 0
Ends h s t n =
    Holds winsock 0 t.machine.trace s.machine.trace 1
    × Holds sock h t.machine.trace s.machine.trace n

abbrev pub held : {W : Type 0} → ℕ → Store W → ℕ → ℕ
held h s i = one_if invalid_socket h (s.sockets i).native_handle
