-- ===== src/Async/Start/Ledger.antt =====
-- `start_accept` and `start_connect` open and close no native handle, and leave Winsock as it is
-- (src/platform/windows/win_socket.cpp).
use firelink_net.Prelude.{update, ℕ, suc, ◌≡◌, true, Option, some, arith}
use firelink_net.Endpoint.{Endpoint, of_ipv4, of_ipv6, any4, any6}
use firelink_net.Os.{Os, Call, Machine, SockaddrStorage}
use firelink_net.Os.Ledger.{Kind, sock, winsock, Holds}
use firelink_net.Socket.State.{WinSocket, is_valid}
use firelink_net.Socket.Address.{endpoint_to_sockaddr}
use firelink_net.Socket.Sync.{bind}
use firelink_net.Async.Store.{Store, connect_handler}
use firelink_net.Async.Start.{
  blank_io, begin_io, bind_any, not_true, start_connect_on, start_accept, start_connect,
}

-- The trace of a store, before and after.
abbrev pub Kept : {W : Type 0} → Kind → ℕ → Store W → Store W → Type 0
Kept k h s s' = Holds k h s.machine.trace s'.machine.trace 0

module _ (os : Os) (h : ℕ) where
  pub start_accept_quiet :
      (self a : ℕ) (f : Option ℕ) (s : Store os.World)
      → is_valid (s.sockets a) ≡ true
      → let t = (start_accept os self a f s).1 in
        Kept winsock 0 s t × Kept sock h s t × (t.sockets ≡ s.sockets)
  unfolding start_accept
  start_accept_quiet self a f s valid = ground arith

  pub bind_quiet :
      (x : WinSocket) (ep : Endpoint) (m : Machine os.World)
      → let ((err, x'), m') = bind os x ep m in
        Holds winsock 0 m.trace m'.trace 0
        × Holds sock h m.trace m'.trace 0
        × (x'.native_handle ≡ x.native_handle)
  unfolding bind
  bind_quiet x ep m = ground arith

  bind_any_quiet :
      (self : ℕ) (addr : SockaddrStorage) (s : Store os.World)
      → let t = (bind_any os self addr s).1 in
        Kept winsock 0 s t
        × Kept sock h s t
        × ((t.sockets self).native_handle ≡ (s.sockets self).native_handle)
  unfolding bind_any
  bind_any_quiet self addr s =
      let x = s.sockets self in
      ground (
        arith,
        bind_quiet x (of_ipv4 (any4 0)) s.machine,
        bind_quiet x (of_ipv6 (any6 0)) s.machine,
      )

  begin_connect_quiet :
      (q io handle : ℕ) (addr : SockaddrStorage) (s : Store os.World)
      → let t = (begin_io os q io (Call.connect_ex handle addr q) not_true s).1 in
        Kept winsock 0 s t × Kept sock h s t × (t.sockets ≡ s.sockets)
  unfolding begin_io
  begin_connect_quiet q io handle addr s = ground arith

  pub start_connect_quiet :
      (self : ℕ) (ep : Endpoint) (f : Option ℕ) (s : Store os.World)
      → let t = (start_connect os self ep f s).1 in
        Kept winsock 0 s t
        × Kept sock h s t
        × ((t.sockets self).native_handle ≡ (s.sockets self).native_handle)
  unfolding start_connect start_connect_on
  start_connect_quiet self ep f s =
      let c = endpoint_to_sockaddr os (s.sockets self).addr_family ep in
      let d = blank_io self (connect_handler f) in
      let d' = record d { peer_win_addr = c.1 } in
      let t = record s {
        heap = update (update s.heap s.next_io (some d)) s.next_io (some d');
        next_io = suc s.next_io;
      } in
      let t' = (bind_any os self c.1 t).1 in
      let x = t'.sockets self in
      ground (
        arith,
        bind_any_quiet self c.1 t,
        begin_connect_quiet s.next_io x.socket_io_handle x.native_handle c.1 t',
      )
