-- ===== src/Async/Start/Outcome.antt =====
-- What a start method leaves behind: either one `IOData` that waits for its completion, or nothing
-- (src/platform/windows/win_socket.cpp).
use firelink_net.Prelude.{
  update, ℕ, suc, ◌≡◌, ◌≢◌, ◌⊎◌, Bool, true, Option, none, some, ◌∷◌, ◌==◌, if◌then◌else◌, arith,
}
use firelink_net.Types.{ErrorCode, success, ipv4, ipv6, address_family_not_supported}
use firelink_net.Endpoint.{Endpoint}
use firelink_net.Os.{Call, Span, SockaddrStorage, Os}
use firelink_net.Os.Ledger.{started, Holds}
use firelink_net.Os.Laws.{SetsLastError}
use firelink_net.Os.Overlapped.{accepted, newest}
use firelink_net.Socket.State.{is_valid}
use firelink_net.Socket.Sync.{int_size}
use firelink_net.Socket.Address.{endpoint_to_sockaddr}
use firelink_net.Async.Store.{
  accept_handler, connect_handler, read_handler, write_handler, disconnect_handler, IoData, Store,
}
use firelink_net.Async.Start.{
  tf_reuse_socket, blank_io, start_accept, start_recv, start_recv_from, start_send, start_send_to,
  start_disconnect,
}

-- The overlapped call `c` was made, last of all such calls. Either the system accepted it, once:
-- then the method reports success, the `IOData` is on the heap, and the notification is expected.
-- Or the system refused it: then the method reports an error, has deleted the `IOData`, and
-- cancelled the notification.
abbrev pub Concluded : {W : Type 0} → Store W → Store W → ErrorCode → ℕ → IoData → Call → ℕ → Type 0
Concluded s s' err io d c h =
    (newest s'.machine.trace ≡ some c)
    × (((err ≡ success)
          × (accepted s.next_io 0 s'.machine.trace ≡ suc (accepted s.next_io 0 s.machine.trace))
          × (s'.heap ≡ update s.heap s.next_io (some d))
          × (s'.deleted ≡ s.deleted)
          × Holds started h s.machine.trace s'.machine.trace (if h == io then 1 else 0))
        ⊎ ((err ≢ success)
            × (accepted s.next_io 0 s'.machine.trace ≡ accepted s.next_io 0 s.machine.trace)
            × (s'.heap ≡ update (update s.heap s.next_io (some d)) s.next_io none)
            × (s'.deleted ≡ s.next_io ∷ s.deleted)
            × Holds started h s.machine.trace s'.machine.trace 0))

-- The method returned early: the `IOData` stays on the heap although no notification will come.
abbrev pub Leaked : {W : Type 0} → Store W → Store W → ErrorCode → IoData → ℕ → Type 0
Leaked s s' err d h =
    (err ≢ success)
    × (s'.heap s.next_io ≡ some d)
    × (s'.deleted ≡ s.deleted)
    × (accepted s.next_io 0 s'.machine.trace ≡ accepted s.next_io 0 s.machine.trace)
    × Holds started h s.machine.trace s'.machine.trace 0

-- The `IOData` of `start_send_to` and of `start_connect`, with the address to send or connect to.
module _ (os : Os) (s : Store os.World) (self : ℕ) (handler : Option ℕ) where
  abbrev pub sent : Span → Endpoint → IoData
  sent bytes dst = record (blank_io self (write_handler handler)) {
    user_buffer = bytes;
    peer_win_addr = (endpoint_to_sockaddr os (s.sockets self).addr_family dst).1;
  }

  abbrev pub connecting : Endpoint → IoData
  connecting dst = record (blank_io self (connect_handler handler)) {
    peer_win_addr = (endpoint_to_sockaddr os (s.sockets self).addr_family dst).1;
  }

module _ (os : Os) (law : SetsLastError os) (s : Store os.World) (self h : ℕ)
    (handler : Option ℕ) where
  abbrev io : ℕ
  io = (s.sockets self).socket_io_handle

  -- The calls that the methods should make.
  abbrev recv_call : Span → Call
  recv_call b = Call.wsa_recv (s.sockets self).native_handle b.address (int_size b) s.next_io

  abbrev recv_from_call : Span → Call
  recv_from_call b =
      Call.wsa_recv_from (s.sockets self).native_handle b.address (int_size b) s.next_io

  abbrev send_call : Span → Call
  send_call b = Call.wsa_send (s.sockets self).native_handle b.address (int_size b) s.next_io

  abbrev pub send_to_call : Span → Endpoint → Call
  send_to_call b dst =
      Call.wsa_send_to (s.sockets self).native_handle b.address (int_size b)
        (endpoint_to_sockaddr os (s.sockets self).addr_family dst).1 s.next_io

  abbrev disconnect_call : Bool → Call
  disconnect_call reuse =
      Call.disconnect_ex (s.sockets self).native_handle s.next_io
        (if reuse then tf_reuse_socket else 0)

  pub start_recv-Concluded :
      (buffer : Span)
      → let (err, s') = start_recv os self buffer handler s in
        Concluded s s' err io
          (record (blank_io self (read_handler handler)) { user_buffer = buffer })
          (recv_call buffer)
          h
  unfolding start_recv
  start_recv-Concluded buffer = grind (arith, law)

  start_recv_from-Concluded :
      (buffer : Span)
      → let (err, s') = start_recv_from os self buffer handler s in
        Concluded s s' err io
          (record (blank_io self (read_handler handler)) { user_buffer = buffer })
          (recv_from_call buffer)
          h
  unfolding start_recv_from
  start_recv_from-Concluded buffer = grind (arith, law)

  pub start_send-Concluded :
      (bytes : Span)
      → let (err, s') = start_send os self bytes handler s in
        Concluded s s' err io
          (record (blank_io self (write_handler handler)) { user_buffer = bytes })
          (send_call bytes)
          h
  unfolding start_send
  start_send-Concluded bytes = grind (arith, law)

  start_disconnect-Concluded :
      (reuse : Bool)
      → let (err, s') = start_disconnect os self reuse handler s in
        Concluded s s' err io (blank_io self (disconnect_handler handler)) (disconnect_call reuse) h
  unfolding start_disconnect
  start_disconnect-Concluded reuse = grind (arith, law)

  -- `start_recv`, `start_recv_from`, `start_send` and `start_disconnect`: each makes its overlapped
  -- call last of all such calls, with the native handle, the address and the size of the span that
  -- its new `IOData` keeps, or the flag, and with that `IOData`. If the system accepts it, at once
  -- or with `ERROR_IO_PENDING`, the method reports success, with the `IOData` on the heap and one
  -- notification expected; if not, it reports an error, has deleted the `IOData` and cancelled the
  -- notification.
  -- Condition: a failed call of the system sets the last error, to a code that is not 0.
  pub transfers_conclude :
      (span : Span) (reuse : Bool)
      → let recv = start_recv os self span handler s in
        let recv_from = start_recv_from os self span handler s in
        let send = start_send os self span handler s in
        let disconnect = start_disconnect os self reuse handler s in
        let reading = record (blank_io self (read_handler handler)) { user_buffer = span } in
        let writing = record (blank_io self (write_handler handler)) { user_buffer = span } in
        Concluded s recv.1 recv.0 io reading (recv_call span) h
        × Concluded s recv_from.1 recv_from.0 io reading (recv_from_call span) h
        × Concluded s send.1 send.0 io writing (send_call span) h
        × Concluded s disconnect.1 disconnect.0 io
            (blank_io self (disconnect_handler handler))
            (disconnect_call reuse)
            h
  transfers_conclude span reuse = (
    start_recv-Concluded span,
    start_recv_from-Concluded span,
    start_send-Concluded span,
    start_disconnect-Concluded reuse,
  )

  -- With an accept socket that is open, `start_accept` calls `AcceptEx` on both handles with its
  -- new `IOData`, last of all overlapped calls. If the system accepts it, at once or with
  -- `ERROR_IO_PENDING`, the method reports success, with the `IOData` on the heap and one
  -- notification expected; if not, it reports an error, has deleted the `IOData` and cancelled the
  -- notification.
  -- Condition: a failed call of the system sets the last error, to a code that is not 0.
  pub start_accept-Concluded :
      (accept_socket : ℕ)
      → is_valid (s.sockets accept_socket) ≡ true
      → let (err, s') = start_accept os self accept_socket handler s in
        Concluded s s' err io
          (record (blank_io self (accept_handler handler)) { accept_socket = some accept_socket })
          (Call.accept_ex
            (s.sockets self).native_handle
            (s.sockets accept_socket).native_handle
            s.next_io)
          h
  unfolding start_accept
  start_accept-Concluded accept_socket valid = grind (arith, law)

  -- If the socket is of IPv4 or of IPv6, `start_send_to` calls `WSASendTo` on the span and the
  -- converted address with its new `IOData`, last of all overlapped calls. If the system accepts
  -- it, at once or with `ERROR_IO_PENDING`, the method reports success, with the `IOData` on the
  -- heap and one notification expected; if not, it reports an error, has deleted the `IOData` and
  -- cancelled the notification. For any other family it returns `AddressFamilyNotSupported` without
  -- any call of the system, and the `IOData` stays on the heap.
  -- Condition: a failed call of the system sets the last error, to a code that is not 0.
  pub start_send_to_outcome :
      (bytes : Span) (dst : Endpoint)
      → let family = (s.sockets self).addr_family in
        let (err, s') = start_send_to os self bytes dst handler s in
        (((family ≡ ipv4) ⊎ (family ≡ ipv6))
          × Concluded s s' err io (sent os s self handler bytes dst) (send_to_call bytes dst) h)
        ⊎ ((family ≢ ipv4)
            × (family ≢ ipv6)
            × (err ≡ address_family_not_supported)
            × (s'.machine ≡ s.machine)
            × Leaked s s' err (sent os s self handler bytes dst) h)
  unfolding start_send_to
  start_send_to_outcome bytes dst = grind (arith, law)

  abbrev pub connect_call : SockaddrStorage → Call
  connect_call addr = Call.connect_ex (s.sockets self).native_handle addr s.next_io

  -- The state in which `start_connect` has made its `IOData` and converted the endpoint.
  abbrev pub prepared : Endpoint → Store os.World
  prepared dst = record s {
    heap =
        update (update s.heap s.next_io (some (blank_io self (connect_handler handler)))) s.next_io
          (some (connecting os s self handler dst));
    next_io = suc s.next_io;
  }
