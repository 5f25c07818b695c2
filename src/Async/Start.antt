-- ===== src/Async/Start.antt =====
-- The methods that begin an asynchronous operation (src/platform/windows/win_socket.cpp). `self` and
-- `accept_socket` are the names of the objects, which may be the same.
pub mod Outcome
pub mod Effect
pub mod Ledger
use firelink_net.Prelude.{ℕ, Bool, true, false, not, Option, none, some, ◌==◌, if◌then◌else◌}
use firelink_net.Types.{ErrorCode, success, ipv4, ipv6, socket_error, error_io_pending}
use firelink_net.Endpoint.{Endpoint, of_ipv4, of_ipv6, any4, any6}
use firelink_net.Os.{Call, Span, SockaddrStorage, Os, pure, ◌>>=◌, ◌>>◌, sys, last_error_code}
use firelink_net.Socket.State.{WinSocket, is_valid, socket}
use firelink_net.Socket.Address.{zero_sockaddr, endpoint_to_sockaddr}
use firelink_net.Socket.Sync.{int_size, bind}
use firelink_net.Async.Store.{
  Handler, accept_handler, connect_handler, read_handler, write_handler, disconnect_handler, IoData,
  S, lift, get_socket, on_socket, new_io, delete_io, set_io,
}

-- `IOData{}` after `socket_` and `user_handler_` are assigned.
unfoldable pub blank_io : ℕ → Handler → IoData
blank_io self handler = record {
  user_buffer = record { address = 0; size = 0 };
  local_win_addr = zero_sockaddr;
  peer_win_addr = zero_sockaddr;
  socket = self;
  accept_socket = none;
  user_handler = handler;
  error_code = success;
  bytes_transferred = 0;
}

-- `TF_REUSE_SOCKET`
abbrev pub tf_reuse_socket : ℕ
tf_reuse_socket = 2

-- The tests of the two kinds of calls: `!= TRUE` and `== SOCKET_ERROR`.
abbrev not_true : ℕ → Bool
not_true r = not (r == 1)

abbrev is_socket_error : ℕ → Bool
is_socket_error r = r == socket_error

module _ (os : Os) where
  -- The end of every start method. A call that failed with anything but `ERROR_IO_PENDING` will
  -- have no completion: the `IOData` is deleted and the notification is cancelled.
  conclude : ℕ → ℕ → Bool → S os.World ErrorCode
  unfolding sys last_error_code
  conclude p io_handle failed =
      if failed
      then (do
        error ← lift (last_error_code os)
        if error == error_io_pending
            then pure success
            else (do _ ← delete_io p; _ ← lift (sys os (Call.cancel_io io_handle)); pure error))
      else pure success

  -- `StartThreadpoolIo` and the overlapped call.
  begin_io : ℕ → ℕ → Call → (ℕ → Bool) → S os.World ErrorCode
  unfolding sys conclude
  begin_io p io_handle call failed = do
    _ ← lift (sys os (Call.start_io io_handle))
    r ← lift (sys os call)
    conclude p io_handle (failed r.ret)

  start_accept_on : ℕ → ℕ → Option ℕ → S os.World ErrorCode
  unfolding begin_io blank_io
  start_accept_on self accept_socket handler = do
    p ←
        new_io
          (record (blank_io self (accept_handler handler)) { accept_socket = some accept_socket })
    s ← get_socket self
    a ← get_socket accept_socket
    begin_io p s.socket_io_handle (Call.accept_ex s.native_handle a.native_handle p) not_true

  -- `WinSocket::start_accept`
  unfoldable pub start_accept : ℕ → ℕ → Option ℕ → S os.World ErrorCode
  unfolding is_valid start_accept_on
  start_accept self accept_socket handler = do
    s ← get_socket self
    a ← get_socket accept_socket
    if is_valid a then start_accept_on self accept_socket handler else (do
      res ← on_socket accept_socket λ x. socket os x s.addr_family s.sock_type s.protocol
      if res == success then start_accept_on self accept_socket handler else pure res)

  -- `this->bind(any)` unless the socket is bound.
  pub bind_any : ℕ → SockaddrStorage → S os.World ErrorCode
  bind_any self addr = do
    s ← get_socket self
    if s.is_bound
        then pure success
        else if addr.ss_family == ipv4
        then (on_socket self λ x. bind os x (of_ipv4 (any4 0)))
        else if addr.ss_family == ipv6
        then (on_socket self λ x. bind os x (of_ipv6 (any6 0)))
        else pure success

  start_connect_on : ℕ → ℕ → SockaddrStorage → S os.World ErrorCode
  unfolding begin_io bind_any
  start_connect_on self p addr = do
    err ← bind_any self addr
    s ← get_socket self
    if err == success
        then begin_io p s.socket_io_handle (Call.connect_ex s.native_handle addr p) not_true
        else pure err

  -- `WinSocket::start_connect`; the two early returns leave the `IOData` on the heap.
  unfoldable pub start_connect : ℕ → Endpoint → Option ℕ → S os.World ErrorCode
  unfolding blank_io start_connect_on endpoint_to_sockaddr
  start_connect self dst handler = do
    p ← new_io (blank_io self (connect_handler handler))
    s ← get_socket self
    let (err, addr) = endpoint_to_sockaddr os s.addr_family dst
    _ ← set_io p (record (blank_io self (connect_handler handler)) { peer_win_addr = addr })
    if err == success then start_connect_on self p addr else pure err

  -- `WinSocket::start_recv`
  unfoldable pub start_recv : ℕ → Span → Option ℕ → S os.World ErrorCode
  unfolding blank_io begin_io
  start_recv self buffer handler = do
    p ← new_io (record (blank_io self (read_handler handler)) { user_buffer = buffer })
    s ← get_socket self
    begin_io p s.socket_io_handle (Call.wsa_recv s.native_handle buffer.address (int_size buffer) p)
        is_socket_error

  -- `WinSocket::start_recv_from`
  pub start_recv_from : ℕ → Span → Option ℕ → S os.World ErrorCode
  unfolding blank_io begin_io
  start_recv_from self buffer handler = do
    p ← new_io (record (blank_io self (read_handler handler)) { user_buffer = buffer })
    s ← get_socket self
    begin_io p s.socket_io_handle
        (Call.wsa_recv_from s.native_handle buffer.address (int_size buffer) p) is_socket_error

  -- `WinSocket::start_send`
  unfoldable pub start_send : ℕ → Span → Option ℕ → S os.World ErrorCode
  unfolding blank_io begin_io
  start_send self bytes handler = do
    p ← new_io (record (blank_io self (write_handler handler)) { user_buffer = bytes })
    s ← get_socket self
    begin_io p s.socket_io_handle (Call.wsa_send s.native_handle bytes.address (int_size bytes) p)
        is_socket_error

  -- `WinSocket::start_send_to`; the early return leaves the `IOData` on the heap.
  pub start_send_to : ℕ → Span → Endpoint → Option ℕ → S os.World ErrorCode
  unfolding blank_io begin_io endpoint_to_sockaddr
  start_send_to self bytes dst handler = do
    p ← new_io (record (blank_io self (write_handler handler)) { user_buffer = bytes })
    s ← get_socket self
    let (err, addr) = endpoint_to_sockaddr os s.addr_family dst
    _ ← set_io p (record (blank_io self (write_handler handler)) {
      user_buffer = bytes;
      peer_win_addr = addr;
    })
    if err == success
        then begin_io p s.socket_io_handle
            (Call.wsa_send_to s.native_handle bytes.address (int_size bytes) addr p) is_socket_error
        else pure err

  -- `WinSocket::start_disconnect`
  pub start_disconnect : ℕ → Bool → Option ℕ → S os.World ErrorCode
  unfolding blank_io begin_io
  start_disconnect self reuse_socket handler = do
    p ← new_io (blank_io self (disconnect_handler handler))
    s ← get_socket self
    begin_io p s.socket_io_handle
        (Call.disconnect_ex s.native_handle p (if reuse_socket then tf_reuse_socket else 0))
        not_true
