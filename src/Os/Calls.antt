-- ===== src/Os/Calls.antt =====
-- The calls of Winsock and of the Windows thread pool that the library makes, and their arguments.
use firelink_net.Prelude.{ℕ, Option, List}
use firelink_net.Endpoint.{Bytes4}

-- The fields of `SOCKADDR_STORAGE` that the library touches. `sin_port` and `sin6_port` are the same
-- bytes; `sin_addr` and `sin6_addr` are different ones (offsets 4 and 8).
pub record SockaddrStorage : Type 0 where
  pub ss_family : ℕ
  pub sin_port : ℕ
  pub sin_addr : Bytes4
  pub sin6_addr : List ℕ

-- A `std::span<std::byte>`: the library passes it on and never reads through it.
pub record Span : Type 0 where
  pub address : ℕ
  pub size : ℕ

-- The fields of `WSAPROTOCOL_INFOW` that the library reads.
pub record ProtocolInfo : Type 0 where
  pub address_family : ℕ
  pub socket_type : ℕ
  pub protocol : ℕ

pub data Call : Type 0 where
  -- Winsock
  wsa_startup : ℕ → Call
  wsa_cleanup : Call
  wsa_socket : ℕ → ℕ → ℕ → Call
  wsa_ioctl : ℕ → ℕ → Call
  close_socket : ℕ → Call
  bind_socket : ℕ → SockaddrStorage → Call
  listen_socket : ℕ → ℕ → Call
  shutdown_socket : ℕ → ℕ → Call
  accept_socket : ℕ → Call
  protocol_info : ℕ → Call
  connect_socket : ℕ → SockaddrStorage → Call
  recv_span : ℕ → ℕ → ℕ → Call
  recv_from_span : ℕ → ℕ → ℕ → Call
  send_span : ℕ → ℕ → ℕ → Call
  send_to_span : ℕ → ℕ → ℕ → SockaddrStorage → Call
  -- `select` on one socket; `none` waits for ever, else seconds and microseconds.
  select_read : ℕ → Option (ℕ × ℕ) → Call
  tick_count : Call
  -- handle, level, option, address and length of the value
  set_sock_opt : ℕ → ℕ → ℕ → ℕ → ℕ → Call
  get_sock_opt : ℕ → ℕ → ℕ → ℕ → ℕ → Call
  sock_name : ℕ → Call
  peer_name : ℕ → Call
  -- `SO_UPDATE_ACCEPT_CONTEXT` on the first handle, with the second as value
  update_accept_context : ℕ → ℕ → Call
  update_connect_context : ℕ → Call
  -- Overlapped calls; the last argument is the `IOData` whose `OVERLAPPED` is given (of
  -- `disconnect_ex`, the last but the flags).
  accept_ex : ℕ → ℕ → ℕ → Call
  accept_ex_sockaddrs : ℕ → Call
  connect_ex : ℕ → SockaddrStorage → ℕ → Call
  wsa_recv : ℕ → ℕ → ℕ → ℕ → Call
  wsa_recv_from : ℕ → ℕ → ℕ → ℕ → Call
  wsa_send : ℕ → ℕ → ℕ → ℕ → Call
  wsa_send_to : ℕ → ℕ → ℕ → SockaddrStorage → ℕ → Call
  disconnect_ex : ℕ → ℕ → ℕ → Call
  -- `WSAGetLastError` and `GetLastError`
  last_error : Call
  -- `stop`: the flag, the lock and the condition variable of the core
  set_stop_flag : ℕ → Call
  acquire_run_lock : Call
  wake_run : Call
  release_run_lock : Call
  -- Thread pool
  create_io : ℕ → Call
  wait_io : ℕ → Call
  close_io : ℕ → Call
  start_io : ℕ → Call
  cancel_io : ℕ → Call
  init_environ : ℕ → Call
  destroy_environ : ℕ → Call
  create_pool : Call
  set_pool_maximum : ℕ → ℕ → Call
  set_pool_minimum : ℕ → ℕ → Call
  close_pool : ℕ → Call
  create_group : Call
  close_group : ℕ → Call
  set_environ_pool : ℕ → ℕ → Call
  set_environ_group : ℕ → ℕ → Call
  -- The thread that runs `CloseThreadpoolCleanupGroupMembers` on the group.
  create_cleanup_thread : ℕ → Call
  wait_thread : ℕ → ℕ → Call
  close_thread : ℕ → Call
  -- `TrySubmitThreadpoolCallback` to the pool of an environment
  submit : ℕ → Call

-- A call and what it returned.
abbrev pub Event : Type 0
Event = Call × ℕ
