-- ===== src/Socket/Sync.antt =====
-- The synchronous methods of `WinSocket` (src/platform/windows/win_socket.cpp). A method returns its
-- result and the object afterwards; one that changes no field returns the result alone.
use firelink_net.Prelude.{
  ℕ, ◌+◌, ◌-◌, ◌%◌, ◌^◌, ltb, true, ◌||◌, Option, none, some, ◌==◌, if◌then◌else◌,
}
use firelink_net.Types.{
  ErrorCode, success, system_error, invalid_argument, invalid_socket, socket_error, minus,
}
use firelink_net.Endpoint.{Endpoint}
use firelink_net.Os.{
  Call, Span, SockaddrStorage, Reply, Os, M, pure, ◌>>=◌, sys, last_error_code, lock_core,
}
use firelink_net.Socket.State.{WinSocket, associate_handle, close}
use firelink_net.Socket.Address.{zero_sockaddr, sockaddr_to_endpoint, endpoint_to_sockaddr}

-- What a `SOCKADDR_STORAGE` that was zeroed holds after a call that may have filled it.
abbrev pub filled : Option SockaddrStorage → SockaddrStorage
filled none = zero_sockaddr
filled (some addr) = addr

-- `static_cast<int>(buffer.size())`
abbrev pub int_size : Span → ℕ
int_size b = b.size % 2 ^ 32

-- The cast of an `int` to a 64-bit `size_t` or `ULONGLONG`.
unfoldable pub extend_sign : ℕ → ℕ
extend_sign w = if ltb w (2 ^ 31) then w else w + (2 ^ 64 - 2 ^ 32)

module _ (os : Os) where
  -- `WinSocket::bind`
  unfoldable pub bind : WinSocket → Endpoint → M os.World (ErrorCode × WinSocket)
  unfolding sys last_error_code endpoint_to_sockaddr
  bind s endpoint =
      let (err, addr) = endpoint_to_sockaddr os s.addr_family endpoint in
      if err == success
      then (do
        r ← sys os (Call.bind_socket s.native_handle addr)
        if r.ret == 0
            then pure (success, record s { is_bound = true })
            else (do e ← last_error_code os; pure (e, s)))
      else pure (err, s)

  -- `WinSocket::listen`
  unfoldable pub listen : WinSocket → ℕ → M os.World ErrorCode
  unfolding sys last_error_code
  listen s backlog = do
    r ← sys os (Call.listen_socket s.native_handle backlog)
    if r.ret == 0 then pure success else last_error_code os

  -- `WinSocket::shutdown`
  unfoldable pub shutdown : WinSocket → ℕ → M os.World ErrorCode
  unfolding sys last_error_code
  shutdown s how = do
    r ← sys os (Call.shutdown_socket s.native_handle how)
    if r.ret == 0 then pure success else last_error_code os

  -- The end of `accept`: the accepted socket is given to the thread pool.
  accept_associate : WinSocket → M os.World (ErrorCode × WinSocket)
  unfolding associate_handle last_error_code close
  accept_associate a = do
    io ← associate_handle os a.native_handle
    let a' = record a { socket_io_handle = io }
    if io == 0
        then (do err ← last_error_code os; closed ← close os a'; pure (err, closed.1))
        else pure (success, record a' { is_bound = true })

  -- The middle of `accept`: the accepted handle goes into the other object.
  accept_adopt : WinSocket → ℕ → Reply → M os.World (ErrorCode × WinSocket)
  unfolding accept_associate close lock_core
  accept_adopt a handle r =
      let a' = record a {
        addr_family = r.info.address_family;
        sock_type = r.info.socket_type;
        protocol = r.info.protocol;
        native_handle = handle;
      } in
      do
        alive ← lock_core
        if alive
            then accept_associate a'
            else (do closed ← close os a'; pure (system_error, closed.1))

  -- `WinSocket::accept`: the first socket listens; the second is the object that takes the
  -- connection, and is the one that is returned.
  unfoldable pub accept : WinSocket → WinSocket → M os.World (ErrorCode × WinSocket)
  unfolding sys last_error_code accept_adopt
  accept s a = do
    r ← sys os (Call.accept_socket s.native_handle)
    if r.ret == invalid_socket then (do err ← last_error_code os; pure (err, a)) else (do
      i ← sys os (Call.protocol_info r.ret)
      if i.ret == 0
          then accept_adopt a r.ret i
          else (do err ← last_error_code os; _ ← sys os (Call.close_socket r.ret); pure (err, a)))

  -- `WinSocket::connect`
  unfoldable pub connect : WinSocket → Endpoint → M os.World (ErrorCode × WinSocket)
  unfolding sys last_error_code endpoint_to_sockaddr
  connect s dst =
      let (err, addr) = endpoint_to_sockaddr os s.addr_family dst in
      if err == success
      then (do
        r ← sys os (Call.connect_socket s.native_handle addr)
        if r.ret == 0
            then pure (success, record s { is_bound = true })
            else (do e ← last_error_code os; pure (e, s)))
      else pure (err, s)

  -- `WinSocket::recv`
  unfoldable pub recv : WinSocket → Span → M os.World ℕ
  unfolding sys
  recv s buffer = do
    r ← sys os (Call.recv_span s.native_handle buffer.address (int_size buffer))
    if r.ret == socket_error then pure (minus 1) else pure r.ret

  -- `WinSocket::recv_from`: also the peer's endpoint afterwards.
  unfoldable pub recv_from : WinSocket → Span → Endpoint → M os.World (ℕ × Endpoint)
  unfolding sys sockaddr_to_endpoint
  recv_from s buffer peer = do
    r ← sys os (Call.recv_from_span s.native_handle buffer.address (int_size buffer))
    let (err, peer') = sockaddr_to_endpoint os (filled r.address) peer
    if r.ret == socket_error
        then pure (minus 1, peer)
        else if err == success
        then pure (r.ret, peer')
        else pure (minus 1, peer')

  -- `WinSocket::send`
  unfoldable pub send : WinSocket → Span → M os.World ℕ
  unfolding sys
  send s bytes = do
    r ← sys os (Call.send_span s.native_handle bytes.address (int_size bytes))
    if r.ret == socket_error then pure (minus 1) else pure r.ret

  -- `WinSocket::send_to`
  unfoldable pub send_to : WinSocket → Span → Endpoint → M os.World (ℕ × WinSocket)
  unfolding sys endpoint_to_sockaddr
  send_to s bytes dst =
      let (err, addr) = endpoint_to_sockaddr os s.addr_family dst in
      if err == success
      then (do
        r ← sys os (Call.send_to_span s.native_handle bytes.address (int_size bytes) addr)
        if r.ret == socket_error
            then pure (minus 1, s)
            else pure (r.ret, record s { is_bound = true }))
      else pure (minus 1, s)

  -- `WinSocket::set_socket_option`
  unfoldable pub set_socket_option : WinSocket → ℕ → ℕ → Span → M os.World ErrorCode
  unfolding sys last_error_code
  set_socket_option s level option value =
      if value.size == 0
      then pure invalid_argument
      else if (level == minus 1) || (option == minus 1)
      then pure invalid_argument
      else (do
        r ← sys os (Call.set_sock_opt s.native_handle level option value.address (int_size value))
        if r.ret == 0 then pure success else last_error_code os)

  -- `WinSocket::get_socket_option`; the last argument is `value_size_out`, returned as it is left.
  -- The cast of the `int` length to `size_t` keeps the sign.
  unfoldable pub get_socket_option : WinSocket → ℕ → ℕ → Span → ℕ → M os.World (ErrorCode × ℕ)
  unfolding sys last_error_code
  get_socket_option s level option value size =
      if (level == minus 1) || (option == minus 1) then pure (invalid_argument, size) else (do
        r ← sys os (Call.get_sock_opt s.native_handle level option value.address (int_size value))
        if r.ret == 0
            then pure (success, extend_sign r.out)
            else (do e ← last_error_code os; pure (e, size)))

  -- `WinSocket::get_sock_name` and `WinSocket::get_peer_name`: also the endpoint afterwards.
  name_from : Call → Endpoint → M os.World (ErrorCode × Endpoint)
  unfolding sys last_error_code sockaddr_to_endpoint
  name_from c ep = do
    r ← sys os c
    if r.ret == socket_error
        then (do e ← last_error_code os; pure (e, ep))
        else pure (sockaddr_to_endpoint os (filled r.address) ep)

  unfoldable pub get_sock_name : WinSocket → Endpoint → M os.World (ErrorCode × Endpoint)
  unfolding name_from
  get_sock_name s ep = name_from (Call.sock_name s.native_handle) ep

  unfoldable pub get_peer_name : WinSocket → Endpoint → M os.World (ErrorCode × Endpoint)
  unfolding name_from
  get_peer_name s ep = name_from (Call.peer_name s.native_handle) ep
