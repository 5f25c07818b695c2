-- ===== src/Socket/State.antt =====
-- The fields of `WinSocket` and the methods that open and close it
-- (src/platform/windows/win_socket.cpp). The static callback pointer is not modelled: it is constant.
use firelink_net.Prelude.{ℕ, Bool, false, not, ◌==◌, if◌then◌else◌}
use firelink_net.Types.{ErrorCode, success, system_error, unsupported, invalid_socket, socket_error}
use firelink_net.Os.{Call, Os, M, pure, ◌>>=◌, sys, last_error_code, lock_core}

pub record WinSocket : Type 0 where
  pub native_handle : ℕ
  pub addr_family : ℕ
  pub sock_type : ℕ
  pub protocol : ℕ
  pub is_bound : Bool
  pub socket_io_handle : ℕ

-- The constructor.
unfoldable pub new_socket : WinSocket
new_socket = record {
  native_handle = invalid_socket;
  addr_family = unsupported;
  sock_type = unsupported;
  protocol = unsupported;
  is_bound = false;
  socket_io_handle = 0;
}

unfoldable pub is_valid : WinSocket → Bool
is_valid s = not (s.native_handle == invalid_socket)

module _ (os : Os) where
  -- `win_core->associate_handle(handle, io_routine_)`
  unfoldable pub associate_handle : ℕ → M os.World ℕ
  unfolding sys
  associate_handle handle = do r ← sys os (Call.create_io handle); pure r.ret

  -- The core is there: associate the handle, or give the socket back.
  socket_associate : WinSocket → ℕ → ℕ → ℕ → M os.World (ErrorCode × WinSocket)
  unfolding sys last_error_code associate_handle
  socket_associate s family type proto = do
    io ← associate_handle s.native_handle
    if io == 0
        then (do
          err ← last_error_code os
          _ ← sys os (Call.close_socket s.native_handle)
          pure (err, record s { native_handle = invalid_socket; socket_io_handle = 0 }))
        else pure (
          success,
          record s {
            socket_io_handle = io;
            addr_family = family;
            sock_type = type;
            protocol = proto;
          },
        )

  socket_opened : WinSocket → ℕ → ℕ → ℕ → M os.World (ErrorCode × WinSocket)
  unfolding sys socket_associate lock_core
  socket_opened s family type proto = do
    alive ← lock_core
    if alive then socket_associate s family type proto else (do
      _ ← sys os (Call.close_socket s.native_handle)
      pure (system_error, record s { native_handle = invalid_socket }))

  -- `WinSocket::socket`
  unfoldable pub socket : WinSocket → ℕ → ℕ → ℕ → M os.World (ErrorCode × WinSocket)
  unfolding sys socket_opened last_error_code
  socket s family type proto = do
    r ← sys os (Call.wsa_socket family type proto)
    let s' = record s { native_handle = r.ret }
    if r.ret == invalid_socket
        then (do err ← last_error_code os; pure (err, s'))
        else socket_opened s' family type proto

  -- `WaitForThreadpoolIoCallbacks` and `CloseThreadpoolIo`, as the destructor and `close` call them.
  unfoldable pub release_io : WinSocket → M os.World WinSocket
  unfolding sys
  release_io s = if s.socket_io_handle == 0 then pure s else (do
    _ ← sys os (Call.wait_io s.socket_io_handle)
    _ ← sys os (Call.close_io s.socket_io_handle)
    pure (record s { socket_io_handle = 0 }))

  -- `~WinSocket`: the object is gone, so there is no state to return.
  unfoldable pub destroy : WinSocket → M os.World (Unit {0})
  unfolding release_io
  destroy s = do _ ← release_io s; pure tt

  close_handle : WinSocket → M os.World ErrorCode
  unfolding sys last_error_code
  close_handle s = if s.native_handle == invalid_socket then pure success else (do
    r ← sys os (Call.close_socket s.native_handle)
    if r.ret == socket_error then last_error_code os else pure success)

  -- `WinSocket::close`
  unfoldable pub close : WinSocket → M os.World (ErrorCode × WinSocket)
  unfolding sys release_io close_handle
  close s = do
    s' ← release_io s
    err ← close_handle s'
    pure (
      err,
      record s' {
        native_handle = invalid_socket;
        addr_family = unsupported;
        sock_type = unsupported;
        protocol = unsupported;
        is_bound = false;
      },
    )
