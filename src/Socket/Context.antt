-- ===== src/Socket/Context.antt =====
-- `Socket::create` and `Socket::stop_io_context` (src/socket.cpp), with `WinIOCore::stop` as the
-- calls that one thread makes (src/platform/windows/win_io_core.cpp).
use firelink_net.Prelude.{Bool, ◌⊎◌, inl, inr, if◌then◌else◌}
use firelink_net.Types.{ErrorCode, invalid_argument}
use firelink_net.Os.{Call, Os, M, pure, ◌>>=◌, sys, lock_core}
use firelink_net.Socket.State.{WinSocket, new_socket}

-- `Socket::create`: `given` tells whether the pointer to the core is not null.
unfoldable pub create_socket : Bool → WinSocket ⊎ ErrorCode
unfolding new_socket
create_socket given = if given then inl new_socket else inr invalid_argument

module _ (os : Os) where
  -- `WinIOCore::stop`
  unfoldable pub stop : M os.World (Unit {0})
  unfolding sys
  stop = do
    _ ← sys os (Call.set_stop_flag 1)
    _ ← sys os Call.acquire_run_lock
    _ ← sys os Call.wake_run
    _ ← sys os Call.release_run_lock
    pure tt

  -- `Socket::stop_io_context`
  unfoldable pub stop_io_context : M os.World (Unit {0})
  unfolding lock_core stop
  stop_io_context = do alive ← lock_core; if alive then stop else pure tt
