-- ===== src/IoCore/Core.antt =====
-- `WinIOCore` (src/platform/windows/win_io_core.cpp) and `IOCore::create` (src/io_core.cpp).
-- The static function pointers of `WinSocket`, which `initialize` fills, are kept beside the members.
pub mod Shutdown
use firelink_net.Prelude.{ℕ, ◌⊎◌, inl, inr, ◌==◌, if◌then◌else◌}
use firelink_net.Types.{ErrorCode, success, not_supported, socket_error}
use firelink_net.Os.{Call, Os, M, pure, ◌>>=◌, sys, last_error_code}
use firelink_net.IoCore.Threadpool.{Threadpool, initialize_threadpool, release_threadpool}
use firelink_net.IoCore.Extensions.{Extensions, get_extended_socket_functions}

pub record IoCoreConfig : Type 0 where
  pub io_threadpool_min_threads : ℕ
  pub io_threadpool_max_threads : ℕ
  pub user_threadpool_min_threads : ℕ
  pub user_threadpool_max_threads : ℕ

pub record WinIoCore : Type 0 where
  pub conf : IoCoreConfig
  pub stop_requested : ℕ
  pub io : Threadpool
  pub user : Threadpool
  pub extensions : Extensions

-- The constructor leaves the members of the two pools as the memory was: `io` and `user`.
unfoldable pub new_core : IoCoreConfig → Threadpool → Threadpool → Extensions → WinIoCore
new_core conf io user extensions = record {
  conf = conf;
  stop_requested = 0;
  io = io;
  user = user;
  extensions = extensions;
}

-- `MAKEWORD(2, 2)`
abbrev pub winsock_version : ℕ
winsock_version = 514

abbrev io_threadpool_cleanup_timeout_ms : ℕ
io_threadpool_cleanup_timeout_ms = 5000

abbrev pub user_threadpool_cleanup_timeout_ms : ℕ
user_threadpool_cleanup_timeout_ms = 5000

module _ (os : Os) where
  -- The second pool, and the reset of the stop flag.
  initialize_user : WinIoCore → M os.World (ErrorCode × WinIoCore)
  initialize_user c = do
    t ←
        initialize_threadpool os c.conf.user_threadpool_min_threads
          c.conf.user_threadpool_max_threads c.user
    let c' = record c { user = t.1 }
    if t.0 == success then pure (success, record c' { stop_requested = 0 }) else pure (t.0, c')

  initialize_io : WinIoCore → M os.World (ErrorCode × WinIoCore)
  unfolding initialize_user
  initialize_io c = do
    t ←
        initialize_threadpool os c.conf.io_threadpool_min_threads c.conf.io_threadpool_max_threads
          c.io
    let c' = record c { io = t.1 }
    if t.0 == success then initialize_user c' else pure (t.0, c')

  initialize_extensions : WinIoCore → M os.World (ErrorCode × WinIoCore)
  unfolding initialize_io
  initialize_extensions c = do
    x ← get_extended_socket_functions os c.extensions
    let c' = record c { extensions = x.1 }
    if x.0 == success then initialize_io c' else pure (x.0, c')

  -- `WinIOCore::initialize`
  unfoldable pub initialize : WinIoCore → M os.World (ErrorCode × WinIoCore)
  unfolding sys initialize_extensions
  initialize c = do
    r ← sys os (Call.wsa_startup winsock_version)
    if r.ret == 0
        then if r.out == winsock_version then initialize_extensions c else pure (not_supported, c)
        else pure (r.ret, c)

  cleanup_winsock : WinIoCore → M os.World (ErrorCode × WinIoCore)
  unfolding sys last_error_code
  cleanup_winsock c = do
    r ← sys os Call.wsa_cleanup
    if r.ret == socket_error
        then (do err ← last_error_code os; pure (err, c))
        else pure (success, c)

  release_io_pool : WinIoCore → M os.World (ErrorCode × WinIoCore)
  unfolding cleanup_winsock
  release_io_pool c = do
    t ← release_threadpool os io_threadpool_cleanup_timeout_ms c.io
    let c' = record c { io = t.1 }
    if t.0 == success then cleanup_winsock c' else pure (t.0, c')

  -- `WinIOCore::release`
  unfoldable pub release : WinIoCore → M os.World (ErrorCode × WinIoCore)
  unfolding release_io_pool
  release c = do
    t ← release_threadpool os user_threadpool_cleanup_timeout_ms c.user
    let c' = record c { user = t.1 }
    if t.0 == success then release_io_pool c' else pure (t.0, c')

  -- `IOCore::create`: the core, or the error. The destructor of a core that failed does nothing.
  unfoldable pub create :
      IoCoreConfig → Threadpool → Threadpool → Extensions → M os.World (WinIoCore ⊎ ErrorCode)
  unfolding new_core initialize
  create conf io user extensions = do
    r ← initialize (new_core conf io user extensions)
    if r.0 == success then pure (inl r.1) else pure (inr r.0)
