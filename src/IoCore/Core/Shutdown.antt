-- ===== src/IoCore/Core/Shutdown.antt =====
-- What a core holds between `initialize` and `release` (src/platform/windows/win_io_core.cpp).
use firelink_net.Prelude.{ℕ, ◌+◌, ◌≡◌, ◌≢◌, arith}
use firelink_net.Types.{success}
use firelink_net.Os.{Call, Os, Machine, sys}
use firelink_net.Os.Ledger.{sock, pool, group, environ, winsock, Holds}
use firelink_net.Os.Laws.{SetsLastError}
use firelink_net.IoCore.Threadpool.{none, Threadpool, initialize_threadpool, release_threadpool}
use firelink_net.IoCore.Threadpool.Balance.{
  marked_environ, marked_pool, marked_group, initialize_threadpool_marks, release_threadpool_marks,
  initialize_threadpool_quiet, release_threadpool_quiet,
}
use firelink_net.IoCore.Extensions.Loading.{
  get_extended_socket_functions-environ, get_extended_socket_functions-pool,
  get_extended_socket_functions-group, get_extended_socket_functions-winsock,
  get_extended_socket_functions-sock,
}
use firelink_net.IoCore.Extensions.{Extensions, get_extended_socket_functions}
use firelink_net.IoCore.Core.{
  user_threadpool_cleanup_timeout_ms, io_threadpool_cleanup_timeout_ms, IoCoreConfig, WinIoCore,
  new_core, initialize, release, release_io_pool, cleanup_winsock, create, winsock_version,
}

-- How often the markers of the two pools say that the core holds a handle.
abbrev pub core_environ : WinIoCore → ℕ → ℕ
core_environ c h =
    marked_environ c.io.rollback c.io.environ h + marked_environ c.user.rollback c.user.environ h

abbrev pub core_pool : WinIoCore → ℕ → ℕ
core_pool c h =
    marked_pool c.io.rollback c.io.threadpool h + marked_pool c.user.rollback c.user.threadpool h

abbrev pub core_group : WinIoCore → ℕ → ℕ
core_group c h =
    marked_group c.io.rollback c.io.cleanup_group h
    + marked_group c.user.rollback c.user.cleanup_group h

module _ (os : Os) (c : WinIoCore) (m : Machine os.World) where
  -- If `initialize` succeeds, the markers of the two pools say exactly what the core acquired, and
  -- Winsock was started once.
  pub initialize-Holds :
      (h : ℕ)
      → SetsLastError os
      → let ((err, c'), m') = initialize os c m in
        err ≡ success
        → Holds environ h m.trace m'.trace (core_environ c' h)
          × Holds pool h m.trace m'.trace (core_pool c' h)
          × Holds group h m.trace m'.trace (core_group c' h)
          × Holds winsock 0 m.trace m'.trace 1
          × Holds sock h m.trace m'.trace 0
  unfolding initialize
  initialize-Holds h law e =
      let m1 = (sys os (Call.wsa_startup winsock_version) m).1 in
      let m2 = (get_extended_socket_functions os c.extensions m1).1 in
      let io =
        initialize_threadpool os c.conf.io_threadpool_min_threads c.conf.io_threadpool_max_threads
          c.io m2 in
      ground (
        arith,
        get_extended_socket_functions-sock os c.extensions m1 h law,
        get_extended_socket_functions-environ os c.extensions m1 h,
        get_extended_socket_functions-pool os c.extensions m1 h,
        get_extended_socket_functions-group os c.extensions m1 h,
        get_extended_socket_functions-winsock os c.extensions m1 0,
        initialize_threadpool_marks os c.io m2 h c.conf.io_threadpool_min_threads
            c.conf.io_threadpool_max_threads,
        initialize_threadpool_quiet os c.io m2 h c.conf.io_threadpool_min_threads
            c.conf.io_threadpool_max_threads,
        initialize_threadpool_quiet os c.io m2 0 c.conf.io_threadpool_min_threads
            c.conf.io_threadpool_max_threads,
        initialize_threadpool_marks os c.user io.1 h c.conf.user_threadpool_min_threads
            c.conf.user_threadpool_max_threads,
        initialize_threadpool_quiet os c.user io.1 h c.conf.user_threadpool_min_threads
            c.conf.user_threadpool_max_threads,
        initialize_threadpool_quiet os c.user io.1 0 c.conf.user_threadpool_min_threads
            c.conf.user_threadpool_max_threads,
      )

  -- If `release` succeeds, it gave back exactly what the markers of the two pools say, and reset
  -- both markers.
  pub release_gives_back :
      (h : ℕ)
      → let ((err, c'), m') = release os c m in
        err ≡ success
        → Holds environ h m'.trace m.trace (core_environ c h)
          × Holds pool h m'.trace m.trace (core_pool c h)
          × Holds group h m'.trace m.trace (core_group c h)
          × Holds sock h m.trace m'.trace 0
          × (c'.io.rollback ≡ none)
          × (c'.user.rollback ≡ none)
  unfolding release
  release_gives_back h e =
      let user = release_threadpool os user_threadpool_cleanup_timeout_ms c.user m in
      let io = release_threadpool os io_threadpool_cleanup_timeout_ms c.io user.1 in
      ground (
        arith,
        release_threadpool_marks os c.user m h user_threadpool_cleanup_timeout_ms,
        release_threadpool_quiet os c.user m h user_threadpool_cleanup_timeout_ms,
        release_threadpool_marks os c.io user.1 h io_threadpool_cleanup_timeout_ms,
        release_threadpool_quiet os c.io user.1 h io_threadpool_cleanup_timeout_ms,
      )

  cleanup-winsock :
      SetsLastError os
      → let ((err, c'), m') = cleanup_winsock os c m in
        err ≡ success → Holds winsock 0 m'.trace m.trace 1
  unfolding cleanup_winsock
  cleanup-winsock law e = ground (arith, law Call.wsa_cleanup m.world)

  -- If the release of the user pool reports an error, `release` returns it, and neither the IO pool
  -- nor Winsock is given back: only what the user pool held is.
  pub release_stops_early :
      (h : ℕ)
      → (release_threadpool os user_threadpool_cleanup_timeout_ms c.user m).0.0 ≢ success
      → let user = release_threadpool os user_threadpool_cleanup_timeout_ms c.user m in
        let ((err, c'), m') = release os c m in
        (err ≡ user.0.0)
        × (c'.io ≡ c.io)
        × Holds environ h m'.trace m.trace (marked_environ c.user.rollback c.user.environ h)
        × Holds pool h m'.trace m.trace (marked_pool c.user.rollback c.user.threadpool h)
        × Holds group h m'.trace m.trace (marked_group c.user.rollback c.user.cleanup_group h)
        × Holds winsock 0 m'.trace m.trace 0
  unfolding release
  release_stops_early h e = ground (
    arith,
    release_threadpool_marks os c.user m h user_threadpool_cleanup_timeout_ms,
    release_threadpool_quiet os c.user m 0 user_threadpool_cleanup_timeout_ms,
  )

  initialize-winsock :
      (os.answer (Call.wsa_startup winsock_version) m.world).0.ret ≡ 0
      → Holds winsock 0 m.trace (initialize os c m).1.trace 1
  unfolding initialize
  initialize-winsock e =
      let m1 = (sys os (Call.wsa_startup winsock_version) m).1 in
      let m2 = (get_extended_socket_functions os c.extensions m1).1 in
      let io =
        initialize_threadpool os c.conf.io_threadpool_min_threads c.conf.io_threadpool_max_threads
          c.io m2 in
      ground (
        arith,
        get_extended_socket_functions-winsock os c.extensions m1 0,
        initialize_threadpool_quiet os c.io m2 0 c.conf.io_threadpool_min_threads
            c.conf.io_threadpool_max_threads,
        initialize_threadpool_quiet os c.user io.1 0 c.conf.user_threadpool_min_threads
            c.conf.user_threadpool_max_threads,
      )

module _ (os : Os) (law : SetsLastError os) (c : WinIoCore) (m : Machine os.World) where
  release_io_pool-winsock :
      let ((err, c'), m') = release_io_pool os c m in
      err ≡ success → Holds winsock 0 m'.trace m.trace 1
  unfolding release_io_pool
  release_io_pool-winsock e =
      let io = release_threadpool os io_threadpool_cleanup_timeout_ms c.io m in
      ground (
        arith,
        release_threadpool_quiet os c.io m 0 io_threadpool_cleanup_timeout_ms,
        cleanup-winsock os (record c { io = io.0.1 }) io.1 law,
      )

module _ (os : Os) (law : SetsLastError os) (c : WinIoCore) (m : Machine os.World) where
  pub release-winsock :
      let ((err, c'), m') = release os c m in err ≡ success → Holds winsock 0 m'.trace m.trace 1
  unfolding release
  release-winsock e =
      let user = release_threadpool os user_threadpool_cleanup_timeout_ms c.user m in
      ground (
        arith,
        release_threadpool_quiet os c.user m 0 user_threadpool_cleanup_timeout_ms,
        release_io_pool-winsock os law (record c { user = user.0.1 }) user.1,
      )

-- If both succeed, `initialize` and then `release` give back every environment, pool, cleanup group
-- and socket that they acquired, and end Winsock as often as they started it.
-- Condition: a failed call of the system sets the last error, to a code that is not 0.
pub initialize-release_core :
    (os : Os) (c : WinIoCore) (m : Machine os.World) (h : ℕ)
    → SetsLastError os
    → (initialize os c m).0.0 ≡ success
    → (release os (initialize os c m).0.1 (initialize os c m).1).0.0 ≡ success
    → let r = initialize os c m in
      let m'' = (release os r.0.1 r.1).1 in
      Holds environ h m.trace m''.trace 0
      × Holds pool h m.trace m''.trace 0
      × Holds group h m.trace m''.trace 0
      × Holds winsock 0 m.trace m''.trace 0
      × Holds sock h m.trace m''.trace 0
initialize-release_core os c m h law e e' =
    let r = initialize os c m in
    omega (
      arith,
      initialize-Holds os c m h law e,
      release_gives_back os r.0.1 r.1 h e',
      release-winsock os law r.0.1 r.1 e',
    )

-- If `WSAStartup` succeeds, the call of `create` leaves Winsock started once more than before,
-- whether it returns a core or an error.
pub create-winsock :
    (os : Os) (conf : IoCoreConfig) (io user : Threadpool) (x : Extensions) (m : Machine os.World)
    → (os.answer (Call.wsa_startup winsock_version) m.world).0.ret ≡ 0
    → Holds winsock 0 m.trace (create os conf io user x m).1.trace 1
unfolding create
create-winsock os conf io user x m e =
    ground (arith, initialize-winsock os (new_core conf io user x) m e)
