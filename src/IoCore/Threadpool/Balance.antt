-- ===== src/IoCore/Threadpool/Balance.antt =====
-- The rollback marker of a thread pool against what the trace says is held
-- (src/platform/windows/win_io_core.cpp).
use firelink_net.Prelude.{ℕ, ◌≡◌, ◌≢◌, ◌⊎◌, ◌==◌, if◌then◌else◌, arith}
use firelink_net.Types.{success}
use firelink_net.Os.{Os, Machine}
use firelink_net.Os.Ledger.{
  pool, group, environ, sock, winsock, cleanup_thread, lost_thread, Holds, Remains,
}
use firelink_net.Os.Laws.{SetsLastError}
use firelink_net.IoCore.Threadpool.{
  ThreadpoolRollback, none, create_threadpool, create_cleanup_group, Threadpool,
  initialize_threadpool, release_threadpool,
}

-- How often the marker says that the pool holds the handle `h` of each kind.
abbrev pub marked_environ : ThreadpoolRollback → ℕ → ℕ → ℕ
marked_environ none e h = 0
marked_environ _ e h = if h == e then 1 else 0

abbrev pub marked_pool : ThreadpoolRollback → ℕ → ℕ → ℕ
marked_pool create_threadpool p h = if h == p then 1 else 0
marked_pool create_cleanup_group p h = if h == p then 1 else 0
marked_pool _ p h = 0

abbrev pub marked_group : ThreadpoolRollback → ℕ → ℕ → ℕ
marked_group create_cleanup_group g h = if h == g then 1 else 0
marked_group _ g h = 0

module _ (os : Os) (t : Threadpool) (m : Machine os.World) (h : ℕ) where
  -- Wherever the initialisation of a pool stops, the rollback marker that it leaves says exactly
  -- which environment, pool and cleanup group it acquired.
  pub initialize_threadpool_marks :
      (threads_min threads_max : ℕ)
      → let ((err, t'), m') = initialize_threadpool os threads_min threads_max t m in
        Holds environ h m.trace m'.trace (marked_environ t'.rollback t'.environ h)
        × Holds pool h m.trace m'.trace (marked_pool t'.rollback t'.threadpool h)
        × Holds group h m.trace m'.trace (marked_group t'.rollback t'.cleanup_group h)
        × (t'.environ ≡ t.environ)
  unfolding initialize_threadpool
  initialize_threadpool_marks threads_min threads_max = ground arith

  -- Releasing gives back exactly what the marker says, each once, calls `CloseHandle` once for the
  -- cleanup thread that it made, and resets the marker.
  pub release_threadpool_marks :
      (timeout : ℕ)
      → let ((err, t'), m') = release_threadpool os timeout t m in
        Holds environ h m'.trace m.trace (marked_environ t.rollback t.environ h)
        × Holds pool h m'.trace m.trace (marked_pool t.rollback t.threadpool h)
        × Holds group h m'.trace m.trace (marked_group t.rollback t.cleanup_group h)
        × Remains cleanup_thread lost_thread h m.trace m'.trace 0
        × (t'.rollback ≡ none)
  unfolding release_threadpool
  release_threadpool_marks timeout = ground arith

  -- Neither touches a socket or the start of Winsock, and no cleanup thread is left unclosed.
  pub initialize_threadpool_quiet :
      (threads_min threads_max : ℕ)
      → let m' = (initialize_threadpool os threads_min threads_max t m).1 in
        Holds sock h m.trace m'.trace 0
        × Holds winsock h m.trace m'.trace 0
        × Remains cleanup_thread lost_thread h m.trace m'.trace 0
  unfolding initialize_threadpool
  initialize_threadpool_quiet threads_min threads_max = ground arith

  pub release_threadpool_quiet :
      (timeout : ℕ)
      → let m' = (release_threadpool os timeout t m).1 in
        Holds sock h m.trace m'.trace 0 × Holds winsock h m.trace m'.trace 0
  unfolding release_threadpool
  release_threadpool_quiet timeout = ground arith

-- Initialising a pool and releasing it gives back every environment, pool and cleanup group that
-- was acquired, and calls `CloseHandle` once for every cleanup thread that was made, at whatever
-- point the initialisation stopped and whatever the release reports.
pub initialize-release_balanced :
    (os : Os) (t : Threadpool) (m : Machine os.World) (h threads_min threads_max timeout : ℕ)
    → let ((err, t'), m') = initialize_threadpool os threads_min threads_max t m in
      let m'' = (release_threadpool os timeout t' m').1 in
      Holds environ h m.trace m''.trace 0
      × Holds pool h m.trace m''.trace 0
      × Holds group h m.trace m''.trace 0
      × Remains cleanup_thread lost_thread h m.trace m''.trace 0
initialize-release_balanced os t m h threads_min threads_max timeout =
    let r = initialize_threadpool os threads_min threads_max t m in
    omega (
      arith,
      initialize_threadpool_marks os t m h threads_min threads_max,
      initialize_threadpool_quiet os t m h threads_min threads_max,
      release_threadpool_marks os r.0.1 r.1 h timeout,
    )

-- The initialisation succeeds exactly if it leaves the last marker.
initialize_threadpool_outcome :
    (os : Os) (t : Threadpool) (m : Machine os.World) (threads_min threads_max : ℕ)
    → SetsLastError os
    → let ((err, t'), m') = initialize_threadpool os threads_min threads_max t m in
      ((err ≡ success)
        × (t'.rollback ≡ create_cleanup_group)
        × (t'.threadpool ≢ 0)
        × (t'.cleanup_group ≢ 0))
      ⊎ ((err ≢ success) × (t'.rollback ≢ create_cleanup_group))
unfolding initialize_threadpool
initialize_threadpool_outcome os t m threads_min threads_max law = grind (arith, law)
