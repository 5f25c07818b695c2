-- ===== src/IoCore/Threadpool.antt =====
-- `initialize_threadpool` and `release_threadpool` (src/platform/windows/win_io_core.cpp).
pub mod Balance
use firelink_net.Prelude.{ℕ, ◌-◌, ◌^◌, ◌==◌, if◌then◌else◌}
use firelink_net.Types.{ErrorCode, success, system_error}
use firelink_net.Os.{Call, Os, M, pure, ◌>>=◌, ◌>>◌, sys, last_error_code}

pub data ThreadpoolRollback : Type 0 where
  none init_environ create_threadpool create_cleanup_group : ThreadpoolRollback

-- The four members that the core keeps for each of its two pools. `environ` is the address of the
-- callback environment, which is a member and has no failure.
pub record Threadpool : Type 0 where
  pub environ : ℕ
  pub cleanup_group : ℕ
  pub threadpool : ℕ
  pub rollback : ThreadpoolRollback

abbrev wait_object_0 : ℕ
wait_object_0 = 0

abbrev wait_timeout : ℕ
wait_timeout = 258

abbrev wait_failed : ℕ
wait_failed = 2 ^ 32 - 1

module _ (os : Os) where
  -- From the creation of the cleanup group on.
  initialize_group : Threadpool → M os.World (ErrorCode × Threadpool)
  unfolding sys last_error_code
  initialize_group t = do
    g ← sys os Call.create_group
    let t' = record t { cleanup_group = g.ret }
    if g.ret == 0 then (do err ← last_error_code os; pure (err, t')) else (do
      _ ← sys os (Call.set_environ_pool t.environ t.threadpool)
      _ ← sys os (Call.set_environ_group t.environ g.ret)
      pure (success, record t' { rollback = create_cleanup_group }))

  -- From the limits on the threads on.
  initialize_limits : ℕ → ℕ → Threadpool → M os.World (ErrorCode × Threadpool)
  unfolding sys last_error_code initialize_group
  initialize_limits threads_min threads_max t = do
    _ ← sys os (Call.set_pool_maximum t.threadpool threads_max)
    r ← sys os (Call.set_pool_minimum t.threadpool threads_min)
    if r.ret == 0 then (do err ← last_error_code os; pure (err, t)) else initialize_group t

  unfoldable pub initialize_threadpool : ℕ → ℕ → Threadpool → M os.World (ErrorCode × Threadpool)
  unfolding sys last_error_code initialize_limits
  initialize_threadpool threads_min threads_max t = do
    _ ← sys os (Call.init_environ t.environ)
    p ← sys os Call.create_pool
    if p.ret == 0
        then (do
          err ← last_error_code os
          pure (err, record t { rollback = init_environ; threadpool = p.ret }))
        else initialize_limits threads_min threads_max
            (record t { rollback = create_threadpool; threadpool = p.ret })

  -- What the wait for the cleanup thread returned.
  wait_result : ℕ → M os.World ErrorCode
  unfolding last_error_code
  wait_result res =
      if res == wait_object_0
      then pure success
      else if res == wait_timeout
      then pure success
      else if res == wait_failed
      then last_error_code os
      else pure system_error

  -- `WaitForSingleObject`, `CloseHandle`, and only then a look at the result.
  wait_cleanup : ℕ → ℕ → M os.World ErrorCode
  unfolding sys last_error_code wait_result
  wait_cleanup thread timeout = if thread == 0 then last_error_code os else (do
    r ← sys os (Call.wait_thread thread timeout)
    _ ← sys os (Call.close_thread thread)
    wait_result r.ret)

  -- `case ThreadpoolRollback::CreateCleanupGroup`, without its fall-through.
  release_group : ℕ → Threadpool → M os.World ErrorCode
  unfolding sys wait_cleanup
  release_group timeout t = do
    r ← sys os (Call.create_cleanup_thread t.cleanup_group)
    err ← wait_cleanup r.ret timeout
    _ ← sys os (Call.close_group t.cleanup_group)
    pure err

  -- The `switch` on the rollback: a case goes on with the cases below it.
  release_from : ThreadpoolRollback → ℕ → Threadpool → M os.World ErrorCode
  unfolding sys release_group
  release_from create_cleanup_group timeout t = do
    err ← release_group timeout t
    _ ← sys os (Call.close_pool t.threadpool)
    _ ← sys os (Call.destroy_environ t.environ)
    pure err
  release_from create_threadpool timeout t = do
    _ ← sys os (Call.close_pool t.threadpool)
    _ ← sys os (Call.destroy_environ t.environ)
    pure success
  release_from init_environ timeout t = do _ ← sys os (Call.destroy_environ t.environ); pure success
  release_from none timeout t = pure success

  unfoldable pub release_threadpool : ℕ → Threadpool → M os.World (ErrorCode × Threadpool)
  unfolding release_from
  release_threadpool timeout t = do
    err ← release_from t.rollback timeout t
    pure (err, record t { rollback = none })
