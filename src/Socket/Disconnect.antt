-- ===== src/Socket/Disconnect.antt =====
-- `WinSocket::disconnect` (src/platform/windows/win_socket.cpp): a loop that throws away what the
-- peer still sends. It has no bound of its own, so it runs on fuel; `none` means that it ran out.
pub mod Termination
use firelink_net.Prelude.{
  ℕ, zero, suc, ◌+◌, ◌-◌, ◌*◌, ◌/◌, ◌%◌, ◌^◌, Bool, true, false, not, ◌&&◌, Option, none, some, ltb,
  leb, ◌==◌, if◌then◌else◌,
}
use firelink_net.Types.{ErrorCode, success, timed_out, sd_send, socket_error}
use firelink_net.Os.{Call, Os, M, pure, ◌>>=◌, sys, last_error_code}
use firelink_net.Socket.State.{WinSocket}
use firelink_net.Socket.Sync.{extend_sign}

-- The address of the local buffer, which nothing looks at, and its length.
abbrev scrap_buffer : ℕ
scrap_buffer = 0

abbrev scrap_buf_len : ℕ
scrap_buf_len = 512

-- `a - b` on `ULONGLONG`
unfoldable pub sub64 : ℕ → ℕ → ℕ
sub64 a b = (a + 2 ^ 64 - b) % 2 ^ 64

-- `time_val` for the time that is left; `tv_sec` is a 32-bit `long`.
unfoldable pub time_val : ℕ → ℕ × ℕ
time_val new_timeout = (new_timeout / 1000 % 2 ^ 32, new_timeout % 1000 * 1000)

-- What is given to `select`: no `time_val` waits for ever.
unfoldable pub wait_for : ℕ → ℕ → Option (ℕ × ℕ)
unfolding sub64 time_val extend_sign
wait_for timeout_ms elapsed =
    if timeout_ms == 0 then none else some (time_val (sub64 (extend_sign timeout_ms) elapsed))

module _ (os : Os) (s : WinSocket) where
  -- There is data: `recv`. `none` goes round again.
  unfoldable pub scrap : M os.World (Option ErrorCode)
  unfolding sys last_error_code
  scrap = do
    n ← sys os (Call.recv_span s.native_handle scrap_buffer scrap_buf_len)
    if n.ret == socket_error
        then (do err ← last_error_code os; pure (some err))
        else if n.ret == 0
        then pure (some success)
        else pure none

  -- `select`, and what follows in the body of the loop.
  unfoldable pub await : Option (ℕ × ℕ) → M os.World (Option ErrorCode)
  unfolding sys last_error_code scrap
  await timeout = do
    r ← sys os (Call.select_read s.native_handle timeout)
    if ltb 0 r.ret && ltb r.ret (2 ^ 31)
        then scrap
        else if r.ret == socket_error
        then (do err ← last_error_code os; pure (some err))
        else pure none

  -- The body of the loop.
  unfoldable pub round : ℕ → ℕ → M os.World (Option ErrorCode)
  unfolding sys
  round timeout_ms operation_start_time = do
    now ← sys os Call.tick_count
    let elapsed = sub64 now.ret operation_start_time
    if not (timeout_ms == 0) && leb (extend_sign timeout_ms) elapsed
        then pure (some timed_out)
        else await (wait_for timeout_ms elapsed)

  unfoldable pub rounds : ℕ → ℕ → ℕ → M os.World (Option ErrorCode)
  rounds zero timeout_ms operation_start_time = pure none
  rounds (suc fuel) timeout_ms operation_start_time = do
    r ← round timeout_ms operation_start_time
    elim r [ some err ↦ pure (some err) | none ↦ rounds fuel timeout_ms operation_start_time ]

  -- `WinSocket::disconnect`
  unfoldable pub disconnect : ℕ → ℕ → M os.World (Option ErrorCode)
  unfolding sys last_error_code
  disconnect fuel timeout_ms = do
    r ← sys os (Call.shutdown_socket s.native_handle sd_send)
    if r.ret == 0
        then (do start ← sys os Call.tick_count; rounds fuel timeout_ms start.ret)
        else (do err ← last_error_code os; pure (some err))
