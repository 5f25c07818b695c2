-- ===== src/Examples/EchoServer.antt =====
-- examples/async_echo_server/async_echo_server.cpp: its handlers and its `main`.
pub mod Ledger
use firelink_net.Prelude.{
  ℕ, ◌^◌, ◌⊎◌, inl, inr, Bool, true, Option, none, some, ltb, ◌==◌, if◌then◌else◌,
}
use firelink_net.Types.{ErrorCode, success, ipv4, stream, tcp}
use firelink_net.Os.{Os, pure, ◌>>=◌, ◌>>◌}
use firelink_net.Socket.State.{WinSocket, socket, close}
use firelink_net.Socket.Sync.{bind, listen}
use firelink_net.Socket.Context.{create_socket, stop_io_context}
use firelink_net.IoCore.Threadpool.{Threadpool}
use firelink_net.IoCore.Extensions.{Extensions}
use firelink_net.IoCore.Core.{WinIoCore, initialize, release, create}
use firelink_net.Async.Store.{Invocation, S, lift, get_socket, put_socket, on_socket}
use firelink_net.Async.Start.{start_accept, start_recv, start_send}
use firelink_net.Examples.Buffer.{
  recv_span, two_threads, echo_ep, exit_failure, share_core, or_stop, release_and_fail,
}

-- The names of the three handlers.
abbrev pub on_accept : ℕ
on_accept = 1

abbrev pub on_recv : ℕ
on_recv = 2

abbrev pub on_send : ℕ
on_send = 3

module _ (os : Os) (buffer : ℕ) where
  -- `on_accept_complete`. No accepted socket comes with an error, so the null pointer is never used.
  unfoldable pub on_accept_complete : Option ℕ → ErrorCode → S os.World (Unit {0})
  on_accept_complete none error = or_stop os error (pure tt)
  on_accept_complete (some accepted) error =
      or_stop os error (do
        err ← start_recv os accepted (recv_span buffer) (some on_recv)
        or_stop os err (pure tt))

  -- `on_send_complete`
  unfoldable pub on_send_complete : ErrorCode → S os.World (Unit {0})
  on_send_complete error = or_stop os error (pure tt)

  -- There is data: answer, and receive again, both with the one buffer.
  unfoldable pub answer : ℕ → S os.World (Unit {0})
  answer caller = do
    err ← start_send os caller (recv_span buffer) (some on_send)
    or_stop os err (do
      err' ← start_recv os caller (recv_span buffer) (some on_recv)
      or_stop os err' (pure tt))

  -- `on_recv_complete`; the byte count is a 32-bit pattern.
  unfoldable pub on_recv_complete : ℕ → ErrorCode → ℕ → S os.World (Unit {0})
  on_recv_complete caller error bytes_transferred = or_stop os error (
      if ltb bytes_transferred (2 ^ 31)
      then if bytes_transferred == 0 then lift (stop_io_context os) else answer caller
      else lift (stop_io_context os))

-- The two sockets of `main`.
abbrev pub sock : ℕ
sock = 0

abbrev pub accept_sock : ℕ
accept_sock = 1

module _ (os : Os) (blocked : S os.World (Unit {0})) where
  -- From the closing of the listening socket on.
  unfoldable pub close_listener : WinIoCore → S os.World ℕ
  close_listener core = do
    err ← on_socket sock (close os)
    if err == success
        then (do r ← lift (release os core); if r.0 == success then pure 0 else pure exit_failure)
        else release_and_fail os core

  -- `run`, in which `main` blocks while the handlers do their work, and what follows it.
  unfoldable pub run_and_close : WinIoCore → S os.World ℕ
  unfolding close_listener
  run_and_close core = do
    _ ← blocked
    err ← on_socket accept_sock (close os)
    if err == success then close_listener core else release_and_fail os core

  -- From the second socket on.
  unfoldable pub accept_one : WinIoCore → S os.World ℕ
  unfolding run_and_close create_socket
  accept_one core = elim (create_socket true) [
    | inr e ↦ (do _ ← on_socket sock (close os); release_and_fail os core)
    | inl x ↦ (do
      _ ← put_socket accept_sock x
      err ← on_socket accept_sock λ a. socket os a ipv4 stream tcp
      if err == success
          then (do
            err' ← start_accept os sock accept_sock (some on_accept)
            if err' == success then run_and_close core else (do
              _ ← on_socket sock (close os)
              _ ← on_socket accept_sock (close os)
              release_and_fail os core))
          else (do _ ← on_socket sock (close os); release_and_fail os core))
  ]

  -- From the binding of the listening socket on; an error of `bind` leaves it open.
  unfoldable pub bind_and_listen : WinIoCore → S os.World ℕ
  unfolding accept_one
  bind_and_listen core = do
    err ← on_socket sock λ x. bind os x echo_ep
    if err == success
        then (do
          x ← get_socket sock
          err' ← lift (listen os x 5)
          if err' == success
              then accept_one core
              else (do _ ← on_socket sock (close os); release_and_fail os core))
        else release_and_fail os core

  -- From the first socket on.
  unfoldable pub open_listener : WinIoCore → S os.World ℕ
  unfolding bind_and_listen create_socket
  open_listener core = elim (create_socket true) [
    | inr e ↦ release_and_fail os core
    | inl x ↦ (do
      _ ← put_socket sock x
      err ← on_socket sock λ y. socket os y ipv4 stream tcp
      if err == success then bind_and_listen core else release_and_fail os core)
  ]

  -- `main`: the core is created, which initialises it, and initialised a second time.
  unfoldable pub server_main : Threadpool → Threadpool → Extensions → S os.World ℕ
  unfolding open_listener
  server_main io user extensions = do
    pending ← lift (create os two_threads io user extensions)
    elim pending [
      | inr e ↦ pure exit_failure
      | inl core ↦ (do
        _ ← share_core
        r ← lift (initialize os core)
        if r.0 == success then open_listener r.1 else pure exit_failure)
    ]
