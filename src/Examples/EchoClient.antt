-- ===== src/Examples/EchoClient.antt =====
-- examples/async_echo_client/async_echo_client.cpp: its handlers and its `main`.
pub mod Ledger
use firelink_net.Prelude.{ℕ, ◌^◌, inl, inr, true, false, some, ltb, ◌==◌, if◌then◌else◌}
use firelink_net.Types.{ErrorCode, success, ipv4, stream, tcp}
use firelink_net.Endpoint.{blank}
use firelink_net.Os.{Os, pure, ◌>>=◌, ◌>>◌}
use firelink_net.Socket.State.{socket, close}
use firelink_net.Socket.Sync.{get_sock_name, get_peer_name}
use firelink_net.Socket.Context.{create_socket, stop_io_context}
use firelink_net.IoCore.Threadpool.{Threadpool}
use firelink_net.IoCore.Extensions.{Extensions}
use firelink_net.IoCore.Core.{WinIoCore, initialize, release, create}
use firelink_net.Async.Store.{S, lift, get_socket, put_socket, on_socket}
use firelink_net.Async.Start.{start_connect, start_recv, start_send, start_disconnect}
use firelink_net.Examples.Buffer.{
  recv_span, two_threads, echo_ep, exit_failure, share_core, or_stop, release_and_fail,
}

-- The names of the four handlers.
abbrev pub on_connect : ℕ
on_connect = 1

abbrev pub on_recv : ℕ
on_recv = 2

abbrev pub on_send : ℕ
on_send = 3

abbrev pub on_disconnect : ℕ
on_disconnect = 4

module _ (os : Os) where
  -- The names of both ends, which are only printed.
  unfoldable pub look_up_names : ℕ → S os.World (Unit {0})
  look_up_names caller = do
    x ← get_socket caller
    _ ← lift (get_sock_name os x blank)
    _ ← lift (get_peer_name os x blank)
    pure tt

module _ (os : Os) (buffer : ℕ) where
  -- `on_connect_complete`
  unfoldable pub on_connect_complete : ℕ → ErrorCode → S os.World (Unit {0})
  unfolding look_up_names
  on_connect_complete caller error = or_stop os error (do
    _ ← look_up_names os caller
    err ← start_send os caller (recv_span buffer) (some on_send)
    or_stop os err (do
      err' ← start_recv os caller (recv_span buffer) (some on_recv)
      or_stop os err' (pure tt)))

  -- `on_send_complete`
  unfoldable pub client_on_send_complete : ErrorCode → S os.World (Unit {0})
  client_on_send_complete error = or_stop os error (pure tt)

  -- There is data: disconnect, and receive until the peer has closed its side.
  unfoldable pub hang_up : ℕ → S os.World (Unit {0})
  hang_up caller = do
    err ← start_disconnect os caller false (some on_disconnect)
    or_stop os err (do
      err' ← start_recv os caller (recv_span buffer) (some on_recv)
      or_stop os err' (pure tt))

  -- `on_recv_complete`; the byte count is a 32-bit pattern.
  unfoldable pub client_on_recv_complete : ℕ → ErrorCode → ℕ → S os.World (Unit {0})
  client_on_recv_complete caller error bytes_transferred = or_stop os error (
      if ltb bytes_transferred (2 ^ 31)
      then if bytes_transferred == 0 then lift (stop_io_context os) else hang_up caller
      else lift (stop_io_context os))

  -- `on_disconnect_complete`
  unfoldable pub on_disconnect_complete : ℕ → ErrorCode → S os.World (Unit {0})
  unfolding look_up_names
  on_disconnect_complete caller error = or_stop os error (look_up_names os caller)

-- The socket of `main`.
abbrev pub sock : ℕ
sock = 0

module _ (os : Os) (blocked : S os.World (Unit {0})) where
  -- `run`, in which `main` blocks while the handlers do their work, and what follows it.
  unfoldable pub run_and_release : WinIoCore → S os.World ℕ
  run_and_release core = do
    _ ← blocked
    err ← on_socket sock (close os)
    if err == success
        then (do r ← lift (release os core); if r.0 == success then pure 0 else pure exit_failure)
        else release_and_fail os core

  -- From the connecting on.
  unfoldable pub connect_and_run : WinIoCore → S os.World ℕ
  unfolding run_and_release
  connect_and_run core = do
    err ← start_connect os sock echo_ep (some on_connect)
    if err == success
        then run_and_release core
        else (do _ ← on_socket sock (close os); release_and_fail os core)

  -- From the socket on.
  unfoldable pub open_connection : WinIoCore → S os.World ℕ
  unfolding connect_and_run create_socket
  open_connection core = elim (create_socket true) [
    | inr e ↦ release_and_fail os core
    | inl x ↦ (do
      _ ← put_socket sock x
      err ← on_socket sock λ y. socket os y ipv4 stream tcp
      if err == success then connect_and_run core else release_and_fail os core)
  ]

  -- `main`: the core is created, which initialises it, and initialised a second time.
  unfoldable pub client_main : Threadpool → Threadpool → Extensions → S os.World ℕ
  unfolding open_connection
  client_main io user extensions = do
    pending ← lift (create os two_threads io user extensions)
    elim pending [
      | inr e ↦ pure exit_failure
      | inl core ↦ (do
        _ ← share_core
        r ← lift (initialize os core)
        if r.0 == success then open_connection r.1 else pure exit_failure)
    ]
