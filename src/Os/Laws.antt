-- ===== src/Os/Laws.antt =====
-- What Winsock and Windows document of the calls, as hypotheses of the theorems that need them.
use firelink_net.Prelude.{ℕ, ◌<◌, ◌^◌, ◌≡◌, ◌≢◌, Bool, true, false, not, ◌==◌}
use firelink_net.Types.{invalid_socket, socket_error}
use firelink_net.Os.Base.{Call, Os}

-- Whether the value that a call returned means failure.
abbrev pub fails : Call → ℕ → Bool
fails (Call.wsa_socket f s p) r = r == invalid_socket
fails (Call.accept_socket s) r = r == invalid_socket
fails (Call.wsa_ioctl s g) r = not (r == 0)
fails (Call.bind_socket s a) r = not (r == 0)
fails (Call.listen_socket s b) r = not (r == 0)
fails (Call.shutdown_socket s h) r = not (r == 0)
fails (Call.protocol_info s) r = not (r == 0)
fails (Call.connect_socket s a) r = not (r == 0)
fails (Call.close_socket s) r = not (r == 0)
fails (Call.set_sock_opt s l o p n) r = not (r == 0)
fails (Call.get_sock_opt s l o p n) r = not (r == 0)
fails (Call.sock_name s) r = not (r == 0)
fails (Call.peer_name s) r = not (r == 0)
fails (Call.update_accept_context s l) r = not (r == 0)
fails (Call.update_connect_context s) r = not (r == 0)
fails (Call.select_read s t) r = r == socket_error
fails (Call.recv_span s p n) r = r == socket_error
fails (Call.accept_ex s a d) r = not (r == 1)
fails (Call.connect_ex s a d) r = not (r == 1)
fails (Call.disconnect_ex s d f) r = not (r == 1)
fails (Call.wsa_recv s p n d) r = r == socket_error
fails (Call.wsa_recv_from s p n d) r = r == socket_error
fails (Call.wsa_send s p n d) r = r == socket_error
fails (Call.wsa_send_to s p n a d) r = r == socket_error
fails (Call.create_io s) r = r == 0
fails Call.create_pool r = r == 0
fails (Call.set_pool_minimum p n) r = r == 0
fails Call.create_group r = r == 0
fails (Call.create_cleanup_thread g) r = r == 0
fails (Call.submit e) r = r == 0
fails Call.wsa_cleanup r = not (r == 0)
fails _ r = false

-- A call that failed has set the error that the next call of `WSAGetLastError` or `GetLastError`
-- returns, and it is not 0.
abbrev pub SetsLastError : Os → Type 0
SetsLastError os =
    (c : Call) (w : os.World)
    → fails c (os.answer c w).0.ret ≡ true
    → (os.answer Call.last_error (os.answer c w).1).0.ret ≢ 0

-- `ntohs` and `htons` undo one another on 16 bits, and stay within them.
pub record ByteOrder (os : Os) : Type 0 where
  pub to_host : (p : ℕ) → p < 2 ^ 16 → os.ntohs (os.htons p) ≡ p
  pub to_net : (p : ℕ) → p < 2 ^ 16 → os.htons (os.ntohs p) ≡ p
  pub host_small : (p : ℕ) → p < 2 ^ 16 → os.ntohs p < 2 ^ 16
