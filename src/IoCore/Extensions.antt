-- ===== src/IoCore/Extensions.antt =====
-- `get_extended_socket_functions` (src/platform/windows/win_io_core.cpp), which fills the static
-- function pointers of `WinSocket`.
pub mod Loading
use firelink_net.Prelude.{ℕ, ◌==◌, if◌then◌else◌}
use firelink_net.Types.{ErrorCode, success, ipv4, stream, invalid_socket}
use firelink_net.Os.{Call, Os, M, pure, ◌>>=◌, ◌>>◌, sys, last_error_code}

-- `lpfn_accept_ex_` and so on; 0 is `nullptr`.
pub record Extensions : Type 0 where
  pub accept_ex : ℕ
  pub get_accept_ex_sockaddrs : ℕ
  pub connect_ex : ℕ
  pub disconnect_ex : ℕ

-- The GUIDs, by their place in the source.
abbrev pub guid_acceptex : ℕ
guid_acceptex = 0

abbrev pub guid_getacceptexsockaddrs : ℕ
guid_getacceptexsockaddrs = 1

abbrev pub guid_connectex : ℕ
guid_connectex = 2

abbrev pub guid_disconnectex : ℕ
guid_disconnectex = 3

pub data Loaded : Type 0 where
  pointer : ℕ → Loaded
  failed : ErrorCode → Loaded

module _ (os : Os) where
  -- One of the four paragraphs: a pointer that is there stays; else it is asked for, and on failure
  -- the dummy socket is closed and the function returns.
  retrieve : ℕ → ℕ → ℕ → M os.World Loaded
  unfolding sys last_error_code
  retrieve dummy_socket guid current =
      if current == 0
      then (do
        r ← sys os (Call.wsa_ioctl dummy_socket guid)
        if r.ret == 0 then pure (pointer r.out) else (do
          result ← last_error_code os
          _ ← sys os (Call.close_socket dummy_socket)
          pure (failed result)))
      else pure (pointer current)

  -- Goes on with the pointer, or returns the error with the pointers so far.
  retrieve_then :
      ℕ
      → ℕ
      → ℕ
      → Extensions
      → (ℕ → M os.World (ErrorCode × Extensions))
      → M os.World (ErrorCode × Extensions)
  unfolding retrieve
  retrieve_then dummy_socket guid current x rest = do
    l ← retrieve dummy_socket guid current
    elim l [ pointer p ↦ rest p | failed e ↦ pure (e, x) ]

  close_dummy : ℕ → Extensions → M os.World (ErrorCode × Extensions)
  unfolding sys last_error_code
  close_dummy dummy_socket x = do
    r ← sys os (Call.close_socket dummy_socket)
    if r.ret == 0 then pure (success, x) else (do err ← last_error_code os; pure (err, x))

  retrieve_disconnect_ex : ℕ → Extensions → M os.World (ErrorCode × Extensions)
  unfolding retrieve_then close_dummy
  retrieve_disconnect_ex dummy_socket x =
      retrieve_then dummy_socket guid_disconnectex x.disconnect_ex x
        λ p. close_dummy dummy_socket (record x { disconnect_ex = p })

  retrieve_connect_ex : ℕ → Extensions → M os.World (ErrorCode × Extensions)
  unfolding retrieve_then retrieve_disconnect_ex
  retrieve_connect_ex dummy_socket x =
      retrieve_then dummy_socket guid_connectex x.connect_ex x
        λ p. retrieve_disconnect_ex dummy_socket (record x { connect_ex = p })

  retrieve_get_accept_ex_sockaddrs : ℕ → Extensions → M os.World (ErrorCode × Extensions)
  unfolding retrieve_then retrieve_connect_ex
  retrieve_get_accept_ex_sockaddrs dummy_socket x =
      retrieve_then dummy_socket guid_getacceptexsockaddrs x.get_accept_ex_sockaddrs x
        λ p. retrieve_connect_ex dummy_socket (record x { get_accept_ex_sockaddrs = p })

  -- The four paragraphs, from the first on.
  retrieve_all : ℕ → Extensions → M os.World (ErrorCode × Extensions)
  unfolding retrieve_then retrieve_get_accept_ex_sockaddrs
  retrieve_all dummy_socket x =
      retrieve_then dummy_socket guid_acceptex x.accept_ex x
        λ p. retrieve_get_accept_ex_sockaddrs dummy_socket (record x { accept_ex = p })

  unfoldable pub get_extended_socket_functions : Extensions → M os.World (ErrorCode × Extensions)
  unfolding sys last_error_code retrieve_all
  get_extended_socket_functions x = do
    d ← sys os (Call.wsa_socket ipv4 stream 0)
    if d.ret == invalid_socket
        then (do err ← last_error_code os; pure (err, x))
        else retrieve_all d.ret x
