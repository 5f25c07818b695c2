-- ===== src/Async/Completion.antt =====
-- `socket_io_routine`, which the IO thread pool calls when an operation has completed, and the work
-- that it posts to the user thread pool (src/platform/windows/win_socket.cpp).
pub mod Fates
pub mod Lifetime
pub mod Settles
pub mod Local
pub mod Once
use firelink_net.Prelude.{ℕ, ◌%◌, ◌^◌, Bool, true, false, Option, none, some, ◌==◌, if◌then◌else◌}
use firelink_net.Types.{ErrorCode, success, system_error, socket_error}
use firelink_net.Endpoint.{Endpoint, blank}
use firelink_net.Os.{
  Call, SockaddrStorage, Reply, Os, M, pure, ◌>>=◌, ◌>>◌, sys, last_error_code, lock_core,
}
use firelink_net.Socket.State.{WinSocket}
use firelink_net.Socket.Address.{sockaddr_to_endpoint}
use firelink_net.Async.Store.{
  Handler, accept_handler, connect_handler, read_handler, write_handler, disconnect_handler, IoData,
  Work, Invocation, Store, S, lift, get_socket, delete_io, set_io, invoke, enqueue,
}

-- `if(err != Success) if(error_code_ == Success) error_code_ = err;`
abbrev first_error : ErrorCode → ErrorCode → ErrorCode
first_error error err = if err == success then error else if error == success then err else error

-- The environment of the user thread pool, `&user_threadpool_environ_`.
abbrev user_environ : ℕ
user_environ = 1

-- `bool(handler)`
abbrev pub is_given : Handler → Bool
is_given (accept_handler (some f)) = true
is_given (connect_handler (some f)) = true
is_given (read_handler (some f)) = true
is_given (write_handler (some f)) = true
is_given (disconnect_handler (some f)) = true
is_given (accept_handler none) = false
is_given (connect_handler none) = false
is_given (read_handler none) = false
is_given (write_handler none) = false
is_given (disconnect_handler none) = false

-- The arguments of a handler, read from the `IOData` at the time of the call.
abbrev pub invocation : IoData → Handler → Endpoint → Endpoint → Invocation
invocation d handler local_ep peer_ep = record {
  handler = handler;
  caller = d.socket;
  accepted = d.accept_socket;
  local_ep = local_ep;
  peer_ep = peer_ep;
  error = d.error_code;
  bytes = d.bytes_transferred;
}

-- The body of a posted closure, run by the user thread pool.
pub run_work : {W : Type 0} → Work → S W (Unit {0})
run_work w s = elim (s.heap w.io_data) [
  | none ↦ (tt, s)
  | some d ↦ (do _ ← invoke (invocation d w.handler w.local_ep w.peer_ep); delete_io w.io_data) s
]

-- The work of the kinds that tell no addresses.
plain_work : ℕ → Handler → Work
plain_work p handler = record { io_data = p; handler = handler; local_ep = blank; peer_ep = blank }

module _ (os : Os) where
  -- `WinSocket::update_accept_socket_context`
  update_accept_socket_context : WinSocket → WinSocket → M os.World ErrorCode
  unfolding sys last_error_code
  update_accept_socket_context listen_socket accept_socket = do
    r ← sys os (Call.update_accept_context accept_socket.native_handle listen_socket.native_handle)
    if r.ret == socket_error then last_error_code os else pure success

  -- `WinSocket::update_connect_socket_context`
  update_connect_socket_context : WinSocket → M os.World ErrorCode
  unfolding sys last_error_code
  update_connect_socket_context connect_socket = do
    r ← sys os (Call.update_connect_context connect_socket.native_handle)
    if r.ret == socket_error then last_error_code os else pure success

  -- `WinSocket::get_acceptex_sockaddrs`: both addresses are written, or neither.
  get_acceptex_sockaddrs : ℕ → IoData → M os.World (ErrorCode × IoData)
  unfolding sys
  get_acceptex_sockaddrs p d = do
    r ← sys os (Call.accept_ex_sockaddrs p)
    elim r.address [
      | none ↦ pure (system_error, d)
      | some local ↦ elim r.peer [
        | none ↦ pure (system_error, d)
        | some remote ↦ pure (success, record d { local_win_addr = local; peer_win_addr = remote })
      ]
    ]

  -- `post_user_work` with a closure over the `IOData`.
  post_user_work : Work → S os.World ErrorCode
  unfolding sys last_error_code
  post_user_work w = do
    r ← lift (sys os (Call.submit user_environ))
    if r.ret == 0 then lift (last_error_code os) else (do _ ← enqueue w; pure success)

  -- The end that every kind of handler shares, if a handler is given: post, or call by hand. The
  -- result tells whether the `IOData` must stay.
  hand_over : Work → IoData → S os.World Bool
  unfolding post_user_work lock_core
  hand_over w d = do
    alive ← lift lock_core
    if alive
        then (do
          err ← post_user_work w
          if err == success then pure true else (do
            let d' = record d { error_code = first_error d.error_code err }
            _ ← set_io w.io_data d'
            _ ← invoke (invocation d' w.handler w.local_ep w.peer_ep)
            pure false))
        else pure false

  hand_over_if_given : Work → IoData → S os.World Bool
  hand_over_if_given w d = if is_given w.handler then hand_over w d else pure false

  -- The context of the accepted socket; no socket is an error of its own.
  accept_context : IoData → S os.World ErrorCode
  unfolding update_accept_socket_context
  accept_context d = elim d.accept_socket [
    | none ↦ pure system_error
    | some a ↦ (do
      listening ← get_socket d.socket
      accepting ← get_socket a
      lift (update_accept_socket_context listening accepting))
  ]

  -- The addresses of an accepted connection, if there is a handler to tell them to.
  accept_addresses : ℕ → IoData → Handler → S os.World Bool
  accept_addresses p d handler = do
    r ← lift (get_acceptex_sockaddrs p d)
    let local = sockaddr_to_endpoint os r.1.local_win_addr blank
    let peer = sockaddr_to_endpoint os r.1.peer_win_addr blank
    let error = first_error (first_error (first_error d.error_code r.0) local.0) peer.0
    let d' = record (r.1) { error_code = error }
    _ ← set_io p d'
    hand_over (record { io_data = p; handler = handler; local_ep = local.1; peer_ep = peer.1 }) d'

  complete_accept : ℕ → IoData → Handler → S os.World Bool
  complete_accept p d handler = do
    err ← accept_context d
    let d' = record d { error_code = first_error d.error_code err }
    _ ← set_io p d'
    if is_given handler then accept_addresses p d' handler else pure false

  complete_connect : ℕ → IoData → Handler → S os.World Bool
  complete_connect p d handler = do
    caller ← get_socket d.socket
    err ← lift (update_connect_socket_context caller)
    let d' = record d { error_code = first_error d.error_code err }
    _ ← set_io p d'
    hand_over_if_given (plain_work p handler) d'

  -- The `std::visit`: the result tells whether user work was posted.
  visit : ℕ → IoData → Handler → S os.World Bool
  visit p d (accept_handler f) = complete_accept p d (accept_handler f)
  visit p d (connect_handler f) = complete_connect p d (connect_handler f)
  visit p d (read_handler f) = hand_over_if_given (plain_work p (read_handler f)) d
  visit p d (write_handler f) = hand_over_if_given (plain_work p (write_handler f)) d
  visit p d (disconnect_handler f) = hand_over_if_given (plain_work p (disconnect_handler f)) d

  -- `WinSocket::socket_io_routine` for the `IOData` with the name `p`; the result of the operation
  -- and the byte count are cast to `int`. A name that no live `IOData` has stands for the null
  -- pointer.
  pub socket_io_routine : ℕ → ℕ → ℕ → S os.World (Unit {0})
  socket_io_routine p io_result n_bytes_transferred s = elim (s.heap p) [
    | none ↦ (tt, s)
    | some d ↦
        (do
          let d' = record d {
            bytes_transferred = n_bytes_transferred % 2 ^ 32;
            error_code = io_result;
          }
          _ ← set_io p d'
          posted ← visit p d' d'.user_handler
          if posted then pure tt else delete_io p)
          s
  ]
