-- ===== src/Async/Store.antt =====
-- The memory that the asynchronous operations share: the socket objects, the `IOData` on the heap,
-- the work in the user thread pool, and the calls of the user's handlers
-- (include/firelink/platform/windows/win_socket.hpp, src/platform/windows/win_socket.cpp).
use firelink_net.Prelude.{update, ℕ, suc, Option, none, some, List, ◌∷◌}
use firelink_net.Types.{ErrorCode}
use firelink_net.Endpoint.{Endpoint}
use firelink_net.Os.{Span, SockaddrStorage, Machine, M}
use firelink_net.Socket.State.{WinSocket}

-- The variant of handlers. The number names the user's function; `none` is an empty `std::function`.
pub data Handler : Type 0 where
  accept_handler connect_handler read_handler write_handler disconnect_handler : Option ℕ → Handler

-- The buffer for the addresses of `AcceptEx` is only ever handed to the system, so it has no field.
pub record IoData : Type 0 where
  pub user_buffer : Span
  pub local_win_addr : SockaddrStorage
  pub peer_win_addr : SockaddrStorage
  pub socket : ℕ
  pub accept_socket : Option ℕ
  pub user_handler : Handler
  pub error_code : ErrorCode
  pub bytes_transferred : ℕ

-- A closure that `socket_io_routine` posted: what it captured.
pub record Work : Type 0 where
  pub io_data : ℕ
  pub handler : Handler
  pub local_ep : Endpoint
  pub peer_ep : Endpoint

-- One call of a user's handler, with the arguments that its kind has.
pub record Invocation : Type 0 where
  pub handler : Handler
  pub caller : ℕ
  pub accepted : Option ℕ
  pub local_ep : Endpoint
  pub peer_ep : Endpoint
  pub error : ErrorCode
  pub bytes : ℕ

-- Sockets and `IOData` are named by numbers, which stand for their addresses. `deleted` lists every
-- `delete io_data`, newest first.
pub record Store (W : Type 0) : Type 0 where
  pub machine : Machine W
  pub sockets : ℕ → WinSocket
  pub heap : ℕ → Option IoData
  pub next_io : ℕ
  pub posted : List Work
  pub called : List Invocation
  pub deleted : List ℕ

abbrev pub S : Type 0 → Type 0 → Type 0
S W A = Store W → A × Store W

-- A computation of the synchronous half.
abbrev pub lift : {W A : Type 0} → M W A → S W A
lift x s = let (a, m) = x s.machine in (a, record s { machine = m })

abbrev pub get_socket : {W : Type 0} → ℕ → S W WinSocket
get_socket i s = (s.sockets i, s)

abbrev pub put_socket : {W : Type 0} → ℕ → WinSocket → S W (Unit {0})
put_socket i x s = (tt, record s { sockets = update s.sockets i x })

-- A method of the object `i`.
abbrev pub on_socket : {W A : Type 0} → ℕ → (WinSocket → M W (A × WinSocket)) → S W A
on_socket i f s =
    let (r, m) = f (s.sockets i) s.machine in
    (r.0, record s { machine = m; sockets = update s.sockets i r.1 })

-- `new IOData{}` with its first assignments.
abbrev pub new_io : {W : Type 0} → IoData → S W ℕ
new_io d s =
    (s.next_io, record s { heap = update s.heap s.next_io (some d); next_io = suc s.next_io })

-- `delete io_data`
abbrev pub delete_io : {W : Type 0} → ℕ → S W (Unit {0})
delete_io p s = (tt, record s { heap = update s.heap p none; deleted = p ∷ s.deleted })

abbrev pub set_io : {W : Type 0} → ℕ → IoData → S W (Unit {0})
set_io p d s = (tt, record s { heap = update s.heap p (some d) })

abbrev pub invoke : {W : Type 0} → Invocation → S W (Unit {0})
invoke i s = (tt, record s { called = i ∷ s.called })

abbrev pub enqueue : {W : Type 0} → Work → S W (Unit {0})
enqueue w s = (tt, record s { posted = w ∷ s.posted })
