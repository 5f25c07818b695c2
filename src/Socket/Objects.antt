-- ===== src/Socket/Objects.antt =====
-- Any number of socket objects and any sequence of calls of their synchronous methods
-- (src/platform/windows/win_socket.cpp). The methods that change no field of an object are one case.
pub mod Owned
use firelink_net.Prelude.{ℕ, update, ◌<◌, ◌≡◌, Bool, true, not, ◌&&◌, ◌==◌, if◌then◌else◌}
use firelink_net.Types.{ErrorCode, invalid_socket}
use firelink_net.Endpoint.{Endpoint}
use firelink_net.Os.{Os, Machine, M, Span}
use firelink_net.Socket.State.{WinSocket, new_socket, socket, close}
use firelink_net.Socket.Disconnect.{disconnect}
use firelink_net.Socket.Sync.{
  bind, listen, shutdown, accept, connect, recv, recv_from, send, send_to, set_socket_option,
  get_socket_option, get_sock_name, get_peer_name,
}

pub record Objects (W : Type 0) : Type 0 where
  pub machine : Machine W
  pub sockets : ℕ → WinSocket

-- A call: the object that may change, and the arguments.
pub data Method : Type 0 where
  opens : ℕ → ℕ → ℕ → ℕ → Method
  closes : ℕ → Method
  accepts : ℕ → ℕ → Method
  binds connects : ℕ → Endpoint → Method
  sends_to : ℕ → Span → Endpoint → Method
  listens shuts_down : ℕ → ℕ → Method
  disconnects : ℕ → ℕ → ℕ → Method
  receives sends : ℕ → Span → Method
  receives_from : ℕ → Span → Endpoint → Method
  sets_option : ℕ → ℕ → ℕ → Span → Method
  gets_option : ℕ → ℕ → ℕ → Span → ℕ → Method
  gets_sock_name gets_peer_name : ℕ → Endpoint → Method

-- The object that the call may change: `accept` changes the accepting one.
abbrev pub target : Method → ℕ
target (opens i family type proto) = i
target (closes i) = i
target (accepts i a) = a
target (binds i ep) = i
target (connects i ep) = i
target (sends_to i bytes ep) = i
target (listens i n) = i
target (shuts_down i how) = i
target (disconnects i fuel ms) = i
target (receives i b) = i
target (sends i b) = i
target (receives_from i b ep) = i
target (sets_option i l o v) = i
target (gets_option i l o v n) = i
target (gets_sock_name i ep) = i
target (gets_peer_name i ep) = i

-- The object has neither a native handle nor a thread-pool IO.
abbrev pub is_closed : WinSocket → Bool
is_closed x = (x.native_handle == invalid_socket) && (x.socket_io_handle == 0)

-- `socket` and `accept` are called for an object that is closed.
abbrev pub allowed : Method → (ℕ → WinSocket) → Bool
allowed (opens i family type proto) x = is_closed (x i)
allowed (accepts i a) x = is_closed (x a)
allowed _ x = true

module _ (os : Os) where
  -- The method, with the target afterwards; its other results are not needed here. `disconnect` is
  -- its loop after any number of rounds.
  unfoldable pub method : Method → (ℕ → WinSocket) → Machine os.World → WinSocket × Machine os.World
  method (opens i family type proto) x m =
      let (r, m') = socket os (x i) family type proto m in (r.1, m')
  method (closes i) x m = let (r, m') = close os (x i) m in (r.1, m')
  method (accepts i a) x m = let (r, m') = accept os (x i) (x a) m in (r.1, m')
  method (binds i ep) x m = let (r, m') = bind os (x i) ep m in (r.1, m')
  method (connects i ep) x m = let (r, m') = connect os (x i) ep m in (r.1, m')
  method (sends_to i bytes ep) x m = let (r, m') = send_to os (x i) bytes ep m in (r.1, m')
  method (listens i n) x m = (x i, (listen os (x i) n m).1)
  method (shuts_down i how) x m = (x i, (shutdown os (x i) how m).1)
  method (disconnects i fuel ms) x m = (x i, (disconnect os (x i) fuel ms m).1)
  method (receives i b) x m = (x i, (recv os (x i) b m).1)
  method (sends i b) x m = (x i, (send os (x i) b m).1)
  method (receives_from i b ep) x m = (x i, (recv_from os (x i) b ep m).1)
  method (sets_option i l o v) x m = (x i, (set_socket_option os (x i) l o v m).1)
  method (gets_option i l o v n) x m = (x i, (get_socket_option os (x i) l o v n m).1)
  method (gets_sock_name i ep) x m = (x i, (get_sock_name os (x i) ep m).1)
  method (gets_peer_name i ep) x m = (x i, (get_peer_name os (x i) ep m).1)

  abbrev pub after : Method → Objects os.World → Objects os.World
  after c s =
      let (x, m) = method c s.sockets s.machine in
      record { machine = m; sockets = update s.sockets (target c) x }

-- Calls on the first `n` objects, each one allowed.
pub data Calls (os : Os) (n : ℕ) (s : Objects os.World) : Objects os.World → Type 0 where
  stay : Calls os n s s
  more :
      {t : Objects os.World}
      → Calls os n s t
      → (c : Method) → target c < n
      → allowed c t.sockets ≡ true
      → Calls os n s (after os c t)

-- Every object as the constructor makes it.
abbrev pub all_new : {W : Type 0} → Machine W → Objects W
all_new m = record { machine = m; sockets = λ i. new_socket }
