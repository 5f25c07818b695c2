-- ===== src/Socket/Objects/Owned.antt =====
-- What the objects have against what the trace says is held
-- (src/platform/windows/win_socket.cpp).
use firelink_net.Prelude.{ℕ, zero, suc, ◌+◌, ◌≡◌, true, arith, total, total-update}
use firelink_net.Types.{sd_send, invalid_socket}
use firelink_net.Endpoint.{Endpoint}
use firelink_net.Os.{Os, Call, Machine, Span, sys}
use firelink_net.Os.Ledger.{Kind, sock, lost_sock, thread_io, acquired, released, Holds, Remains}
use firelink_net.Os.Laws.{SetsLastError}
use firelink_net.Socket.State.{WinSocket, new_socket, socket, close}
use firelink_net.Socket.Disconnect.{disconnect, rounds, round, await, scrap}
use firelink_net.Socket.Sync.{
  bind, listen, shutdown, accept, connect, recv, recv_from, send, send_to, set_socket_option,
  get_socket_option, get_sock_name, get_peer_name,
}
use firelink_net.Socket.Lifecycle.{
  one_if, close_gives_back, close-new_socket, accept-sock, accept-thread_io, accept_outcome,
}
use firelink_net.Socket.Objects.{
  Objects, Method, opens, closes, accepts, binds, connects, sends_to, listens, shuts_down,
  disconnects, receives, sends, receives_from, sets_option, gets_option, gets_sock_name,
  gets_peer_name, target, is_closed, allowed, method, after, Calls, stay, more, all_new,
}

-- Whether the object has the handle `h`.
abbrev pub owns_sock : ℕ → WinSocket → ℕ
owns_sock h x = one_if invalid_socket h x.native_handle

abbrev pub owns_io : ℕ → WinSocket → ℕ
owns_io h x = one_if 0 h x.socket_io_handle

-- Of the handle `h`, as many more are held after as the object has more.
abbrev Shifts : {W : Type 0} → Kind → ℕ → Machine W → Machine W → ℕ → ℕ → Type 0
Shifts k h m m' before after =
    acquired k h m'.trace + released k h m.trace + before
    ≡ acquired k h m.trace + released k h m'.trace + after

abbrev ShiftsSock : {W : Type 0} → ℕ → Machine W → Machine W → ℕ → ℕ → Type 0
ShiftsSock h m m' before after =
    acquired sock h m'.trace + (released sock h m.trace + acquired lost_sock h m.trace) + before
    ≡ acquired sock h m.trace + (released sock h m'.trace + acquired lost_sock h m'.trace) + after

abbrev Balanced : {W : Type 0} → ℕ → WinSocket → Machine W → WinSocket × Machine W → Type 0
Balanced h x m r =
    ShiftsSock h m r.1 (owns_sock h x) (owns_sock h r.0)
    × Shifts thread_io h m r.1 (owns_io h x) (owns_io h r.0)

-- Nothing is acquired or given back.
abbrev Idle : {W : Type 0} → ℕ → Machine W → Machine W → Type 0
Idle h m m' = ShiftsSock h m m' 0 0 × Shifts thread_io h m m' 0 0

module _ (os : Os) (law : SetsLastError os) (h : ℕ) where
  round_quiet :
      (x : WinSocket) (ms start : ℕ) (m : Machine os.World) → Idle h m (round os x ms start m).1
  unfolding round await scrap
  round_quiet x ms start m = ground arith

  rounds_quiet :
      (x : WinSocket) (fuel ms start : ℕ) (m : Machine os.World)
      → Idle h m (rounds os x fuel ms start m).1
  unfolding rounds
  rounds_quiet x zero ms start m = ground arith
  rounds_quiet x (suc fuel) ms start m =
      let (r, m') = round os x ms start m in
      ground (arith, round_quiet x ms start m, rounds_quiet x fuel ms start m')

  opens-Balanced :
      (x : WinSocket) (family type proto : ℕ) (m : Machine os.World)
      → is_closed x ≡ true
      → let (r, m') = socket os x family type proto m in Balanced h x m (r.1, m')
  unfolding socket
  opens-Balanced x family type proto m closed = ground arith

  closes-Balanced :
      (x : WinSocket) (m : Machine os.World)
      → let (r, m') = close os x m in Balanced h x m (r.1, m')
  unfolding new_socket
  closes-Balanced x m = ground (arith, close_gives_back os x m h law, close-new_socket os x m)

  accepts-Balanced :
      (x a : WinSocket) (m : Machine os.World)
      → is_closed a ≡ true
      → let (r, m') = accept os x a m in Balanced h a m (r.1, m')
  unfolding new_socket
  accepts-Balanced x a m closed =
      let fresh : a.socket_io_handle ≡ 0 = ground arith in
      ground (
        arith,
        accept-sock os x a m h law,
        accept-thread_io os x a m h law fresh,
        accept_outcome os x a m law fresh,
      )

  binds-Balanced :
      (x : WinSocket) (ep : Endpoint) (m : Machine os.World)
      → let (r, m') = bind os x ep m in Balanced h x m (r.1, m')
  unfolding bind
  binds-Balanced x ep m = ground arith

  connects-Balanced :
      (x : WinSocket) (ep : Endpoint) (m : Machine os.World)
      → let (r, m') = connect os x ep m in Balanced h x m (r.1, m')
  unfolding connect
  connects-Balanced x ep m = ground arith

  sends_to-Balanced :
      (x : WinSocket) (bytes : Span) (ep : Endpoint) (m : Machine os.World)
      → let (r, m') = send_to os x bytes ep m in Balanced h x m (r.1, m')
  unfolding send_to
  sends_to-Balanced x bytes ep m = ground arith

  disconnect_quiet :
      (x : WinSocket) (fuel ms : ℕ) (m : Machine os.World) → Idle h m (disconnect os x fuel ms m).1
  unfolding disconnect
  disconnect_quiet x fuel ms m =
      let r = sys os (Call.shutdown_socket x.native_handle sd_send) m in
      let start = sys os Call.tick_count r.1 in
      ground (arith, rounds_quiet x fuel ms start.0.ret start.1)

  -- A call of any method shifts what is held by as much as what its target has.
  method-Balanced :
      (c : Method) (x : ℕ → WinSocket) (m : Machine os.World)
      → allowed c x ≡ true
      → Balanced h (x (target c)) m (method os c x m)
  unfolding method listen shutdown recv send recv_from set_socket_option get_socket_option
      get_sock_name get_peer_name
  method-Balanced (opens i f t p) x m ok = opens-Balanced (x i) f t p m ok
  method-Balanced (closes i) x m ok = closes-Balanced (x i) m
  method-Balanced (accepts i a) x m ok = accepts-Balanced (x i) (x a) m ok
  method-Balanced (binds i ep) x m ok = binds-Balanced (x i) ep m
  method-Balanced (connects i ep) x m ok = connects-Balanced (x i) ep m
  method-Balanced (sends_to i b ep) x m ok = sends_to-Balanced (x i) b ep m
  method-Balanced (listens i n) x m ok = ground arith
  method-Balanced (shuts_down i how) x m ok = ground arith
  method-Balanced (disconnects i fuel ms) x m ok = ground (arith, disconnect_quiet (x i) fuel ms m)
  method-Balanced (receives i b) x m ok = ground arith
  method-Balanced (sends i b) x m ok = ground arith
  method-Balanced (receives_from i b ep) x m ok = ground arith
  method-Balanced (sets_option i l o v) x m ok = ground arith
  method-Balanced (gets_option i l o v n) x m ok = ground arith
  method-Balanced (gets_sock_name i ep) x m ok = ground arith
  method-Balanced (gets_peer_name i ep) x m ok = ground arith

  Calls-Balanced :
      {n : ℕ} {s t : Objects os.World}
      → Calls os n s t
      → ShiftsSock h s.machine t.machine
          (total (owns_sock h) n s.sockets)
          (total (owns_sock h) n t.sockets)
        × Shifts thread_io h s.machine t.machine
            (total (owns_io h) n s.sockets)
            (total (owns_io h) n t.sockets)
  Calls-Balanced stay = ground arith
  Calls-Balanced {n} (more {t} r c lt ok) =
      let (x, m) = method os c t.sockets t.machine in
      ground (
        arith,
        Calls-Balanced r,
        method-Balanced c t.sockets t.machine ok,
        total-update (owns_sock h) (target c) x t.sockets n,
        total-update (owns_io h) (target c) x t.sockets n,
      )

  total-new_socket :
      (n : ℕ)
      → (total (owns_sock h) n (λ i. new_socket) ≡ 0) × (total (owns_io h) n (λ i. new_socket) ≡ 0)
  unfolding new_socket
  total-new_socket zero = ground arith
  total-new_socket (suc n) = ground (arith, total-new_socket n)

  -- Let the synchronous methods be called in any sequence on `n` new objects, `socket` and `accept`
  -- only for an object that has no handles. Then every thread-pool IO is held as often as there are
  -- objects that have it. Every native handle is held as often as there are objects that have it
  -- and `closesocket` calls for it that failed: but for these, none is lost, and none is closed by
  -- two objects.
  -- Condition: a failed call of the system sets the last error, to a code that is not 0.
  pub objects_own_handles :
      (n : ℕ) (m : Machine os.World) {t : Objects os.World}
      → Calls os n (all_new m) t
      → Remains sock lost_sock h m.trace t.machine.trace (total (owns_sock h) n t.sockets)
        × Holds thread_io h m.trace t.machine.trace (total (owns_io h) n t.sockets)
  objects_own_handles n m r = ground (arith, Calls-Balanced r, total-new_socket n)
