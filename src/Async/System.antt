-- ===== src/Async/System.antt =====
-- Whole operations, interleaved: the user starts them, the system completes them in any order, and
-- the user thread pool runs what was posted (src/platform/windows/win_socket.cpp). A step is one call
-- of a start method, one run of the completion routine, or one piece of posted work, each as a whole;
-- whatever else happens (the synchronous methods, the closing of the core, other processes) changes
-- the machine and the socket objects at will between two steps.
pub mod Phases
pub mod Follows
pub mod Counts
pub mod Refines
pub mod Safety
pub mod Drains
use firelink_net.Prelude.{
  ◌-◌, ℕ, zero, suc, ◌≡◌, Bool, Option, none, some, List, [], ◌∷◌, ◌++◌, ◌==◌, if◌then◌else◌,
}
use firelink_net.Types.{ErrorCode, success}
use firelink_net.Endpoint.{Endpoint}
use firelink_net.Os.{Span, Os, Machine}
use firelink_net.Os.Overlapped.{accepted}
use firelink_net.Socket.State.{WinSocket}
use firelink_net.Async.Store.{Work, Store, S}
use firelink_net.Async.Start.{
  start_accept, start_connect, start_recv, start_recv_from, start_send, start_send_to,
  start_disconnect,
}
use firelink_net.Async.Completion.{socket_io_routine, run_work}

-- A call of a start method, with the object and the handler.
pub data Op : Type 0 where
  accept : ℕ → ℕ → Option ℕ → Op
  connect : ℕ → Endpoint → Option ℕ → Op
  recv recv_from send : ℕ → Span → Option ℕ → Op
  send_to : ℕ → Span → Endpoint → Option ℕ → Op
  disconnect : ℕ → Bool → Option ℕ → Op

unfoldable pub perform : (os : Os) → Op → S os.World ErrorCode
perform os (accept self a h) = start_accept os self a h
perform os (connect self dst h) = start_connect os self dst h
perform os (recv self b h) = start_recv os self b h
perform os (recv_from self b h) = start_recv_from os self b h
perform os (send self b h) = start_send os self b h
perform os (send_to self b dst h) = start_send_to os self b dst h
perform os (disconnect self reuse h) = start_disconnect os self reuse h

-- `in_flight`: the operations that the system has yet to complete.
pub record Sys (W : Type 0) : Type 0 where
  pub store : Store W
  pub in_flight : List ℕ

abbrev pub repeat : ℕ → ℕ → List ℕ → List ℕ
repeat zero p xs = xs
repeat (suc n) p xs = p ∷ repeat n p xs

-- The system has one operation more in flight for each overlapped call that it has accepted, under
-- the name of the `IOData`. What the method returns does not matter to it.
abbrev pub after_start : {W : Type 0} → Sys W → ErrorCode × Store W → Sys W
after_start s (err, t) =
    let p = s.store.next_io in
    record {
      store = t;
      in_flight =
          repeat (accepted p 0 t.machine.trace - accepted p 0 s.store.machine.trace) p s.in_flight;
    }

pub data Step (os : Os) (s : Sys os.World) : Sys os.World → Type 0 where
  starts : (op : Op) → Step os s (after_start s (perform os op s.store))
  completes :
      (xs : List ℕ) (p : ℕ) (ys : List ℕ) (result n : ℕ)
      → s.in_flight ≡ xs ++ p ∷ ys
      → Step os s
          (record { store = (socket_io_routine os p result n s.store).1; in_flight = xs ++ ys })
  runs :
      (xs : List Work) (w : Work) (ys : List Work)
      → s.store.posted ≡ xs ++ w ∷ ys
      → Step os s (record s { store = (run_work w (record (s.store) { posted = xs ++ ys })).1 })
  others :
      (m : Machine os.World) (sockets : ℕ → WinSocket)
      → Step os s (record s { store = record (s.store) { machine = m; sockets = sockets } })

-- Nothing has been started.
abbrev pub idle : {W : Type 0} → Machine W → (ℕ → WinSocket) → Sys W
idle m sockets = record {
  store = record {
    machine = m;
    sockets = sockets;
    heap = λ p. none;
    next_io = 0;
    posted = [];
    called = [];
    deleted = [];
  };
  in_flight = [];
}

pub data Reach (os : Os) (s : Sys os.World) : Sys os.World → Type 0 where
  here : Reach os s s
  next : {t u : Sys os.World} → Reach os s t → Step os t u → Reach os s u
