-- ===== src/Socket/Lifecycle.antt =====
-- Opening, accepting, closing and destroying a `WinSocket`: what the trace shows that the library
-- holds of the system afterwards, on every branch (src/platform/windows/win_socket.cpp).
use firelink_net.Prelude.{
  ℕ, ◌≡◌, ◌≢◌, ◌⊎◌, refl, true, false, not, ◌&&◌, ◌==◌, if◌then◌else◌, arith,
}
use firelink_net.Types.{success, invalid_socket}
use firelink_net.Os.{Os, Call, Machine}
use firelink_net.Os.Ledger.{sock, lost_sock, thread_io, Holds, Remains}
use firelink_net.Os.Laws.{SetsLastError}
use firelink_net.Socket.State.{WinSocket, new_socket, is_valid, socket, close, destroy, release_io}
use firelink_net.Socket.Sync.{accept}

-- 1 if `h` is the handle `h'`, and that is a handle at all.
abbrev pub one_if : ℕ → ℕ → ℕ → ℕ
one_if bad h h' = if not (h' == bad) && h == h' then 1 else 0

module _ (os : Os) (s : WinSocket) (m : Machine os.World) where
  -- Whatever the system answers: of every native handle that the call of `socket` opened it has
  -- called `closesocket` once, except of the one that is in the object afterwards, if that is
  -- valid. So what is held more is the handle in the object, and a handle for which that
  -- `closesocket` failed; if `socket` returns success, only the handle in the object.
  -- Condition: a failed call of the system sets the last error, to a code that is not 0.
  pub socket-sock :
      (h family type proto : ℕ)
      → SetsLastError os
      → let ((err, s'), m') = socket os s family type proto m in
        let has = one_if invalid_socket h s'.native_handle in
        Remains sock lost_sock h m.trace m'.trace has
        × ((err ≢ success) ⊎ Holds sock h m.trace m'.trace has)
  unfolding socket
  socket-sock h family type proto law = grind (arith, law)

  -- A call of `socket` that succeeds leaves one more thread-pool IO held, the one in the object, and
  -- a call that fails leaves none.
  socket-thread_io :
      (h family type proto : ℕ)
      → SetsLastError os
      → let ((err, s'), m') = socket os s family type proto m in
        Holds thread_io h m.trace m'.trace
          (if err == success then one_if 0 h s'.socket_io_handle else 0)
  unfolding socket
  socket-thread_io h family type proto law = grind (arith, law)

  -- `socket` succeeds exactly if the object is valid afterwards; then it has a thread-pool IO, and
  -- the family, the type and the protocol asked for. On failure those three are as they were.
  -- Condition: a failed call of the system sets the last error, to a code that is not 0.
  pub socket_outcome :
      (family type proto : ℕ)
      → SetsLastError os
      → let ((err, s'), m') = socket os s family type proto m in
        ((err ≡ success)
          × (is_valid s' ≡ true)
          × (s'.socket_io_handle ≢ 0)
          × (s'.addr_family ≡ family)
          × (s'.sock_type ≡ type)
          × (s'.protocol ≡ proto))
        ⊎ ((err ≢ success)
            × (is_valid s' ≡ false)
            × (s'.addr_family ≡ s.addr_family)
            × (s'.sock_type ≡ s.sock_type)
            × (s'.protocol ≡ s.protocol))
  unfolding socket is_valid
  socket_outcome family type proto law = grind (arith, law)

  -- After `close` the object is as the constructor makes it, whatever it was before and whatever the
  -- system answers.
  pub close-new_socket : (close os s m).0.1 ≡ new_socket
  unfolding close new_socket
  close-new_socket = ground arith

  -- `close` gives back the thread-pool IO that the object has, once, and tries once to close its
  -- native handle, and nothing else. It gives the native handle back exactly if it returns success;
  -- otherwise the handle is left behind, by an object that has forgotten it.
  -- Condition: a failed call of the system sets the last error, to a code that is not 0.
  pub close_gives_back :
      (h : ℕ)
      → SetsLastError os
      → let ((err, s'), m') = close os s m in
        let had = one_if invalid_socket h s.native_handle in
        Remains sock lost_sock h m'.trace m.trace had
        × Holds sock h m'.trace m.trace (if err == success then had else 0)
        × Holds lost_sock h m.trace m'.trace (if err == success then 0 else had)
        × Holds thread_io h m'.trace m.trace (one_if 0 h s.socket_io_handle)
        × (s'.native_handle ≡ invalid_socket)
  unfolding close
  close_gives_back h law =
      let w = (release_io os s m).1.world in
      ground (arith, law (Call.close_socket s.native_handle) w)

  -- The destructor gives back the thread-pool IO once, if the object has one, and never closes the
  -- native handle.
  pub destroy_gives_back :
      (h : ℕ)
      → let m' = (destroy os s m).1 in
        Holds sock h m'.trace m.trace 0
        × Holds thread_io h m'.trace m.trace (one_if 0 h s.socket_io_handle)
  unfolding destroy
  destroy_gives_back h = ground arith

close_new : (os : Os) (m : Machine os.World) → close os new_socket m ≡ ((success, new_socket), m)
unfolding close new_socket
close_new os m = refl

-- A second `close` succeeds, calls nothing of the system, and leaves the object as the constructor
-- makes it.
close_twice :
    (os : Os) (s : WinSocket) (m : Machine os.World)
    → let ((err, s'), m') = close os s m in close os s' m' ≡ ((success, new_socket), m')
close_twice os s m = rw (close-new_socket os s m) (close_new os (close os s m).1)

module _ (os : Os) (s a : WinSocket) (m : Machine os.World) where
  -- An `accept` that succeeds leaves one more native handle held, the one in the accepting object;
  -- one that fails leaves none, whatever step it failed at.
  pub accept-sock :
      (h : ℕ)
      → SetsLastError os
      → let ((err, a'), m') = accept os s a m in
        Remains sock lost_sock h m.trace m'.trace
          (if err == success then one_if invalid_socket h a'.native_handle else 0)
  unfolding accept
  accept-sock h law = grind (arith, law)

  pub accept-thread_io :
      (h : ℕ)
      → SetsLastError os
      → a.socket_io_handle ≡ 0
      → let ((err, a'), m') = accept os s a m in
        Holds thread_io h m.trace m'.trace
          (if err == success then one_if 0 h a'.socket_io_handle else 0)
  unfolding accept
  accept-thread_io h law fresh = grind (arith, law)

  -- Given an accepting object without a thread-pool IO, an `accept` that succeeds leaves it valid,
  -- bound and with a thread-pool IO; one that fails leaves it as it was, or as the constructor
  -- makes it.
  -- Condition: a failed call of the system sets the last error, to a code that is not 0.
  pub accept_outcome :
      SetsLastError os
      → a.socket_io_handle ≡ 0
      → let ((err, a'), m') = accept os s a m in
        ((err ≡ success) × (is_valid a' ≡ true) × (a'.socket_io_handle ≢ 0) × (a'.is_bound ≡ true))
        ⊎ ((err ≢ success) × ((a' ≡ a) ⊎ (a' ≡ new_socket)))
  unfolding accept is_valid new_socket
  accept_outcome law fresh = grind (arith, law)

-- Opening a new object and closing it again closes all that was acquired, whether or not the opening
-- succeeded and whatever the system answers, but for a `closesocket` that failed.
pub socket-close_balanced :
    (os : Os) (m : Machine os.World) (h family type proto : ℕ)
    → SetsLastError os
    → let ((err, s), m') = socket os new_socket family type proto m in
      let m'' = (close os s m').1 in
      Remains sock lost_sock h m.trace m''.trace 0 × Holds thread_io h m.trace m''.trace 0
unfolding socket new_socket
socket-close_balanced os m h family type proto law =
    let s = (socket os new_socket family type proto m).0.1 in
    let m' = (socket os new_socket family type proto m).1 in
    ground (arith, close_gives_back os s m' h law)
