-- ===== src/Async/Completion/Lifetime.antt =====
-- The completion routine on every kind of operation: it leaves the `IOData` to posted work, or ends
-- it itself (src/platform/windows/win_socket.cpp).
use firelink_net.Prelude.{
  update, refl, Bool-cases, ℕ, ◌%◌, ◌^◌, ◌≡◌, ◌⊎◌, inl, inr, Bool, true, false, ◌&&◌, some,
  if◌then◌else◌, arith,
}
use firelink_net.Types.{success}
use firelink_net.Os.{Os, Machine}
use firelink_net.Os.Laws.{SetsLastError}
use firelink_net.Async.Store.{
  Handler, accept_handler, connect_handler, read_handler, write_handler, disconnect_handler, IoData,
  Work, Store,
}
use firelink_net.Async.Completion.{
  is_given, socket_io_routine, visit, complete_accept, complete_connect, hand_over,
  hand_over_if_given, accept_addresses, accept_context, first_error, get_acceptex_sockaddrs,
  update_connect_socket_context, plain_work,
}
use firelink_net.Socket.Address.{sockaddr_to_endpoint}
use firelink_net.Socket.State.{WinSocket}
use firelink_net.Endpoint.{blank}
use firelink_net.Async.Completion.Fates.{CalledOnce, Posted, Finished}

-- What `hand_over` did, and its result: whether the `IOData` must stay.
abbrev Handed : {W : Type 0} → Store W → Store W → Bool → ℕ → IoData → ℕ → ℕ → Type 0
Handed s s' b p d result n =
    ((b ≡ true) × Posted s s' p d result n)
    ⊎ ((b ≡ false)
        × (s'.posted ≡ s.posted)
        × (if is_given d.user_handler && s.machine.core_alive
            then CalledOnce d result n s'.called s.called
            else s'.called ≡ s.called)
        × (s'.deleted ≡ s.deleted))

module _ (os : Os) (law : SetsLastError os) (p result n : ℕ) where
  -- `e` is the `IOData` `d` with what the routine has written to it so far.
  abbrev Grown : IoData → IoData → Type 0
  Grown d e =
      (e.socket ≡ d.socket)
      × (e.bytes_transferred ≡ n % 2 ^ 32)
      × ((result ≡ success) ⊎ (e.error_code ≡ result))

  hand_over-Handed :
      (w : Work) (d e : IoData) (s : Store os.World)
      → s.heap p ≡ some e
      → w.io_data ≡ p
      → w.handler ≡ d.user_handler
      → is_given d.user_handler ≡ true
      → Grown d e
      → let (b, s') = hand_over os w e s in Handed s s' b p d result n
  unfolding hand_over
  hand_over-Handed w d e s live wp wf given grown = grind (arith, law)

  get_acceptex_sockaddrs_keeps :
      (e : IoData) (m : Machine os.World)
      → let ((err, e'), m') = get_acceptex_sockaddrs os p e m in
        (e'.socket ≡ e.socket)
        × (e'.bytes_transferred ≡ e.bytes_transferred)
        × (e'.error_code ≡ e.error_code)
        × (m'.core_alive ≡ m.core_alive)
  unfolding get_acceptex_sockaddrs
  get_acceptex_sockaddrs_keeps e m = ground arith

  accept_addresses-Handed :
      (d e : IoData) (s : Store os.World)
      → is_given d.user_handler ≡ true
      → Grown d e
      → let (b, s') = accept_addresses os p e d.user_handler s in Handed s s' b p d result n
  unfolding accept_addresses
  accept_addresses-Handed d e s given grown =
      let r = get_acceptex_sockaddrs os p e s.machine in
      let local = sockaddr_to_endpoint os r.0.1.local_win_addr blank in
      let peer = sockaddr_to_endpoint os r.0.1.peer_win_addr blank in
      let e' = record (r.0.1) {
        error_code = first_error (first_error (first_error e.error_code r.0.0) local.0) peer.0;
      } in
      let w : Work = record {
        io_data = p;
        handler = d.user_handler;
        local_ep = local.1;
        peer_ep = peer.1;
      } in
      let t = record s { machine = r.1; heap = update s.heap p (some e') } in
      let keeps = get_acceptex_sockaddrs_keeps e s.machine in
      ground (
        arith,
        keeps,
        hand_over-Handed w d e' t (ground arith) refl refl given (ground (arith, keeps)),
      )

  accept_context_keeps :
      (e : IoData) (s : Store os.World)
      → let s' = (accept_context os e s).1 in
        s' ≡ record s { machine = s'.machine } × (s'.machine.core_alive ≡ s.machine.core_alive)
  unfolding accept_context
  accept_context_keeps e s = ground arith

  complete_accept-Handed :
      (d e : IoData) (s : Store os.World)
      → Grown d e
      → let (b, s') = complete_accept os p e d.user_handler s in Handed s s' b p d result n
  unfolding complete_accept
  complete_accept-Handed d e s grown =
      let r = accept_context os e s in
      let e' = record e { error_code = first_error e.error_code r.0 } in
      let t = record (r.1) { heap = update r.1.heap p (some e') } in
      let grown' : Grown d e' = ground arith in
      elim (Bool-cases (is_given d.user_handler)) [
        | inl given ↦
            ground (arith, accept_context_keeps e s, accept_addresses-Handed d e' t given grown')
        | inr absent ↦ ground (arith, accept_context_keeps e s)
      ]

  hand_over_if_given-Handed :
      (w : Work) (d e : IoData) (s : Store os.World)
      → s.heap p ≡ some e
      → w.io_data ≡ p
      → w.handler ≡ d.user_handler
      → Grown d e
      → let (b, s') = hand_over_if_given os w e s in Handed s s' b p d result n
  unfolding hand_over_if_given
  hand_over_if_given-Handed w d e s live wp wf grown = ground (arith, hand_over-Handed w d e s)

  context_keeps :
      (x : WinSocket) (m : Machine os.World)
      → (update_connect_socket_context os x m).1.core_alive ≡ m.core_alive
  unfolding update_connect_socket_context
  context_keeps x m = ground arith

  complete_connect-Handed :
      (d e : IoData) (s : Store os.World)
      → Grown d e
      → let (b, s') = complete_connect os p e d.user_handler s in Handed s s' b p d result n
  unfolding complete_connect plain_work
  complete_connect-Handed d e s grown =
      let x = s.sockets e.socket in
      let r = update_connect_socket_context os x s.machine in
      let e' = record e { error_code = first_error e.error_code r.0 } in
      let t = record s { machine = r.1; heap = update s.heap p (some e') } in
      ground (
        arith,
        context_keeps x s.machine,
        hand_over_if_given-Handed (plain_work p d.user_handler) d e' t (ground arith) refl refl
            (ground arith),
      )

  visit-Handed :
      (f : Handler) (d e : IoData) (s : Store os.World)
      → s.heap p ≡ some e
      → f ≡ d.user_handler
      → Grown d e
      → let (b, s') = visit os p e f s in Handed s s' b p d result n
  unfolding visit plain_work
  visit-Handed (read_handler f) d e s live df grown =
      hand_over_if_given-Handed _ d e s live refl df grown
  visit-Handed (write_handler f) d e s live df grown =
      hand_over_if_given-Handed _ d e s live refl df grown
  visit-Handed (disconnect_handler f) d e s live df grown =
      hand_over_if_given-Handed _ d e s live refl df grown
  visit-Handed (connect_handler f) d e s live df grown = rw df (complete_connect-Handed d e s grown)
  visit-Handed (accept_handler f) d e s live df grown = rw df (complete_accept-Handed d e s grown)

-- When an operation on a live `IOData` has completed, the routine either posts one piece of work for
-- it, in which case a handler was given, the core is alive, and the `IOData` is not deleted yet; or
-- it deletes the `IOData` itself, having called the handler once if one was given and the core is
-- alive, and not at all otherwise. A call is of the handler that the operation was begun with, with
-- the byte count, and with the error of the operation if it had one.
-- Condition: a failed call of the system sets the last error, to a code that is not 0.
pub socket_io_routine_outcome :
    (os : Os)
    → SetsLastError os
    → (s : Store os.World) (p result n : ℕ) (d : IoData) → s.heap p ≡ some d
    → let s' = (socket_io_routine os p result n s).1 in
      Posted s s' p d result n ⊎ Finished s s' p d result n
unfolding socket_io_routine
socket_io_routine_outcome os law s p result n d live =
    let e = record d { bytes_transferred = n % 2 ^ 32; error_code = result } in
    let t = record s { heap = update s.heap p (some e) } in
    ground (
      arith,
      visit-Handed os law p result n d.user_handler d e t (ground arith) refl (ground arith),
    )
