-- ===== src/Async/Start/Effect.antt =====
-- What every start method does to the heap, on every branch
-- (src/platform/windows/win_socket.cpp).
use firelink_net.Prelude.{
  refl, ◌+◌, update, ℕ, suc, ◌≡◌, ◌≢◌, ◌⊎◌, Bool, true, false, Option, none, some, ◌∷◌, ◌==◌,
  if◌then◌else◌, arith,
}
use firelink_net.Types.{ErrorCode, success}
use firelink_net.Endpoint.{Endpoint}
use firelink_net.Os.{Call, Span, SockaddrStorage, Os, Machine}
use firelink_net.Os.Laws.{SetsLastError, fails}
use firelink_net.Os.Overlapped.{overlapped, accepted}
use firelink_net.Socket.Sync.{bind}
use firelink_net.Socket.State.{WinSocket, socket}
use firelink_net.Socket.Address.{endpoint_to_sockaddr}
use firelink_net.Async.Store.{IoData, Store, connect_handler}
use firelink_net.Async.Start.{
  blank_io, begin_io, bind_any, not_true, is_socket_error, start_accept_on, start_accept,
  start_connect_on, start_connect, start_recv, start_recv_from, start_send, start_send_to,
  start_disconnect,
}

abbrev pub is_live : Option IoData → Bool
is_live none = false
is_live (some d) = true

-- The new `IOData` is on the heap, or is not.
abbrev pub Made : {W : Type 0} → Bool → Store W → Store W → ℕ → Type 0
Made stays s s' p =
    (s'.next_io ≡ suc s.next_io)
    × (is_live (s'.heap s.next_io) ≡ stays)
    × (is_live (s'.heap p) ≡ (if s.next_io == p then stays else is_live (s.heap p)))

-- Nothing is posted and no handler is called.
abbrev pub Quiet : {W : Type 0} → Store W → Store W → Type 0
Quiet s s' = (s'.posted ≡ s.posted) × (s'.called ≡ s.called)

-- The system has accepted `n` more overlapped calls with the `IOData` `q`.
abbrev pub Accepted : {W : Type 0} → ℕ → Store W → Store W → ℕ → Type 0
Accepted q s s' n = accepted q 0 s'.machine.trace ≡ n + accepted q 0 s.machine.trace

-- A start method began an operation with a new `IOData`, for which the system accepted its call; or
-- it failed, no call was accepted, and it deleted the new one again, left it behind, or made none.
abbrev pub Effect : {W : Type 0} → Store W → Store W → ErrorCode → ℕ → Type 0
Effect s s' err p =
    Quiet s s'
    × (((err ≡ success) × Made true s s' p × (s'.deleted ≡ s.deleted) × Accepted s.next_io s s' 1)
        ⊎ ((err ≢ success)
            × Accepted s.next_io s s' 0
            × ((Made false s s' p × (s'.deleted ≡ s.next_io ∷ s.deleted))
                ⊎ ((Made true s s' p × (s'.deleted ≡ s.deleted))
                    ⊎ ((s'.next_io ≡ s.next_io)
                        × (s'.heap p ≡ s.heap p)
                        × (s'.deleted ≡ s.deleted))))))

-- What `begin_io` does: the `IOData` `q` stays, or is deleted.
abbrev Begun : {W : Type 0} → Store W → Store W → ErrorCode → ℕ → Type 0
Begun s s' err q =
    Quiet s s'
    × (s'.next_io ≡ s.next_io)
    × (((err ≡ success) × (s'.heap ≡ s.heap) × (s'.deleted ≡ s.deleted) × Accepted q s s' 1)
        ⊎ ((err ≢ success)
            × (s'.heap ≡ update s.heap q none)
            × (s'.deleted ≡ q ∷ s.deleted)
            × Accepted q s s' 0))

module _ (os : Os) (law : SetsLastError os) where
  begin_io-Begun :
      (q h : ℕ) (c : Call) (failed : ℕ → Bool) (s : Store os.World)
      → overlapped c ≡ some q
      → ((r : ℕ) → failed r ≡ fails c r)
      → let (err, s') = begin_io os q h c failed s in Begun s s' err q
  unfolding begin_io
  begin_io-Begun q h c failed s at covers =
      let w = (os.answer (Call.start_io h) s.machine.world).1 in
      ground (arith, law c w, covers (os.answer c w).0.ret)

  -- A method that makes an `IOData` and goes on with `begin_io` has the effect.
  new_io-Effect :
      (d : IoData) (c : Call) (h : ℕ) (failed : ℕ → Bool) (s : Store os.World) (p : ℕ)
      → overlapped c ≡ some s.next_io
      → ((r : ℕ) → failed r ≡ fails c r)
      → let t = record s { heap = update s.heap s.next_io (some d); next_io = suc s.next_io } in
        let (err, s') = begin_io os s.next_io h c failed t in Effect s s' err p
  new_io-Effect d c h failed s p at covers =
      let t = record s { heap = update s.heap s.next_io (some d); next_io = suc s.next_io } in
      ground (arith, begin_io-Begun s.next_io h c failed t at covers)

  pub start_recv-Effect :
      (self : ℕ) (b : Span) (handler : Option ℕ) (s : Store os.World) (p : ℕ)
      → let (err, s') = start_recv os self b handler s in Effect s s' err p
  unfolding start_recv
  start_recv-Effect self b handler s p = new_io-Effect _ _ _ is_socket_error s p refl (λ r. refl)

  pub start_recv_from-Effect :
      (self : ℕ) (b : Span) (handler : Option ℕ) (s : Store os.World) (p : ℕ)
      → let (err, s') = start_recv_from os self b handler s in Effect s s' err p
  unfolding start_recv_from
  start_recv_from-Effect self b handler s p =
      new_io-Effect _ _ _ is_socket_error s p refl (λ r. refl)

  pub start_send-Effect :
      (self : ℕ) (b : Span) (handler : Option ℕ) (s : Store os.World) (p : ℕ)
      → let (err, s') = start_send os self b handler s in Effect s s' err p
  unfolding start_send
  start_send-Effect self b handler s p = new_io-Effect _ _ _ is_socket_error s p refl (λ r. refl)

  pub start_disconnect-Effect :
      (self : ℕ) (reuse : Bool) (handler : Option ℕ) (s : Store os.World) (p : ℕ)
      → let (err, s') = start_disconnect os self reuse handler s in Effect s s' err p
  unfolding start_disconnect
  start_disconnect-Effect self reuse handler s p = new_io-Effect _ _ _ not_true s p refl (λ r. refl)

  start_accept_on-Effect :
      (self a : ℕ) (handler : Option ℕ) (s : Store os.World) (p : ℕ)
      → let (err, s') = start_accept_on os self a handler s in Effect s s' err p
  unfolding start_accept_on
  start_accept_on-Effect self a handler s p = new_io-Effect _ _ _ not_true s p refl (λ r. refl)

  socket-accepted :
      (x : WinSocket) (family type proto q : ℕ) (m : Machine os.World)
      → accepted q 0 (socket os x family type proto m).1.trace ≡ accepted q 0 m.trace
  unfolding socket
  socket-accepted x family type proto q m = ground arith

  pub start_accept-Effect :
      (self a : ℕ) (handler : Option ℕ) (s : Store os.World) (p : ℕ)
      → let (err, s') = start_accept os self a handler s in Effect s s' err p
  unfolding start_accept
  start_accept-Effect self a handler s p =
      let x = s.sockets self in
      let r = socket os (s.sockets a) x.addr_family x.sock_type x.protocol s.machine in
      let t = record s { machine = r.1; sockets = update s.sockets a r.0.1 } in
      ground (
        arith,
        start_accept_on-Effect self a handler s p,
        start_accept_on-Effect self a handler t p,
        socket-accepted (s.sockets a) x.addr_family x.sock_type x.protocol s.next_io s.machine,
      )

  pub start_send_to-Effect :
      (self : ℕ) (b : Span) (dst : Endpoint) (handler : Option ℕ) (s : Store os.World) (p : ℕ)
      → let (err, s') = start_send_to os self b dst handler s in Effect s s' err p
  unfolding start_send_to
  start_send_to-Effect self b dst handler s p = grind (arith, law)

  bind_any_quiet :
      (self q : ℕ) (addr : SockaddrStorage) (s : Store os.World)
      → let s' = (bind_any os self addr s).1 in
        (s' ≡ record s { machine = s'.machine; sockets = s'.sockets }) × Accepted q s s' 0
  unfolding bind_any bind
  bind_any_quiet self q addr s = ground arith

  pub start_connect-Effect :
      (self : ℕ) (dst : Endpoint) (handler : Option ℕ) (s : Store os.World) (p : ℕ)
      → let (err, s') = start_connect os self dst handler s in Effect s s' err p
  unfolding start_connect start_connect_on
  start_connect-Effect self dst handler s p =
      let c = endpoint_to_sockaddr os (s.sockets self).addr_family dst in
      let d = blank_io self (connect_handler handler) in
      let d' = record d { peer_win_addr = c.1 } in
      let t = record s {
        heap = update (update s.heap s.next_io (some d)) s.next_io (some d');
        next_io = suc s.next_io;
      } in
      let t' = (bind_any os self c.1 t).1 in
      let x = t'.sockets self in
      let call = Call.connect_ex x.native_handle c.1 s.next_io in
      ground (
        arith,
        bind_any_quiet self s.next_io c.1 t,
        begin_io-Begun s.next_io x.socket_io_handle call not_true t' refl (λ (r : ℕ). refl),
      )
