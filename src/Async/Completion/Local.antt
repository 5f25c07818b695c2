-- ===== src/Async/Completion/Local.antt =====
-- The completion routine touches no other `IOData` than its own, and makes none
-- (src/platform/windows/win_socket.cpp).
use firelink_net.Prelude.{update, refl, ℕ, ◌≡◌, ◌≢◌, none, some, ◌∷◌, arith}
use firelink_net.Os.{Os}
use firelink_net.Async.Store.{
  Handler, accept_handler, connect_handler, read_handler, write_handler, disconnect_handler, IoData,
  Work, Store,
}
use firelink_net.Async.Completion.{
  first_error, socket_io_routine, visit, complete_accept, complete_connect, hand_over,
  hand_over_if_given, accept_addresses, accept_context, plain_work, run_work,
}

-- The slot `q` is as it was, and no number was given out.
abbrev pub Kept : {W : Type 0} → ℕ → Store W → Store W → Type 0
Kept q s s' = (s'.heap q ≡ s.heap q) × (s'.next_io ≡ s.next_io)

module _ (os : Os) (p q : ℕ) (other : q ≢ p) where
  hand_over-Kept :
      (w : Work) (e : IoData) (s : Store os.World) → w.io_data ≡ p → Kept q s (hand_over os w e s).1
  unfolding hand_over
  hand_over-Kept w e s wp = ground arith

  hand_over_if_given-Kept :
      (w : Work) (e : IoData) (s : Store os.World)
      → w.io_data ≡ p
      → Kept q s (hand_over_if_given os w e s).1
  unfolding hand_over_if_given
  hand_over_if_given-Kept w e s wp = ground (arith, hand_over-Kept w e s)

  accept_addresses-Kept :
      (e : IoData) (f : Handler) (s : Store os.World) → Kept q s (accept_addresses os p e f s).1
  unfolding accept_addresses
  accept_addresses-Kept e f s = grind (arith, hand_over-Kept)

  accept_context-Kept : (e : IoData) (s : Store os.World) → Kept q s (accept_context os e s).1
  unfolding accept_context
  accept_context-Kept e s = ground arith

  complete_accept-Kept :
      (e : IoData) (f : Handler) (s : Store os.World) → Kept q s (complete_accept os p e f s).1
  unfolding complete_accept
  complete_accept-Kept e f s =
      let r = accept_context os e s in
      let e' = record e { error_code = first_error e.error_code r.0 } in
      let t = record (r.1) { heap = update r.1.heap p (some e') } in
      ground (arith, accept_context-Kept e s, accept_addresses-Kept e' f t)

  complete_connect-Kept :
      (e : IoData) (f : Handler) (s : Store os.World) → Kept q s (complete_connect os p e f s).1
  unfolding complete_connect plain_work
  complete_connect-Kept e f s = grind (arith, hand_over_if_given-Kept)

  visit-Kept : (e : IoData) (f : Handler) (s : Store os.World) → Kept q s (visit os p e f s).1
  unfolding visit plain_work
  visit-Kept e (accept_handler f) s = complete_accept-Kept e (accept_handler f) s
  visit-Kept e (connect_handler f) s = complete_connect-Kept e (connect_handler f) s
  visit-Kept e (read_handler f) s = hand_over_if_given-Kept _ e s refl
  visit-Kept e (write_handler f) s = hand_over_if_given-Kept _ e s refl
  visit-Kept e (disconnect_handler f) s = hand_over_if_given-Kept _ e s refl

  pub socket_io_routine-Kept :
      (result n : ℕ) (s : Store os.World) → Kept q s (socket_io_routine os p result n s).1
  unfolding socket_io_routine
  socket_io_routine-Kept result n s = grind (arith, visit-Kept)

pub run_work-Kept :
    {W : Type 0} (q : ℕ) (w : Work) (s : Store W) → q ≢ w.io_data → Kept q s (run_work w s).1
unfolding run_work
run_work-Kept q w s other = ground arith

-- Posted work deletes the `IOData` that it finds, and posts nothing.
pub run_work_ends :
    {W : Type 0} (w : Work) (s : Store W) (d : IoData)
    → s.heap w.io_data ≡ some d
    → let t = (run_work w s).1 in
      (t.heap w.io_data ≡ none) × (t.deleted ≡ w.io_data ∷ s.deleted) × (t.posted ≡ s.posted)
unfolding run_work
run_work_ends w s d live = ground arith
