-- ===== src/Async/Lifecycle.antt =====
-- One read from its start to its handler (src/platform/windows/win_socket.cpp).
use firelink_net.Prelude.{ℕ, ◌≡◌, ◌&&◌, none, some, Option, [], ◌∷◌, if◌then◌else◌, arith}
use firelink_net.Types.{success}
use firelink_net.Os.{Os, Span}
use firelink_net.Os.Laws.{SetsLastError}
use firelink_net.Async.Store.{Store, IoData, read_handler}
use firelink_net.Async.Start.{blank_io, start_recv}
use firelink_net.Async.Start.Outcome.{start_recv-Concluded}
use firelink_net.Async.Completion.{is_given, socket_io_routine}
use firelink_net.Async.Completion.Fates.{CalledOnce}
use firelink_net.Async.Completion.Settles.{run_all, completion_settles}

-- The `IOData` of the read.
abbrev pub read_data : ℕ → Span → Option ℕ → IoData
read_data self buffer handler = record (blank_io self (read_handler handler)) {
  user_buffer = buffer;
}

module _ (os : Os) (law : SetsLastError os) (s : Store os.World) (self : ℕ) (buffer : Span)
    (handler : Option ℕ) where
  -- A start neither posts work nor calls a handler.
  start_recv_quiet :
      let s1 = (start_recv os self buffer handler s).1 in
      (s1.posted ≡ s.posted)
      × (s1.called ≡ s.called)
      × (s1.machine.core_alive ≡ s.machine.core_alive)
  unfolding start_recv
  start_recv_quiet = ground arith

  started_alive :
      (start_recv os self buffer handler s).0 ≡ success
      → ((start_recv os self buffer handler s).1.heap s.next_io
          ≡ some (read_data self buffer handler))
        × ((start_recv os self buffer handler s).1.deleted ≡ s.deleted)
  started_alive e = ground (arith, start_recv-Concluded os law s self 0 handler buffer)

  -- If `start_recv` succeeds while no work is posted, and its operation then completes with any
  -- result and byte count, then after the routine and the work that it posted the `IOData` of the
  -- read has been deleted once; the handler given to `start_recv` has been called once, with that
  -- byte count and with the result if that is an error, provided that there is a handler and the
  -- core is alive, and no handler has been called otherwise.
  -- Condition: a failed call of the system sets the last error, to a code that is not 0.
  pub start_recv_settles :
      (result n : ℕ)
      → s.posted ≡ []
      → (start_recv os self buffer handler s).0 ≡ success
      → let s1 = (start_recv os self buffer handler s).1 in
        let s2 = (socket_io_routine os s.next_io result n s1).1 in
        let s3 = run_all s2.posted s2 in
        (s3.heap s.next_io ≡ none)
        × (s3.deleted ≡ s.next_io ∷ s.deleted)
        × (if is_given (read_handler handler) && s.machine.core_alive
            then CalledOnce (read_data self buffer handler) result n s3.called s.called
            else s3.called ≡ s.called)
  unfolding blank_io
  start_recv_settles result n none_posted e =
      let s1 = (start_recv os self buffer handler s).1 in
      let live = started_alive e in
      ground (
        arith,
        start_recv_quiet,
        live,
        completion_settles os law s1 s.next_io result n (read_data self buffer handler) live.0,
      )
