-- ===== src/Tests/AsyncRuns.antt =====
-- The theorems on asynchronous operations, at one socket with concrete answers of the system.
use firelink_net.Prelude.{
  ◌==◌, ◌≡◌, ◌≢◌, ◌⊎◌, refl, true, none, some, List, [], ◌∷◌, ◌&&◌, if◌then◌else◌,
}
use firelink_net.Types.{success, ipv4, address_family_not_supported}
use firelink_net.Types.{ipv6}
use firelink_net.Os.Base.{Reply, Call}
use firelink_net.Os.Script.{returns, scripted, start, scripted-SetsLastError}
use firelink_net.Socket.State.{is_valid}
use firelink_net.Async.Store.{
  Store, IoData, accept_handler, read_handler, write_handler, disconnect_handler,
}
use firelink_net.Async.Start.{
  blank_io, start_accept, start_recv, start_recv_from, start_send, start_send_to, start_disconnect,
}
use firelink_net.Async.Start.Outcome.{
  send_to_call, Concluded, Leaked, sent, transfers_conclude, start_accept-Concluded,
  start_send_to_outcome,
}
use firelink_net.Async.Completion.{is_given, socket_io_routine}
use firelink_net.Async.Completion.Fates.{CalledOnce, Posted, Finished}
use firelink_net.Async.Completion.Lifetime.{socket_io_routine_outcome}
use firelink_net.Async.Lifecycle.{read_data, start_recv_settles}
use firelink_net.Async.Completion.Settles.{run_all, completion_settles}
use firelink_net.Tests.Fixtures.{opened, closed, buffer, home}

-- Socket 0 is closed, every other number names an open one.
abbrev memory : List Reply → Store (List Reply)
memory rs = record {
  machine = start rs;
  sockets = λ i. if i == 0 then closed else opened;
  heap = λ p. none;
  next_io = 0;
  posted = [];
  called = [];
  deleted = [];
}

-- The system takes the notification, and begins the operation.
abbrev begins : Store (List Reply)
begins = memory (returns 0 ∷ returns 1 ∷ [])

transfers_conclude_example :
    let recv = start_recv scripted 1 buffer (some 4) begins in
    let recv_from = start_recv_from scripted 1 buffer (some 4) begins in
    let send = start_send scripted 1 buffer (some 4) begins in
    let disconnect = start_disconnect scripted 1 true (some 4) begins in
    let reading = record (blank_io 1 (read_handler (some 4))) { user_buffer = buffer } in
    let writing = record (blank_io 1 (write_handler (some 4))) { user_buffer = buffer } in
    Concluded begins recv.1 recv.0 9 reading (Call.wsa_recv 7 4096 16 0) 9
    × Concluded begins recv_from.1 recv_from.0 9 reading (Call.wsa_recv_from 7 4096 16 0) 9
    × Concluded begins send.1 send.0 9 writing (Call.wsa_send 7 4096 16 0) 9
    × Concluded begins disconnect.1 disconnect.0 9
        (blank_io 1 (disconnect_handler (some 4)))
        (Call.disconnect_ex 7 0 2)
        9
transfers_conclude_example =
    transfers_conclude scripted scripted-SetsLastError begins 1 9 (some 4) buffer true

opened-is_valid : is_valid opened ≡ true
unfolding is_valid
opened-is_valid = refl

start_accept-Concluded_example :
    let (err, s') = start_accept scripted 1 2 (some 4) begins in
    Concluded begins s' err 9
      (record (blank_io 1 (accept_handler (some 4))) { accept_socket = some 2 })
      (Call.accept_ex 7 7 0)
      9
start_accept-Concluded_example =
    start_accept-Concluded scripted scripted-SetsLastError begins 1 9 (some 4) 2 opened-is_valid

start_send_to_outcome_example :
    let family = (begins.sockets 0).addr_family in
    let (err, s') = start_send_to scripted 0 buffer home (some 4) begins in
    let d = sent scripted begins 0 (some 4) buffer home in
    (((family ≡ ipv4) ⊎ (family ≡ ipv6))
      × Concluded begins s' err 0 d
          (send_to_call scripted scripted-SetsLastError begins 0 0 (some 4) buffer home)
          0)
    ⊎ ((family ≢ ipv4)
        × (family ≢ ipv6)
        × (err ≡ address_family_not_supported)
        × (s'.machine ≡ begins.machine)
        × Leaked begins s' err d 0)
start_send_to_outcome_example =
    start_send_to_outcome scripted scripted-SetsLastError begins 0 0 (some 4) buffer home

-- A read that socket 1 began, with the handler 4.
abbrev reading : IoData
reading = record (blank_io 1 (read_handler (some 4))) { user_buffer = buffer }

-- It is the only `IOData`, at 0; the user thread pool takes the work.
abbrev read_pending : Store (List Reply)
read_pending = record (memory (returns 1 ∷ [])) {
  heap = λ p. if p == 0 then some reading else none;
  next_io = 1;
}

socket_io_routine_outcome_example :
    let s' = (socket_io_routine scripted 0 success 12 read_pending).1 in
    Posted read_pending s' 0 reading success 12 ⊎ Finished read_pending s' 0 reading success 12
socket_io_routine_outcome_example =
    socket_io_routine_outcome scripted scripted-SetsLastError read_pending 0 success 12 reading refl

completion_settles_example :
    let s1 = (socket_io_routine scripted 0 success 12 read_pending).1 in
    let s2 = run_all s1.posted s1 in
    (s2.heap 0 ≡ none)
    × (s2.deleted ≡ 0 ∷ [])
    × (if is_given reading.user_handler && true
        then CalledOnce reading success 12 s2.called []
        else s2.called ≡ [])
completion_settles_example =
    completion_settles scripted scripted-SetsLastError read_pending 0 success 12 reading refl refl

-- The notification, the read, and the handing over to the user thread pool all succeed.
abbrev reads : Store (List Reply)
reads = memory (returns 0 ∷ returns 0 ∷ returns 1 ∷ [])

start_recv_settles_example :
    let s1 = (start_recv scripted 1 buffer (some 4) reads).1 in
    let s2 = (socket_io_routine scripted 0 success 12 s1).1 in
    let s3 = run_all s2.posted s2 in
    (s3.heap 0 ≡ none)
    × (s3.deleted ≡ 0 ∷ [])
    × (if is_given (read_handler (some 4)) && true
        then CalledOnce (read_data 1 buffer (some 4)) success 12 s3.called []
        else s3.called ≡ [])
unfolding start_recv
start_recv_settles_example =
    start_recv_settles scripted scripted-SetsLastError reads 1 buffer (some 4) success 12 refl refl
