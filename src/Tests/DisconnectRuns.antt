-- ===== src/Tests/DisconnectRuns.antt =====
-- The theorems on `disconnect`, with a peer that has three more packets to send.
use firelink_net.Prelude.{
  ℕ, true, ◌≤◌, zero, suc, ◌+◌, ◌-◌, ◌*◌, ◌/◌, ◌^◌, none, some, [], ◌==◌, ltb, ◌&&◌, if◌then◌else◌,
  refl, arith,
}
use firelink_net.Endpoint.{any4, any6}
use firelink_net.Os.Base.{Reply}
use firelink_net.Os.{Os, Call, Machine}
use firelink_net.Os.Laws.{SetsLastError}
use firelink_net.Os.Script.{returns}
use firelink_net.Socket.Disconnect.{rounds, round, await, wait_for, disconnect}
use firelink_net.Socket.Disconnect.Termination.{Peer, EndsAtClose, disconnect-success}
use firelink_net.Tests.Fixtures.{opened}

-- The time, which stops at its last value, and the packets that are left. The clock has 16
-- milliseconds.
abbrev Sender : Type 0
Sender = ℕ × ℕ

abbrev time : Sender → ℕ
time (now, left) = if ltb now (2 ^ 64) then now else 2 ^ 64 - 1

abbrev clock : Sender → ℕ
clock w = time w / 16 * 16

abbrev wait : ℕ → Sender → Reply × Sender
wait ms (now, left) =
    if left == 0 && ltb (now + ms) (2 ^ 64)
    then (returns 0, (now + ms, left))
    else (returns 1, (now, left))

abbrev receive : Sender → Reply × Sender
receive (now, zero) = (returns 0, (now, zero))
receive (now, suc left) = (returns 1, (now, left))

abbrev sender_answer : Call → Sender → Reply × Sender
sender_answer Call.tick_count w = (returns (clock w), w)
sender_answer Call.last_error w = (returns 5, w)
sender_answer (Call.select_read h none) w = (returns 1, w)
sender_answer (Call.select_read h (some (sec, usec))) w = wait (sec * 1000 + usec / 1000) w
sender_answer (Call.recv_span h p n) w = receive w
sender_answer _ w = (returns 0, w)

abbrev sender : Os
sender = record {
  World = Sender;
  answer = sender_answer;
  htons = λ p. p;
  ntohs = λ p. p;
  pun = record { as_ipv4 = λ e. any4 0; as_ipv6 = λ e. any6 0 };
}

sender_clock_grows : (c : Call) (w : Sender) → clock w ≤ clock (sender_answer c w).1
sender_clock_grows c w = ground arith

sender_time_grows : (c : Call) (w : Sender) → time w ≤ time (sender_answer c w).1
sender_time_grows c w = ground arith

sender_clock_lags : (w : Sender) → (clock w ≤ time w) × (time w ≤ clock w + 16)
sender_clock_lags w = omega arith

sender_left_falls : (c : Call) (w : Sender) → (sender_answer c w).1.1 ≤ w.1
sender_left_falls c w = ground arith

sender-Peer : Peer sender
sender-Peer = record {
  time = time;
  clock = clock;
  resolution = 16;
  left = λ w. w.1;
  clock_bounded = λ w. ground arith;
  clock_read = λ w. refl;
  clock_grows = sender_clock_grows;
  time_grows = sender_time_grows;
  clock_lags = sender_clock_lags;
  left_falls = sender_left_falls;
  select_range = λ h t w. ground arith;
  select_waits = λ h sec usec w e. ground arith;
  select_blocks = λ h w. ground arith;
  recv_consumes = λ h p n w e f. ground arith;
}

sender-SetsLastError : SetsLastError sender
sender-SetsLastError c w h = ground arith

abbrev three_left : Machine Sender
three_left = record { world = (1000, 3); core_alive = true; trace = [] }

disconnect-success_example : EndsAtClose (disconnect sender opened 5 0 three_left).1.trace
unfolding disconnect rounds round await wait_for
disconnect-success_example =
    disconnect-success sender opened 0 5 three_left sender-SetsLastError refl
