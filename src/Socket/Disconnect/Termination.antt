-- ===== src/Socket/Disconnect/Termination.antt =====
-- `disconnect` returns, and what its result means (src/platform/windows/win_socket.cpp).
use firelink_net.Prelude.{
  ℕ, zero, suc, ◌+◌, ◌-◌, ◌*◌, ◌/◌, ◌^◌, ◌<◌, ◌≤◌, ◌≡◌, ◌≢◌, ◌⊎◌, Option, none, some, List, ◌∷◌,
  arith,
}
use firelink_net.Types.{success, socket_error, sd_send}
use firelink_net.Os.{Call, Event, Os, Machine, sys}
use firelink_net.Os.Laws.{SetsLastError}
use firelink_net.Socket.State.{WinSocket}
use firelink_net.Socket.Disconnect.{scrap, await, round, rounds, disconnect}

-- What is documented of the clock and of `select`, and a peer that sends finitely much: `left`
-- bounds the number of reads that still return data. `time` is the time in milliseconds; the tick
-- count `clock` follows it in steps, and is behind by the `resolution` at most, which is 10 to 16
-- milliseconds.
pub record Peer (os : Os) : Type 0 where
  pub time : os.World → ℕ
  pub clock : os.World → ℕ
  pub resolution : ℕ
  pub left : os.World → ℕ
  pub clock_bounded : (w : os.World) → clock w < 2 ^ 64
  pub clock_read :
      (w : os.World) → (os.answer Call.tick_count w).0.ret ≡ clock (os.answer Call.tick_count w).1
  pub clock_grows : (c : Call) (w : os.World) → clock w ≤ clock (os.answer c w).1
  pub time_grows : (c : Call) (w : os.World) → time w ≤ time (os.answer c w).1
  pub clock_lags : (w : os.World) → (clock w ≤ time w) × (time w ≤ clock w + resolution)
  pub left_falls : (c : Call) (w : os.World) → left (os.answer c w).1 ≤ left w
  pub select_range :
      (h : ℕ) (t : Option (ℕ × ℕ)) (w : os.World)
      → let r = (os.answer (Call.select_read h t) w).0.ret in
        (r ≡ 0) ⊎ ((r ≡ socket_error) ⊎ ((0 < r) × (r < 2 ^ 31)))
  pub select_waits :
      (h sec usec : ℕ) (w : os.World)
      → let r = os.answer (Call.select_read h (some (sec, usec))) w in
        r.0.ret ≡ 0 → time w + sec * 1000 + usec / 1000 ≤ time r.1
  pub select_blocks : (h : ℕ) (w : os.World) → (os.answer (Call.select_read h none) w).0.ret ≢ 0
  pub recv_consumes :
      (h p n : ℕ) (w : os.World)
      → let r = os.answer (Call.recv_span h p n) w in
        r.0.ret ≢ socket_error → r.0.ret ≢ 0 → left r.1 < left w

module _ (os : Os) (s : WinSocket) (peer : Peer os) (timeout_ms start : ℕ)
    (small : timeout_ms < 2 ^ 31) where
  -- The reads that are left, and the time until the clock must show that the loop is over.
  abbrev measure : os.World → ℕ
  measure w = peer.left w + (start + timeout_ms + peer.resolution - peer.time w)

-- The last call was a `recv` that returned 0: the peer has closed its side.
abbrev pub EndsAtClose : List Event → Type 0
EndsAtClose ((Call.recv_span h p n, r) ∷ t) = r ≡ 0
EndsAtClose _ = ⊥

round-success :
    (os : Os) (s : WinSocket) (timeout_ms start : ℕ) (m : Machine os.World)
    → SetsLastError os
    → let (r, m') = round os s timeout_ms start m in r ≡ some success → EndsAtClose m'.trace
unfolding round await scrap
round-success os s timeout_ms start m law e = grind (arith, law)

rounds-success :
    (os : Os) (s : WinSocket) (timeout_ms start fuel : ℕ) (m : Machine os.World)
    → SetsLastError os
    → let (r, m') = rounds os s fuel timeout_ms start m in r ≡ some success → EndsAtClose m'.trace
unfolding rounds
rounds-success os s timeout_ms start zero m law e = cc
rounds-success os s timeout_ms start (suc fuel) m law e =
    let m' = (round os s timeout_ms start m).1 in
    ground (
      arith,
      round-success os s timeout_ms start m law,
      rounds-success os s timeout_ms start fuel m' law,
    )

-- `disconnect` reports success only if its last call was a `recv` that found the peer's side closed.
-- Condition: a failed call of the system sets the last error, to a code that is not 0.
pub disconnect-success :
    (os : Os) (s : WinSocket) (timeout_ms fuel : ℕ) (m : Machine os.World)
    → SetsLastError os
    → (disconnect os s fuel timeout_ms m).0 ≡ some success
    → EndsAtClose (disconnect os s fuel timeout_ms m).1.trace
unfolding disconnect
disconnect-success os s timeout_ms fuel m law e =
    let c = Call.shutdown_socket s.native_handle sd_send in
    let m1 = (sys os c m).1 in
    let m2 = (sys os Call.tick_count m1).1 in
    let start = (os.answer Call.tick_count m1.world).0.ret in
    ground (arith, law c m.world, rounds-success os s timeout_ms start fuel m2 law)
