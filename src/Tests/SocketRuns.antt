-- ===== src/Tests/SocketRuns.antt =====
-- The theorems on sockets, at concrete sockets and answers of the system.
use firelink_net.Prelude.{
  if◌then◌else◌, ◌==◌, ◌≡◌, ◌≢◌, ◌⊎◌, refl, inl, true, false, List, [], ◌∷◌, arith,
}
use firelink_net.Types.{
  success, address_family_not_supported, minus, invalid_socket, ipv4, stream, tcp, unsupported,
}
use firelink_net.Endpoint.{blank}
use firelink_net.Os.Base.{Reply}
use firelink_net.Os.{Machine, SockaddrStorage}
use firelink_net.Os.Ledger.{sock, lost_sock, thread_io, Holds, Remains}
use firelink_net.Os.Script.{returns, scripted, start, scripted-SetsLastError, scripted-ByteOrder}
use firelink_net.Socket.State.{new_socket, is_valid, socket, close, destroy}
use firelink_net.Socket.Sync.{accept, bind, connect, send_to}
use firelink_net.Socket.Address.{sockaddr_to_endpoint, endpoint_to_sockaddr}
use firelink_net.Socket.Address.RoundTrip.{
  visible, sockaddr_to_endpoint-endpoint_to_sockaddr, endpoint_to_sockaddr-sockaddr_to_endpoint,
}
use firelink_net.Socket.Lifecycle.{
  one_if, socket-sock, socket_outcome, close_gives_back, destroy_gives_back, accept_outcome,
}
use firelink_net.Socket.Contracts.{closed_refuses}
use firelink_net.Tests.Fixtures.{opened, closed, buffer, home}

-- The next two calls return 7 and 9.
abbrev opening : Machine (List Reply)
opening = start (returns 7 ∷ returns 9 ∷ [])

-- Every call returns 0.
abbrev quiet : Machine (List Reply)
quiet = start []

abbrev home_addr : SockaddrStorage
home_addr = record {
  ss_family = 2;
  sin_port = 36895;
  sin_addr = record { b0 = 127; b1 = 0; b2 = 0; b3 = 1 };
  sin6_addr = [];
}

socket-sock_example :
    let ((err, s'), m') = socket scripted closed ipv4 stream tcp opening in
    let has = one_if invalid_socket 7 s'.native_handle in
    Remains sock lost_sock 7 [] m'.trace has × ((err ≢ success) ⊎ Holds sock 7 [] m'.trace has)
socket-sock_example = socket-sock scripted closed opening 7 ipv4 stream tcp scripted-SetsLastError

socket_outcome_example :
    let ((err, s'), m') = socket scripted closed ipv4 stream tcp opening in
    ((err ≡ success)
      × (is_valid s' ≡ true)
      × (s'.socket_io_handle ≢ 0)
      × (s'.addr_family ≡ ipv4)
      × (s'.sock_type ≡ stream)
      × (s'.protocol ≡ tcp))
    ⊎ ((err ≢ success)
        × (is_valid s' ≡ false)
        × (s'.addr_family ≡ unsupported)
        × (s'.sock_type ≡ unsupported)
        × (s'.protocol ≡ unsupported))
socket_outcome_example =
    socket_outcome scripted closed opening ipv4 stream tcp scripted-SetsLastError

close_gives_back_example :
    let ((err, s'), m') = close scripted opened quiet in
    Remains sock lost_sock 7 m'.trace [] 1
    × Holds sock 7 m'.trace [] (if err == success then 1 else 0)
    × Holds lost_sock 7 [] m'.trace (if err == success then 0 else 1)
    × Holds thread_io 7 m'.trace [] 0
    × (s'.native_handle ≡ invalid_socket)
close_gives_back_example = close_gives_back scripted opened quiet 7 scripted-SetsLastError

destroy_gives_back_example :
    let m' = (destroy scripted opened quiet).1 in
    Holds sock 9 m'.trace [] 0 × Holds thread_io 9 m'.trace [] 1
destroy_gives_back_example = destroy_gives_back scripted opened quiet 9

accept_outcome_example :
    let ((err, a'), m') = accept scripted opened closed opening in
    ((err ≡ success) × (is_valid a' ≡ true) × (a'.socket_io_handle ≢ 0) × (a'.is_bound ≡ true))
    ⊎ ((err ≢ success) × ((a' ≡ closed) ⊎ (a' ≡ new_socket)))
accept_outcome_example = accept_outcome scripted opened closed opening scripted-SetsLastError refl

sockaddr_to_endpoint-endpoint_to_sockaddr_example :
    let (err, addr) = endpoint_to_sockaddr scripted ipv4 home in
    (err ≡ success)
    × (addr.ss_family ≡ ipv4)
    × (sockaddr_to_endpoint scripted addr blank ≡ (success, home))
sockaddr_to_endpoint-endpoint_to_sockaddr_example =
    sockaddr_to_endpoint-endpoint_to_sockaddr scripted scripted-ByteOrder ipv4 home blank (
      refl,
      record { r0 = omega arith; r1 = omega arith; r2 = omega arith; r3 = omega arith },
      omega arith,
    )

endpoint_to_sockaddr-sockaddr_to_endpoint_example :
    let (err, ep) = sockaddr_to_endpoint scripted home_addr blank in
    (err ≡ success) × (endpoint_to_sockaddr scripted ipv4 ep ≡ (success, visible home_addr))
endpoint_to_sockaddr-sockaddr_to_endpoint_example =
    endpoint_to_sockaddr-sockaddr_to_endpoint scripted scripted-ByteOrder home_addr blank (inl refl)
      (record { r0 = omega arith; r1 = omega arith; r2 = omega arith; r3 = omega arith })
      (omega arith)

closed_refuses_example :
    let s' = (close scripted opened quiet).0.1 in
    let m' = (close scripted opened quiet).1 in
    (bind scripted s' home m' ≡ ((address_family_not_supported, s'), m'))
    × (connect scripted s' home m' ≡ ((address_family_not_supported, s'), m'))
    × (send_to scripted s' buffer home m' ≡ ((minus 1, s'), m'))
closed_refuses_example = closed_refuses scripted opened quiet home buffer
