-- ===== src/Socket/Address.antt =====
-- `WinSocket::sockaddr_to_endpoint` and `WinSocket::endpoint_to_sockaddr`
-- (src/platform/windows/win_socket.cpp).
pub mod RoundTrip
use firelink_net.Prelude.{ℕ, ◌+◌, ◌-◌, ◌*◌, ◌/◌, ◌%◌, ◌^◌, List, [], ltb, ◌==◌, if◌then◌else◌}
use firelink_net.Types.{ErrorCode, success, address_family_not_supported, ipv4, ipv6}
use firelink_net.Endpoint.{
  Bytes4, IPv4Address, IPv6Address, Endpoint, of_ipv4, of_ipv6, read_ipv4, read_ipv6, any6,
}
use firelink_net.Os.{Os, SockaddrStorage}

-- The little-endian `int32_t` in four bytes of memory, as its pattern.
pub load_int32 : Bytes4 → ℕ
load_int32 b = b.b0 + 256 * b.b1 + 2 ^ 16 * b.b2 + 2 ^ 24 * b.b3

-- `>>` on an `int32_t` keeps the sign: ones come in from the left where the pattern is negative.
shift_right : ℕ → ℕ → ℕ
shift_right w k = if ltb w (2 ^ 31) then w / 2 ^ k else 2 ^ 32 - 1 - (2 ^ 32 - 1 - w) / 2 ^ k

-- The four `(*sin_addr_ptr >> k) & 0XFF`.
pub split_bytes : ℕ → Bytes4
unfolding shift_right
split_bytes w = record {
  b3 = shift_right w 24 % 256;
  b2 = shift_right w 16 % 256;
  b1 = shift_right w 8 % 256;
  b0 = shift_right w 0 % 256;
}

-- `ZeroMemory(&addr, sizeof(addr))` and `SOCKADDR_STORAGE addr{}`
unfoldable pub zero_sockaddr : SockaddrStorage
unfolding any6
zero_sockaddr = record {
  ss_family = 0;
  sin_port = 0;
  sin_addr = record { b0 = 0; b1 = 0; b2 = 0; b3 = 0 };
  sin6_addr = (any6 0).bytes;
}

-- The second component is the endpoint afterwards.
unfoldable pub sockaddr_to_endpoint : Os → SockaddrStorage → Endpoint → ErrorCode × Endpoint
unfolding split_bytes load_int32
sockaddr_to_endpoint os addr ep =
    if addr.ss_family == ipv4
    then (
      success,
      of_ipv4 (record {
        bytes = split_bytes (load_int32 addr.sin_addr);
        port = os.ntohs addr.sin_port;
      }),
    )
    else if addr.ss_family == ipv6
    then (success, of_ipv6 (record { bytes = addr.sin6_addr; port = os.ntohs addr.sin_port }))
    else (address_family_not_supported, ep)

-- `static_cast<ADDRESS_FAMILY>` makes 16 bits of the family.
unfoldable pub endpoint_to_sockaddr : Os → ℕ → Endpoint → ErrorCode × SockaddrStorage
unfolding read_ipv4 read_ipv6 zero_sockaddr
endpoint_to_sockaddr os family ep =
    if family == ipv4
    then (
      success,
      record zero_sockaddr {
        ss_family = family % 2 ^ 16;
        sin_port = os.htons (read_ipv4 os.pun ep).port;
        sin_addr = (read_ipv4 os.pun ep).bytes;
      },
    )
    else if family == ipv6
    then (
      success,
      record zero_sockaddr {
        ss_family = family % 2 ^ 16;
        sin6_addr = (read_ipv6 os.pun ep).bytes;
        sin_port = os.htons (read_ipv6 os.pun ep).port;
      },
    )
    else (address_family_not_supported, zero_sockaddr)
