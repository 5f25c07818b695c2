-- ===== src/Socket/Address/RoundTrip.antt =====
-- Endpoints and socket addresses are converted into one another without loss.
use firelink_net.Prelude.{ℕ, ◌<◌, ◌^◌, ◌≡◌, ◌⊎◌, ◌==◌, if◌then◌else◌, arith}
use firelink_net.Types.{success, address_family_not_supported, ipv4, ipv6}
use firelink_net.Endpoint.{Bytes4, Endpoint, blank, of_ipv4, of_ipv6}
use firelink_net.Os.{Os, SockaddrStorage}
use firelink_net.Os.Laws.{ByteOrder}
use firelink_net.Socket.Address.{
  load_int32, split_bytes, zero_sockaddr, sockaddr_to_endpoint, endpoint_to_sockaddr,
}

pub record AreBytes (b : Bytes4) : Type 0 where
  pub r0 : b.b0 < 256
  pub r1 : b.b1 < 256
  pub r2 : b.b2 < 256
  pub r3 : b.b3 < 256

-- The endpoint holds an address of the family, with every number in its range.
abbrev pub Fits : ℕ → Endpoint → Type 0
Fits family blank = ⊥
Fits family (of_ipv4 a) = (family ≡ ipv4) × AreBytes a.bytes × (a.port < 2 ^ 16)
Fits family (of_ipv6 a) = (family ≡ ipv6) × (a.port < 2 ^ 16)

-- The part of a socket address that means something in its family; the rest is zeroed.
abbrev pub visible : SockaddrStorage → SockaddrStorage
visible addr =
    if addr.ss_family == ipv4
    then record zero_sockaddr {
      ss_family = addr.ss_family;
      sin_port = addr.sin_port;
      sin_addr = addr.sin_addr;
    }
    else record zero_sockaddr {
      ss_family = addr.ss_family;
      sin_port = addr.sin_port;
      sin6_addr = addr.sin6_addr;
    }

-- The four shifts give back the bytes, also where the `int32_t` is negative.
pub split-load : (b : Bytes4) → AreBytes b → split_bytes (load_int32 b) ≡ b
unfolding split_bytes load_int32
split-load b h = ground arith

module _ (os : Os) (order : ByteOrder os) where
  -- An endpoint that fits the family is converted with success into a socket address of that family,
  -- and the conversion back gives the endpoint again, whatever the endpoint held that it overwrites.
  -- Condition: `htons` and `ntohs` undo one another on 16 bits.
  pub sockaddr_to_endpoint-endpoint_to_sockaddr :
      (family : ℕ) (ep old : Endpoint)
      → Fits family ep
      → let (err, addr) = endpoint_to_sockaddr os family ep in
        (err ≡ success)
        × (addr.ss_family ≡ family)
        × (sockaddr_to_endpoint os addr old ≡ (success, ep))
  unfolding endpoint_to_sockaddr sockaddr_to_endpoint
  sockaddr_to_endpoint-endpoint_to_sockaddr family blank old h = absurd h
  sockaddr_to_endpoint-endpoint_to_sockaddr family (of_ipv4 a) old h =
      ground (arith, split-load a.bytes h.1, order.to_host a.port h.2)
  sockaddr_to_endpoint-endpoint_to_sockaddr family (of_ipv6 a) old h =
      ground (arith, order.to_host a.port h.1)

  -- A socket address of a supported family, with its numbers in range, is converted with success
  -- into an endpoint, and the conversion back in that family gives the address again with the bytes
  -- that the family does not use zeroed.
  -- Condition: `htons` and `ntohs` undo one another on 16 bits.
  pub endpoint_to_sockaddr-sockaddr_to_endpoint :
      (addr : SockaddrStorage) (old : Endpoint)
      → (addr.ss_family ≡ ipv4) ⊎ (addr.ss_family ≡ ipv6)
      → AreBytes addr.sin_addr
      → addr.sin_port < 2 ^ 16
      → let (err, ep) = sockaddr_to_endpoint os addr old in
        (err ≡ success) × (endpoint_to_sockaddr os addr.ss_family ep ≡ (success, visible addr))
  unfolding endpoint_to_sockaddr sockaddr_to_endpoint
  endpoint_to_sockaddr-sockaddr_to_endpoint addr old family bytes port =
      ground (arith, split-load addr.sin_addr bytes, order.to_net addr.sin_port port)

-- Both conversions succeed exactly in the two supported families, and report
-- `AddressFamilyNotSupported` in every other; then the endpoint stays as it was.
conversion_families :
    (os : Os) (addr : SockaddrStorage) (ep : Endpoint)
    → let family = addr.ss_family in
      let supported = (family ≡ ipv4) ⊎ (family ≡ ipv6) in
      let to_ep = sockaddr_to_endpoint os addr ep in
      let to_addr = endpoint_to_sockaddr os family ep in
      ((supported × (to_ep.0 ≡ success) × (to_addr.0 ≡ success))
        ⊎ ((¬ supported)
            × (to_ep ≡ (address_family_not_supported, ep))
            × (to_addr.0 ≡ address_family_not_supported)))
unfolding endpoint_to_sockaddr sockaddr_to_endpoint
conversion_families os addr ep = ground arith
