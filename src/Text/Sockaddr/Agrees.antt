-- ===== src/Text/Sockaddr/Agrees.antt =====
-- The text helpers agree with `inet_ntop`, and undo one another
-- (src/platform/windows/win_socket.cpp, src/endpoint.cpp).
use firelink_net.Prelude.{
  ℕ, ◌^◌, ◌<◌, ◌≡◌, ◌⊎◌, Option, some, ◌∷◌, ◌++◌, ltb, ◌==◌, if◌then◌else◌, arith,
}
use firelink_net.Types.{ErrorCode, success, invalid_argument, ipv4, ipv6}
use firelink_net.Endpoint.{Bytes4, Endpoint, Pun}
use firelink_net.Os.{Os, Machine, SockaddrStorage}
use firelink_net.Os.Laws.{ByteOrder}
use firelink_net.Socket.Address.{sockaddr_to_endpoint}
use firelink_net.Socket.Address.RoundTrip.{AreBytes, split-load}
use firelink_net.Text.Strings.{Bytes, to_string}
use firelink_net.Text.Convert.{Inet, inet_ntop, inet_ntop4, inet_ntop6}
use firelink_net.Text.Convert.RoundTrip.{IsText4, IsText6}
use firelink_net.Text.Sockaddr.{
  ntop_of, addr_to_str, port_to_str, addr_and_port_to_str, str_to_addr4, str_to_addr6,
}
use firelink_net.Text.Sockaddr.Port.{checked_port-to_string, sprintf_u_enough}

-- An address of the family, in the form of `inet_ntop`.
abbrev pub joined : ℕ → Bytes → Bytes → Bytes
joined family a p = if family == ipv4 then a ++ b':' ∷ p else b'[' ∷ a ++ b']' ∷ b':' ∷ p

-- On an IPv4 or IPv6 address for which `InetNtopA` succeeds, `addr_and_port_to_str` succeeds with
-- the texts of `addr_to_str` and of `port_to_str`, and these, joined with a colon and with brackets
-- around an IPv6 address, are what `inet_ntop` writes for the endpoint that the address is
-- converted to.
pub addr_and_port_to_str-inet_ntop :
    (inet : Inet) (os : Os) (pun : Pun) (m : Machine os.World) (addr : SockaddrStorage)
    (out : Bytes × Bytes) (old : Endpoint) (a : Bytes)
    → (addr.ss_family ≡ ipv4) ⊎ (addr.ss_family ≡ ipv6)
    → AreBytes addr.sin_addr
    → ntop_of inet addr ≡ some a
    → let p = port_to_str os addr.sin_port in
      (addr_and_port_to_str inet os (some addr) out m ≡ ((success, (a, p)), m))
      × (addr_to_str inet (some addr) ≡ a)
      × (inet_ntop inet pun addr.ss_family (sockaddr_to_endpoint os addr old).1
          ≡ joined addr.ss_family a p)
unfolding ntop_of addr_and_port_to_str addr_to_str port_to_str inet_ntop inet_ntop4 inet_ntop6
    sockaddr_to_endpoint
addr_and_port_to_str-inet_ntop inet os pun m addr out old a family bytes e =
    ground (arith, split-load addr.sin_addr bytes, sprintf_u_enough (os.ntohs addr.sin_port))

-- `dst` with what a text of the address `addr` writes to it.
abbrev pub read_into : SockaddrStorage → SockaddrStorage → SockaddrStorage
read_into addr dst =
    if addr.ss_family == ipv4
    then record dst { sin_addr = addr.sin_addr; sin_port = addr.sin_port; ss_family = ipv4 }
    else record dst { sin6_addr = addr.sin6_addr; sin_port = addr.sin_port; ss_family = ipv6 }

-- `str_to_addr4` for an IPv4 address, `str_to_addr6` for another.
abbrev pub str_to_addr :
    (inet : Inet) (os : Os)
    → ℕ
    → Bytes
    → Bytes
    → SockaddrStorage
    → Machine os.World
    → (ErrorCode × Option SockaddrStorage) × Machine os.World
str_to_addr inet os family a p dst m =
    if family == ipv4
    then str_to_addr4 inet os a p (some dst) m
    else str_to_addr6 inet os family a p (some dst) m

module _ (inet : Inet) (os : Os) (order : ByteOrder os) (m : Machine os.World) where
  -- The texts that `addr_and_port_to_str` makes of an IPv4 or IPv6 address, which has a text as
  -- documented and a port of 16 bits, are read by `str_to_addr4` or `str_to_addr6` with success, and
  -- give the address, the port and the family again; the other fields of the target stay.
  -- Condition: `htons` and `ntohs` undo one another on 16 bits.
  pub str_to_addr-addr_and_port_to_str :
      (addr dst : SockaddrStorage) (out : Bytes × Bytes) (a : Bytes)
      → ((addr.ss_family ≡ ipv4) × IsText4 inet addr.sin_addr a)
        ⊎ ((addr.ss_family ≡ ipv6) × IsText6 inet addr.sin6_addr a)
      → addr.sin_port < 2 ^ 16
      → let r = (addr_and_port_to_str inet os (some addr) out m).0.1 in
        str_to_addr inet os addr.ss_family r.0 r.1 dst m ≡ ((success, some (read_into addr dst)), m)
  unfolding ntop_of addr_and_port_to_str str_to_addr4 str_to_addr6
  str_to_addr-addr_and_port_to_str addr dst out a text small = ground (
    arith,
    sprintf_u_enough (os.ntohs addr.sin_port),
    order.host_small addr.sin_port small,
    order.to_net addr.sin_port small,
    checked_port-to_string (os.ntohs addr.sin_port),
  )

  -- With the text of an IPv4 address and a printed number below 100000 as the port, `str_to_addr4`
  -- succeeds exactly if the number is at most 65535, and then gives the address and the port; a
  -- larger one is `InvalidArgument`. `str_to_addr6` in the family IPv4 succeeds for the same ports,
  -- with the mapped address, and leaves its target alone otherwise.
  -- Condition: `htons` and `ntohs` undo one another on 16 bits.
  pub str_to_addr4_bound :
      (dst : SockaddrStorage) (b : Bytes4) (t : Bytes) (n : ℕ)
      → IsText4 inet b t
      → n < 10 ^ 5
      → let addr = record dst { sin_addr = b } in
        let done = record addr { sin_port = os.htons n; ss_family = ipv4 } in
        let bad = ltb 65535 n in
        (str_to_addr4 inet os t (to_string n) (some dst) m
          ≡ (if bad then ((invalid_argument, some addr), m) else ((success, some done), m)))
        × (str_to_addr6 inet os ipv4 t (to_string n) (some dst) m ≡ (
            if bad
            then ((invalid_argument, some dst), m)
            else ((success, some (inet.v4mapped b (os.htons n))), m)))
  unfolding str_to_addr4 str_to_addr6
  str_to_addr4_bound dst b t n text small = ground (arith, checked_port-to_string n small)
