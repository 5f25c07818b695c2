-- ===== src/Endpoint.antt =====
-- include/firelink/endpoint.hpp: addresses and the endpoint.
-- `Endpoint` is a union without a tag. The model records the member that was written last; reading
-- the other one, or an endpoint that nothing was written to, gives a value of the parameter `Pun`,
-- of which nothing is known.
use firelink_net.Prelude.{ℕ, List, [], ◌∷◌}

pub record Bytes4 : Type 0 where
  pub b0 : ℕ
  pub b1 : ℕ
  pub b2 : ℕ
  pub b3 : ℕ

pub record IPv4Address : Type 0 where
  pub bytes : Bytes4
  pub port : ℕ

-- The sixteen bytes are only ever copied as a block.
pub record IPv6Address : Type 0 where
  pub bytes : List ℕ
  pub port : ℕ

pub data Endpoint : Type 0 where
  blank : Endpoint
  of_ipv4 : IPv4Address → Endpoint
  of_ipv6 : IPv6Address → Endpoint

-- What a read of a member that is not the active one gives.
pub record Pun : Type 0 where
  pub as_ipv4 : Endpoint → IPv4Address
  pub as_ipv6 : Endpoint → IPv6Address

unfoldable pub any4 : ℕ → IPv4Address
any4 p = record { bytes = record { b0 = 0; b1 = 0; b2 = 0; b3 = 0 }; port = p }

unfoldable pub loopback4 : ℕ → IPv4Address
loopback4 p = record { bytes = record { b0 = 127; b1 = 0; b2 = 0; b3 = 1 }; port = p }

unfoldable pub any6 : ℕ → IPv6Address
any6 p = record {
  bytes = 0 ∷ 0 ∷ 0 ∷ 0 ∷ 0 ∷ 0 ∷ 0 ∷ 0 ∷ 0 ∷ 0 ∷ 0 ∷ 0 ∷ 0 ∷ 0 ∷ 0 ∷ 0 ∷ [];
  port = p;
}

unfoldable pub loopback6 : ℕ → IPv6Address
loopback6 p = record {
  bytes = 0 ∷ 0 ∷ 0 ∷ 0 ∷ 0 ∷ 0 ∷ 0 ∷ 0 ∷ 0 ∷ 0 ∷ 0 ∷ 0 ∷ 0 ∷ 0 ∷ 0 ∷ 1 ∷ [];
  port = p;
}

-- `Endpoint::ipv4` and `Endpoint::ipv6`.
unfoldable pub read_ipv4 : Pun → Endpoint → IPv4Address
read_ipv4 pun (of_ipv4 a) = a
read_ipv4 pun blank = pun.as_ipv4 blank
read_ipv4 pun (of_ipv6 a) = pun.as_ipv4 (of_ipv6 a)

unfoldable pub read_ipv6 : Pun → Endpoint → IPv6Address
read_ipv6 pun (of_ipv6 a) = a
read_ipv6 pun blank = pun.as_ipv6 blank
read_ipv6 pun (of_ipv4 a) = pun.as_ipv6 (of_ipv4 a)
