-- ===== src/Tests/TextRuns.antt =====
-- The theorems on the text of endpoints, with a resolver that knows one address.
use firelink_net.Prelude.{List, ℕ, true, ◌%◌, ◌^◌, ◌≡◌, refl, none, some, [], ◌∷◌, ◌++◌, arith}
use firelink_net.Types.{success, ipv4, ipv6}
use firelink_net.Endpoint.{Bytes4, Endpoint, Pun, blank, of_ipv4, any4, any6}
use firelink_net.Os.{SockaddrStorage}
use firelink_net.Text.Strings.{Bytes, last_index, to_string}
use firelink_net.Types.{invalid_argument}
use firelink_net.Prelude.{inl}
use firelink_net.Os.Base.{Reply}
use firelink_net.Os.{Machine}
use firelink_net.Os.Script.{scripted, start, scripted-ByteOrder}
use firelink_net.Socket.Address.{sockaddr_to_endpoint}
use firelink_net.Text.Sockaddr.{
  ntop_of, addr_to_str, port_to_str, addr_and_port_to_str, str_to_addr4, str_to_addr6,
}
use firelink_net.Text.Sockaddr.Agrees.{
  addr_and_port_to_str-inet_ntop, str_to_addr, str_to_addr-addr_and_port_to_str, str_to_addr4_bound,
}
use firelink_net.Text.Convert.{Inet, returns, inet_pton4, inet_ntop, inet_pton}
use firelink_net.Text.Convert.RoundTrip.{IsText4, inet_pton4_wraps_port, inet_pton-inet_ntop}

-- 127.0.0.1
abbrev local_bytes : Bytes4
local_bytes = record { b0 = 127; b1 = 0; b2 = 0; b3 = 1 }

abbrev local_text : Bytes
local_text = b'1' ∷ b'2' ∷ b'7' ∷ b'.' ∷ b'0' ∷ b'.' ∷ b'0' ∷ b'.' ∷ b'1' ∷ []

-- ::ffff:a.b.c.d
abbrev mapped : Bytes4 → ℕ → SockaddrStorage
mapped b p = record {
  ss_family = ipv6;
  sin_port = p;
  sin_addr = record { b0 = 0; b1 = 0; b2 = 0; b3 = 0 };
  sin6_addr = 0 ∷ 0 ∷ 0 ∷ 0 ∷ 0 ∷ 0 ∷ 0 ∷ 0 ∷ 0 ∷ 0 ∷ 255 ∷ 255 ∷ b.b0 ∷ b.b1 ∷ b.b2 ∷ b.b3 ∷ [];
}

-- It prints every address as that one and reads every text as that one.
abbrev local_inet : Inet
local_inet = record {
  ntop4 = λ b. some local_text;
  ntop6 = λ b. none;
  pton4 = λ t. some local_bytes;
  pton6 = λ t. none;
  malformed4 = λ t. true;
  malformed6 = λ t. true;
  v4mapped = mapped;
}

abbrev zeros : Pun
zeros = record { as_ipv4 = λ e. any4 0; as_ipv6 = λ e. any6 0 }

local_text-IsText4 : IsText4 local_inet local_bytes local_text
unfolding last_index
local_text-IsText4 = (refl, refl, ground arith, ground arith, omega arith)

inet_pton4_wraps_port_example :
    inet_pton4 local_inet (local_text ++ b':' ∷ to_string 70000) (any4 0)
    ≡ returns success (record { bytes = local_bytes; port = 70000 % 2 ^ 16 })
inet_pton4_wraps_port_example =
    inet_pton4_wraps_port local_inet local_bytes (any4 0) local_text 70000 local_text-IsText4
      (omega arith)

abbrev local_ep : Endpoint
local_ep = of_ipv4 (record { bytes = local_bytes; port = 8080 })

inet_pton-inet_ntop_example :
    inet_pton local_inet ipv4 (inet_ntop local_inet zeros ipv4 local_ep) blank
    ≡ returns success local_ep
inet_pton-inet_ntop_example =
    inet_pton-inet_ntop local_inet zeros ipv4 local_ep blank
      (
        refl,
        record { r0 = omega arith; r1 = omega arith; r2 = omega arith; r3 = omega arith },
        omega arith,
      )
      (local_text, local_text-IsText4)

abbrev quiet : Machine (List Reply)
quiet = start []

-- 127.0.0.1, with the port 8080 in network order.
abbrev local_addr : SockaddrStorage
local_addr = record { ss_family = 2; sin_port = 36895; sin_addr = local_bytes; sin6_addr = [] }

abbrev any_addr : SockaddrStorage
any_addr = record {
  ss_family = 0;
  sin_port = 0;
  sin_addr = record { b0 = 0; b1 = 0; b2 = 0; b3 = 0 };
  sin6_addr = [];
}

addr_and_port_to_str-inet_ntop_example :
    let p = port_to_str scripted 36895 in
    (addr_and_port_to_str local_inet scripted (some local_addr) ([], []) quiet
      ≡ ((success, (local_text, p)), quiet))
    × (addr_to_str local_inet (some local_addr) ≡ local_text)
    × (inet_ntop local_inet zeros 2 (sockaddr_to_endpoint scripted local_addr blank).1
        ≡ local_text ++ b':' ∷ p)
unfolding ntop_of
addr_and_port_to_str-inet_ntop_example =
    addr_and_port_to_str-inet_ntop local_inet scripted zeros quiet local_addr ([], []) blank
      local_text (inl refl)
      (record { r0 = omega arith; r1 = omega arith; r2 = omega arith; r3 = omega arith }) refl

str_to_addr-addr_and_port_to_str_example :
    let r = (addr_and_port_to_str local_inet scripted (some local_addr) ([], []) quiet).0.1 in
    str_to_addr local_inet scripted 2 r.0 r.1 any_addr quiet ≡ ((success, some local_addr), quiet)
str_to_addr-addr_and_port_to_str_example =
    str_to_addr-addr_and_port_to_str local_inet scripted scripted-ByteOrder quiet local_addr
      any_addr ([], []) local_text (inl (refl, local_text-IsText4)) (omega arith)

str_to_addr4_bound_example :
    let addr = record any_addr { sin_addr = local_bytes } in
    (str_to_addr4 local_inet scripted local_text (to_string 70000) (some any_addr) quiet
      ≡ ((invalid_argument, some addr), quiet))
    × (str_to_addr6 local_inet scripted ipv4 local_text (to_string 70000) (some any_addr) quiet
        ≡ ((invalid_argument, some any_addr), quiet))
str_to_addr4_bound_example =
    str_to_addr4_bound local_inet scripted scripted-ByteOrder quiet any_addr local_bytes local_text
      70000 local_text-IsText4 (omega arith)
