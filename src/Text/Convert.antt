-- ===== src/Text/Convert.antt =====
-- `inet_ntop` and `inet_pton` of src/endpoint.cpp. The functions of the same names that Winsock has
-- are the parameter `Inet`.
pub mod RoundTrip
use firelink_net.Prelude.{
  ℕ, Bool, suc, ◌+◌, ◌<◌, not, ◌&&◌, Option, none, some, List, [], ◌∷◌, ◌++◌, take, drop, ltb, ◌==◌,
  if◌then◌else◌,
}
use firelink_net.Types.{ErrorCode, success, system_error, address_family_not_supported, ipv4, ipv6}
use firelink_net.Endpoint.{
  Bytes4, IPv4Address, IPv6Address, Endpoint, Pun, of_ipv4, of_ipv6, read_ipv4, read_ipv6, any4,
  any6,
}
use firelink_net.Os.{SockaddrStorage}
use firelink_net.Text.Strings.{Bytes, npos, rfind, stoi, to_uint16, to_string}

-- `::inet_ntop` (`none`: it returned null) and `::inet_pton` (`none`: it did not return 1), which are
-- `InetNtopA` and `InetPtonA`. Where `InetPtonA` did not return 1, `malformed4` and `malformed6` tell
-- whether it returned 0. `v4mapped` is what `IN6ADDR_SETV4MAPPED` writes, with the scope 0.
pub record Inet : Type 0 where
  pub ntop4 : Bytes4 → Option Bytes
  pub ntop6 : List ℕ → Option Bytes
  pub pton4 : Bytes → Option Bytes4
  pub pton6 : Bytes → Option (List ℕ)
  pub malformed4 : Bytes → Bool
  pub malformed6 : Bytes → Bool
  pub v4mapped : Bytes4 → ℕ → SockaddrStorage

-- How a parse ends: it returns a code with the address as it leaves it, `stoi` throws, or the
-- behaviour is undefined.
pub data Parse (A : Type 0) : Type 0 where
  returns : ErrorCode → A → Parse A
  throws : Parse A
  undefined : Parse A

-- The text of an address without its brackets: `erase(0, 1)` and `pop_back()`, which is undefined on
-- an empty string.
abbrev pub but_last : Bytes → Bytes
but_last [] = []
but_last (c ∷ []) = []
but_last (c ∷ d ∷ s) = c ∷ but_last (d ∷ s)

pub trim_brackets : Bytes → Option Bytes
trim_brackets [] = none
trim_brackets (c ∷ []) = none
trim_brackets (c ∷ d ∷ s) = some (but_last (d ∷ s))

module _ (inet : Inet) where
  unfoldable pub inet_ntop4 : IPv4Address → Bytes
  inet_ntop4 a = elim (inet.ntop4 a.bytes) [ none ↦ [] | some buf ↦ buf ++ b':' ∷ to_string a.port ]

  unfoldable pub inet_ntop6 : IPv6Address → Bytes
  inet_ntop6 a = elim (inet.ntop6 a.bytes) [
    | none ↦ []
    | some buf ↦ b'[' ∷ buf ++ b']' ∷ b':' ∷ to_string a.port
  ]

  -- `inet_ntop` of an endpoint.
  unfoldable pub inet_ntop : Pun → ℕ → Endpoint → Bytes
  unfolding read_ipv4 read_ipv6
  inet_ntop pun family ep =
      if family == ipv4
      then inet_ntop4 (read_ipv4 pun ep)
      else if family == ipv6
      then inet_ntop6 (read_ipv6 pun ep)
      else []

  -- `::inet_pton` into the bytes of `out`.
  parse_bytes4 : Bytes → IPv4Address → Parse IPv4Address
  parse_bytes4 text out = elim (inet.pton4 text) [
    | none ↦ returns system_error out
    | some b ↦ returns success (record out { bytes = b })
  ]

  -- The text has a port: `stoi`, then the address.
  pub with_port4 : Bytes → Bytes → IPv4Address → Parse IPv4Address
  unfolding parse_bytes4
  with_port4 trimmed_addr trimmed_port out = elim (stoi trimmed_port) [
    | none ↦ throws
    | some v ↦ parse_bytes4 trimmed_addr (record out { port = to_uint16 v })
  ]

  pub inet_pton4 : Bytes → IPv4Address → Parse IPv4Address
  unfolding parse_bytes4
  inet_pton4 str out =
      let pos = rfind b':' str in
      if not (pos == npos) && ltb (rfind b'.' str) pos
      then with_port4 (take pos str) (drop (suc pos) str) out
      else parse_bytes4 str out

  parse_bytes6 : Bytes → IPv6Address → Parse IPv6Address
  parse_bytes6 text out = elim (inet.pton6 text) [
    | none ↦ returns system_error out
    | some b ↦ returns success (record out { bytes = b })
  ]

  -- The text has a port: the brackets go, then as above.
  pub with_port6 : Bytes → Bytes → IPv6Address → Parse IPv6Address
  unfolding parse_bytes6 trim_brackets
  with_port6 trimmed_addr trimmed_port out = elim (trim_brackets trimmed_addr) [
    | none ↦ undefined
    | some text ↦ elim (stoi trimmed_port) [
      | none ↦ throws
      | some v ↦ parse_bytes6 text (record out { port = to_uint16 v })
    ]
  ]

  pub inet_pton6 : Bytes → IPv6Address → Parse IPv6Address
  unfolding parse_bytes6
  inet_pton6 str out =
      let pos = rfind b':' str in
      if not (pos == npos) && ltb (rfind b']' str) pos
      then with_port6 (take pos str) (drop (suc pos) str) out
      else parse_bytes6 str out

  -- The endpoint is only written on success.
  finish4 : Parse IPv4Address → Endpoint → Parse Endpoint
  finish4 (returns e a) out = returns e (if e == success then of_ipv4 a else out)
  finish4 throws out = throws
  finish4 undefined out = undefined

  finish6 : Parse IPv6Address → Endpoint → Parse Endpoint
  finish6 (returns e a) out = returns e (if e == success then of_ipv6 a else out)
  finish6 throws out = throws
  finish6 undefined out = undefined

  -- `inet_pton` of an endpoint; `IPv4Address{}` has zeros only.
  pub inet_pton : ℕ → Bytes → Endpoint → Parse Endpoint
  unfolding finish4 finish6 any4 any6
  inet_pton family str out =
      if family == ipv4
      then finish4 (inet_pton4 str (any4 0)) out
      else if family == ipv6
      then finish6 (inet_pton6 str (any6 0)) out
      else returns address_family_not_supported out
