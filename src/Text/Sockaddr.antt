-- ===== src/Text/Sockaddr.antt =====
-- The text helpers of `WinSocket` (src/platform/windows/win_socket.cpp): `addr_to_str`,
-- `port_to_str`, `addr_and_port_to_str`, `str_to_addr4`, `str_to_addr6`. A pointer is an `Option`;
-- `none` is null. The texts that are read end with a NUL, as `data()` of a whole string does.
pub mod Port
pub mod Agrees
use firelink_net.Prelude.{
  ℕ, ◌+◌, ◌-◌, ◌^◌, ◌⊎◌, inl, inr, Bool, true, false, not, ◌&&◌, ◌||◌, Option, none, some, List, [],
  ◌∷◌, length, ltb, leb, ◌==◌, if◌then◌else◌,
}
use firelink_net.Types.{
  ErrorCode, success, system_error, invalid_argument, address_family_not_supported, ipv4, ipv6,
}
use firelink_net.Endpoint.{Bytes4}
use firelink_net.Os.{Os, SockaddrStorage, M, pure, ◌>>=◌, last_error_code}
use firelink_net.Socket.Address.{zero_sockaddr}
use firelink_net.Text.Strings.{Bytes, digits_value, skip_spaces, to_string}
use firelink_net.Text.Convert.{Inet}

-- `sprintf_s` with "%u" into a buffer of this size; `none` is a negative result.
abbrev pub sprintf_u : ℕ → ℕ → Option Bytes
sprintf_u size n = if ltb (length (to_string n)) size then some (to_string n) else none

abbrev port_buffer_size : ℕ
port_buffer_size = 10

-- `strtol` with base 10: a 32-bit `long`, whether it is negative and its size, at most the limit.
strtol_digits : Bool → Bytes → Bool × ℕ
strtol_digits negative s =
    let limit = if negative then 2 ^ 31 else 2 ^ 31 - 1 in
    let v = digits_value 0 s in (negative, if leb v limit then v else limit)

strtol_signed : Bytes → Bool × ℕ
unfolding strtol_digits
strtol_signed [] = (false, 0)
strtol_signed (c ∷ s) =
    if c == b'-'
    then strtol_digits true s
    else if c == b'+'
    then strtol_digits false s
    else strtol_digits false (c ∷ s)

pub strtol : Bytes → Bool × ℕ
unfolding strtol_signed skip_spaces
strtol s = strtol_signed (skip_spaces s)

-- `strcmp(s, "0") == 0`
abbrev pub is_zero_text : Bytes → Bool
is_zero_text (c ∷ []) = c == b'0'
is_zero_text _ = false

-- The port in a text: the error that is returned, or the number.
pub checked_port : Bytes → ErrorCode ⊎ ℕ
unfolding strtol
checked_port port_str =
    let (negative, v) = strtol port_str in
    if ltb 65535 v || negative && not (v == 0)
    then inl invalid_argument
    else if v == 0 && not (is_zero_text port_str)
    then inl system_error
    else inr v

module _ (inet : Inet) where
  -- `InetNtopA` on the address of the family.
  unfoldable pub ntop_of : SockaddrStorage → Option Bytes
  ntop_of addr =
      if addr.ss_family == ipv4 then inet.ntop4 addr.sin_addr else inet.ntop6 addr.sin6_addr

  pub addr_to_str : Option SockaddrStorage → Bytes
  unfolding ntop_of
  addr_to_str none = []
  addr_to_str (some addr) =
      if addr.ss_family == ipv4 || addr.ss_family == ipv6
      then elim (ntop_of addr) [ none ↦ [] | some res ↦ res ]
      else []

module _ (os : Os) where
  pub port_to_str : ℕ → Bytes
  port_to_str port = elim (sprintf_u port_buffer_size (os.ntohs port)) [ none ↦ [] | some s ↦ s ]

module _ (inet : Inet) (os : Os) where
  -- The code with the two strings afterwards.
  pub addr_and_port_to_str :
      Option SockaddrStorage → Bytes × Bytes → M os.World (ErrorCode × (Bytes × Bytes))
  unfolding ntop_of last_error_code
  addr_and_port_to_str none out = pure (invalid_argument, out)
  addr_and_port_to_str (some addr) out =
      if addr.ss_family == ipv4 || addr.ss_family == ipv6
      then elim (ntop_of inet addr) [
        | none ↦ (do err ← last_error_code os; pure (err, out))
        | some a ↦ elim (sprintf_u port_buffer_size (os.ntohs addr.sin_port)) [
          | none ↦ pure (system_error, out)
          | some p ↦ pure (success, (a, p))
        ]
      ]
      else pure (address_family_not_supported, out)

  -- What follows a successful `InetPtonA`: the address is written already.
  finish_port : ℕ → Bytes → SockaddrStorage → ErrorCode × SockaddrStorage
  finish_port family port_str addr = elim (checked_port port_str) [
    | inl err ↦ (err, addr)
    | inr port64 ↦ (success, record addr { sin_port = os.htons port64; ss_family = family })
  ]

  -- The code with the address afterwards.
  pub str_to_addr4 :
      Bytes → Bytes → Option SockaddrStorage → M os.World (ErrorCode × Option SockaddrStorage)
  unfolding finish_port last_error_code
  str_to_addr4 addr_str port_str none = pure (invalid_argument, none)
  str_to_addr4 addr_str port_str (some addr) = elim (inet.pton4 addr_str) [
    | some b ↦
        let r = finish_port ipv4 port_str (record addr { sin_addr = b }) in pure (r.0, some r.1)
    | none ↦
        if inet.malformed4 addr_str
        then pure (invalid_argument, some addr)
        else (do err ← last_error_code os; pure (err, some addr))
  ]

  -- The IPv4 address, mapped.
  map_addr4 :
      SockaddrStorage → ErrorCode × Option SockaddrStorage → ErrorCode × Option SockaddrStorage
  map_addr4 dst_addr (err, none) = (err, some dst_addr)
  map_addr4 dst_addr (err, some temp) =
      (err, some (if err == success then inet.v4mapped temp.sin_addr temp.sin_port else dst_addr))

  pub str_to_addr6 :
      ℕ → Bytes → Bytes → Option SockaddrStorage → M os.World (ErrorCode × Option SockaddrStorage)
  unfolding finish_port str_to_addr4 map_addr4 zero_sockaddr
  str_to_addr6 family addr_str port_str none = pure (invalid_argument, none)
  str_to_addr6 family addr_str port_str (some dst_addr) =
      if family == ipv4
      then (do r ← str_to_addr4 addr_str port_str (some zero_sockaddr); pure (map_addr4 dst_addr r))
      else elim (inet.pton6 addr_str) [
        | some b ↦
            let r = finish_port ipv6 port_str (record dst_addr { sin6_addr = b }) in
            pure (r.0, some r.1)
        | none ↦
            if inet.malformed6 addr_str
            then pure (invalid_argument, some dst_addr)
            else pure (system_error, some dst_addr)
      ]
