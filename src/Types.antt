-- ===== src/Types.antt =====
-- include/firelink/types.hpp, include/firelink/error_codes.hpp and include/firelink/options.hpp.
-- An `int` is kept as its 32-bit pattern, so a cast between `int`, `DWORD` and an enum of underlying
-- type `int` is the identity; `minus k` is the pattern of -k. The enums have a fixed underlying type
-- and are produced by casts from any `int` that the system returns, so they are patterns too.
-- The numbers behind the platform's macros are those of the Windows headers.
use firelink_net.Prelude.{ℕ, ◌-◌, ◌^◌}

abbrev pub minus : ℕ → ℕ
minus k = 2 ^ 32 - k

abbrev pub ErrorCode : Type 0
ErrorCode = ℕ

abbrev pub success : ErrorCode
success = 0

abbrev pub system_error : ErrorCode
system_error = minus 1

abbrev pub not_supported : ErrorCode
not_supported = 10092

abbrev pub address_family_not_supported : ErrorCode
address_family_not_supported = 10047

abbrev pub timed_out : ErrorCode
timed_out = 10060

abbrev pub invalid_argument : ErrorCode
invalid_argument = 10022

-- `AddressFamily`, `SocketType` and `Protocol` share the enumerator `NotSupported`.
abbrev pub unsupported : ℕ
unsupported = minus 1

abbrev pub ipv4 : ℕ
ipv4 = 2

abbrev pub ipv6 : ℕ
ipv6 = 23

abbrev pub stream : ℕ
stream = 1

abbrev pub tcp : ℕ
tcp = 6

-- `SD_SEND`, the value of `ShutdownHow::Write`.
abbrev pub sd_send : ℕ
sd_send = 1

-- A `SOCKET` is an unsigned 64-bit number; `INVALID_SOCKET` is `~0`.
abbrev pub invalid_socket : ℕ
invalid_socket = 2 ^ 64 - 1

-- `SOCKET_ERROR` is -1.
abbrev pub socket_error : ℕ
socket_error = minus 1

abbrev pub error_io_pending : ℕ
error_io_pending = 997
