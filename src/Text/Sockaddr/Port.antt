-- ===== src/Text/Sockaddr/Port.antt =====
-- `strtol` and the check of a port, on ports that were printed
-- (src/platform/windows/win_socket.cpp).
use firelink_net.Prelude.{
  ℕ, ◌^◌, ◌<◌, ◌≡◌, ◌≢◌, inl, inr, refl, false, true, [], ◌∷◌, some, ltb, if◌then◌else◌, arith,
}
use firelink_net.Types.{invalid_argument}
use firelink_net.Text.Strings.{Bytes, digits_value, to_string}
use firelink_net.Text.Strings.Decimal.{
  AllDigits, to_string-AllDigits, to_string-ne-nil, digits_value-to_string, to_string-length,
}
use firelink_net.Text.Sockaddr.{strtol, is_zero_text, checked_port, sprintf_u}

strtol-AllDigits :
    (xs : Bytes) (v : ℕ)
    → AllDigits xs
    → xs ≢ []
    → digits_value 0 xs ≡ v
    → v < 2 ^ 31
    → strtol xs ≡ (false, v)
unfolding strtol
strtol-AllDigits [] v h ne e lt = absurd (ne refl)
strtol-AllDigits (c ∷ xs) v h ne e lt = ground arith

strtol-to_string : (n : ℕ) → n < 10 ^ 5 → strtol (to_string n) ≡ (false, n)
strtol-to_string n h =
    strtol-AllDigits (to_string n) n (to_string-AllDigits n) (to_string-ne-nil n)
      (digits_value-to_string n h) (omega arith)

zero_printed : is_zero_text (to_string 0) ≡ true
unfolding to_string
zero_printed = refl

-- A printed number below 100000 is taken as a port exactly if it is at most 65535.
pub checked_port-to_string :
    (n : ℕ)
    → n < 10 ^ 5
    → checked_port (to_string n) ≡ (if ltb 65535 n then inl invalid_argument else inr n)
unfolding checked_port
checked_port-to_string n h = ground (arith, strtol-to_string n h, zero_printed)

-- The buffer for a port is large enough.
pub sprintf_u_enough : (n : ℕ) → sprintf_u 10 n ≡ some (to_string n)
sprintf_u_enough n = ground (arith, to_string-length n)
