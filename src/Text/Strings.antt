-- ===== src/Text/Strings.antt =====
-- What src/endpoint.cpp uses of the C++ library: `rfind`, `find_last_of`, `stoi`, `to_string`. A
-- string is the list of its bytes.
pub mod Search
pub mod Decimal
use firelink_net.Prelude.{
  ℕ, zero, suc, ◌+◌, ◌-◌, ◌*◌, ◌/◌, ◌%◌, ◌^◌, Bool, true, false, ◌&&◌, ◌||◌, Option, none, some,
  List, [], ◌∷◌, ◌++◌, ltb, leb, ◌==◌, if◌then◌else◌,
}

abbrev pub Bytes : Type 0
Bytes = List ℕ

-- `std::string::npos`
abbrev pub npos : ℕ
npos = 2 ^ 64 - 1

unfoldable pub last_index : ℕ → Bytes → Option ℕ
last_index c [] = none
last_index c (x ∷ xs) = elim (last_index c xs) [
  | some i ↦ some (suc i)
  | none ↦ if x == c then some 0 else none
]

abbrev or_npos : Option ℕ → ℕ
or_npos none = npos
or_npos (some i) = i

-- `rfind`, and `find_last_of` with one character.
unfoldable pub rfind : ℕ → Bytes → ℕ
rfind c s = or_npos (last_index c s)

abbrev pub is_digit : ℕ → Bool
is_digit c = leb b'0' c && leb c b'9'

-- `isspace` in the "C" locale.
abbrev is_space : ℕ → Bool
is_space c = (c == 32) || (leb 9 c && leb c 13)

unfoldable pub skip_spaces : Bytes → Bytes
skip_spaces [] = []
skip_spaces (c ∷ s) = let rest = skip_spaces s in if is_space c then rest else c ∷ s

-- The digits at the front, read from the left.
pub digits_value : ℕ → Bytes → ℕ
digits_value acc [] = acc
digits_value acc (c ∷ s) =
    let rest = digits_value (10 * acc + (c - b'0')) s in if is_digit c then rest else acc

-- An `int`: whether it is negative, and its size. `none` is an exception: no digit, or out of range.
pub stoi_digits : Bool → Bytes → Option (Bool × ℕ)
stoi_digits negative [] = none
stoi_digits negative (c ∷ s) =
    let v = digits_value 0 (c ∷ s) in
    if is_digit c
    then if leb v (if negative then 2 ^ 31 else 2 ^ 31 - 1) then some (negative, v) else none
    else none

pub stoi_signed : Bytes → Option (Bool × ℕ)
unfolding stoi_digits
stoi_signed [] = none
stoi_signed (c ∷ s) =
    if c == b'-'
    then stoi_digits true s
    else if c == b'+'
    then stoi_digits false s
    else stoi_digits false (c ∷ s)

unfoldable pub stoi : Bytes → Option (Bool × ℕ)
unfolding stoi_signed skip_spaces
stoi s = stoi_signed (skip_spaces s)

-- `static_cast<std::uint16_t>` of an `int`.
unfoldable pub to_uint16 : Bool × ℕ → ℕ
to_uint16 (negative, v) = if negative then (2 ^ 16 - v % 2 ^ 16) % 2 ^ 16 else v % 2 ^ 16

-- The decimal digits of a number below 10 ^ fuel.
pub decimal : ℕ → ℕ → Bytes
decimal zero n = []
decimal (suc fuel) n =
    let rest = decimal fuel (n / 10) in
    if ltb n 10 then (b'0' + n) ∷ [] else rest ++ (b'0' + n % 10) ∷ []

-- `std::to_string` of a `uint16_t`: five digits are enough.
unfoldable pub to_string : ℕ → Bytes
unfolding decimal
to_string n = decimal 5 n
