-- ===== src/Text/Strings/Decimal.antt =====
-- `stoi` reads back what `to_string` writes.
use native.Mathlib.Nat.{pow-suc}
use firelink_net.Prelude.{
  ℕ, zero, suc, ◌+◌, ◌-◌, ◌*◌, ◌/◌, ◌%◌, ◌^◌, ◌<◌, ◌≡◌, ◌≢◌, ◌≤◌, refl, ap, length, true, false,
  some, [], ◌∷◌, ◌++◌, arith,
}
use firelink_net.Text.Strings.{Bytes, is_digit, digits_value, stoi, decimal, to_string}
use firelink_net.Text.Strings.Search.{Lacks}

abbrev pub AllDigits : Bytes → Type 0
AllDigits [] = Unit {0}
AllDigits (c ∷ s) = (is_digit c ≡ true) × AllDigits s

digits_value-snoc :
    (acc d : ℕ) (xs : Bytes)
    → AllDigits xs
    → is_digit d ≡ true
    → digits_value acc (xs ++ d ∷ []) ≡ 10 * digits_value acc xs + (d - b'0')
unfolding digits_value
digits_value-snoc acc d [] h hd = ground arith
digits_value-snoc acc d (x ∷ xs) h hd =
    ground (arith, digits_value-snoc (10 * acc + (x - b'0')) d xs h.1)

AllDigits-snoc : (d : ℕ) (xs : Bytes) → AllDigits xs → is_digit d ≡ true → AllDigits (xs ++ d ∷ [])
AllDigits-snoc d [] h hd = (hd, tt)
AllDigits-snoc d (x ∷ xs) h hd = (h.0, AllDigits-snoc d xs h.1 hd)

digit_is_digit : (k : ℕ) → k < 10 → is_digit (b'0' + k) ≡ true
digit_is_digit k h = ground arith

pub decimal-AllDigits : (fuel n : ℕ) → AllDigits (decimal fuel n)
unfolding decimal
decimal-AllDigits zero n = tt
decimal-AllDigits (suc fuel) n = ground (
  arith,
  AllDigits-snoc (b'0' + n % 10) (decimal fuel (n / 10)) (decimal-AllDigits fuel (n / 10))
      (digit_is_digit (n % 10) (omega arith)),
)

pub digits_value-decimal : (fuel n : ℕ) → n < 10 ^ fuel → digits_value 0 (decimal fuel n) ≡ n
unfolding decimal digits_value
digits_value-decimal zero n h = omega arith
digits_value-decimal (suc fuel) n h =
    let tenth : n / 10 < 10 ^ fuel = omega (arith, pow-suc 10 fuel) in
    let digits = decimal-AllDigits fuel (n / 10) in
    let last = digit_is_digit (n % 10) (omega arith) in
    ground (
      arith,
      digits_value-snoc 0 (b'0' + n % 10) (decimal fuel (n / 10)) digits last,
      digits_value-decimal fuel (n / 10) tenth,
    )

append-ne-nil : (xs : Bytes) (d : ℕ) → xs ++ d ∷ [] ≢ []
append-ne-nil [] d e = cc
append-ne-nil (x ∷ xs) d e = cc

pub decimal-ne-nil : (fuel n : ℕ) → decimal (suc fuel) n ≢ []
unfolding decimal
decimal-ne-nil fuel n = ground (arith, append-ne-nil (decimal fuel (n / 10)) (b'0' + n % 10))

stoi-AllDigits :
    (xs : Bytes) (v : ℕ)
    → AllDigits xs
    → xs ≢ []
    → digits_value 0 xs ≡ v
    → v < 2 ^ 31
    → stoi xs ≡ some (false, v)
unfolding stoi
stoi-AllDigits [] v h ne e lt = absurd (ne refl)
stoi-AllDigits (c ∷ xs) v h ne e lt = ground arith

-- Reading back a number of at most five digits that was printed gives it again.
pub stoi-to_string : (n : ℕ) → n < 10 ^ 5 → stoi (to_string n) ≡ some (false, n)
unfolding to_string
stoi-to_string n h =
    stoi-AllDigits (decimal 5 n) n (decimal-AllDigits 5 n) (decimal-ne-nil 4 n)
      (digits_value-decimal 5 n h) (omega arith)

AllDigits-Lacks : (c : ℕ) (xs : Bytes) → is_digit c ≡ false → AllDigits xs → Lacks c xs
AllDigits-Lacks c [] h d = tt
AllDigits-Lacks c (x ∷ xs) h d = (ground arith, AllDigits-Lacks c xs h d.1)

-- A printed port has digits only.
pub to_string-Lacks : (c n : ℕ) → is_digit c ≡ false → Lacks c (to_string n)
unfolding to_string
to_string-Lacks c n h = AllDigits-Lacks c (decimal 5 n) h (decimal-AllDigits 5 n)

-- A printed port is digits, is not empty, and is worth the port.
pub to_string-AllDigits : (n : ℕ) → AllDigits (to_string n)
unfolding to_string
to_string-AllDigits n = decimal-AllDigits 5 n

pub to_string-ne-nil : (n : ℕ) → to_string n ≢ []
unfolding to_string
to_string-ne-nil n = decimal-ne-nil 4 n

pub digits_value-to_string : (n : ℕ) → n < 10 ^ 5 → digits_value 0 (to_string n) ≡ n
unfolding to_string
digits_value-to_string n h = digits_value-decimal 5 n h

length-snoc : (xs : Bytes) (c : ℕ) → length (xs ++ c ∷ []) ≡ suc (length xs)
length-snoc [] c = refl
length-snoc (x ∷ xs) c = ap suc (length-snoc xs c)

decimal-length : (fuel n : ℕ) → length (decimal fuel n) ≤ fuel
unfolding decimal
decimal-length zero n = omega arith
decimal-length (suc fuel) n =
    ground
      (arith, length-snoc (decimal fuel (n / 10)) (b'0' + n % 10), decimal-length fuel (n / 10))

pub to_string-length : (n : ℕ) → length (to_string n) ≤ 5
unfolding to_string
to_string-length n = decimal-length 5 n
