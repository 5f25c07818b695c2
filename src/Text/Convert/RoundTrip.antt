-- ===== src/Text/Convert/RoundTrip.antt =====
-- Parsing a printed address gives it again, and what the parser lets through (src/endpoint.cpp).
use mathlib.Core.List.{append_assoc}
use firelink_net.Prelude.{
  ap, ℕ, ◌%◌, ◌^◌, ◌<◌, ◌≡◌, ◌≢◌, refl, Bool, false, none, some, List, [], ◌∷◌, ◌++◌, length,
  take-append, drop-suc_append, length-append, arith,
}
use firelink_net.Types.{success}
use firelink_net.Endpoint.{
  Bytes4, IPv4Address, IPv6Address, Endpoint, blank, of_ipv4, of_ipv6, any4, any6, Pun,
}
use firelink_net.Socket.Address.RoundTrip.{Fits}
use firelink_net.Text.Strings.{Bytes, last_index, stoi, to_uint16, to_string}
use firelink_net.Text.Strings.Search.{Lacks, last_index-middle, rfind-middle, rfind-front}
use firelink_net.Text.Strings.Decimal.{stoi-to_string, to_string-Lacks}
use firelink_net.Text.Convert.{
  Inet, with_port4, with_port6, trim_brackets, but_last, returns, inet_ntop4, inet_ntop6, inet_ntop,
  inet_pton4, inet_pton6, inet_pton,
}

-- What is documented of the text of an IPv4 address: dotted decimal, at most 15 characters, and read
-- back to the same address.
abbrev pub IsText4 : Inet → Bytes4 → Bytes → Type 0
IsText4 inet b t =
    (inet.ntop4 b ≡ some t)
    × (inet.pton4 t ≡ some b)
    × Lacks b':' t
    × (last_index b'.' t ≢ none)
    × (length t < 16)

-- And of an IPv6 address: at most 45 characters.
abbrev pub IsText6 : Inet → List ℕ → Bytes → Type 0
IsText6 inet b t = (inet.ntop6 b ≡ some t) × (inet.pton6 t ≡ some b) × (length t < 46)

-- What printing puts behind the address: no colon, dot or bracket.
record IsPortText (ds : Bytes) : Type 0 where
  no_colon : Lacks b':' ds
  no_dot : Lacks b'.' ds
  no_bracket : Lacks b']' ds

to_string-IsPortText : (n : ℕ) → IsPortText (to_string n)
to_string-IsPortText n = record {
  no_colon = to_string-Lacks b':' n refl;
  no_dot = to_string-Lacks b'.' n refl;
  no_bracket = to_string-Lacks b']' n refl;
}

to_uint16-exact : (n : ℕ) → n < 2 ^ 16 → to_uint16 (false, n) ≡ n
unfolding to_uint16
to_uint16-exact n h = omega arith

to_uint16_mod : (n : ℕ) → to_uint16 (false, n) ≡ n % 2 ^ 16
unfolding to_uint16
to_uint16_mod n = refl

abbrev bracketed : Bytes → Bytes
bracketed t = b'[' ∷ (t ++ b']' ∷ [])

but_last-append : (c : ℕ) (t : Bytes) → but_last (t ++ c ∷ []) ≡ t
but_last-append c [] = refl
but_last-append c (x ∷ []) = refl
but_last-append c (x ∷ y ∷ t) = rw (but_last-append c (y ∷ t)) refl

trim-bracketed : (t : Bytes) → trim_brackets (bracketed t) ≡ some t
unfolding trim_brackets
trim-bracketed [] = refl
trim-bracketed (x ∷ t) = ap some (but_last-append b']' (x ∷ t))

bracketed_closes : (t : Bytes) → last_index b']' (bracketed t) ≢ none
bracketed_closes t e = ground (arith, last_index-middle b']' (b'[' ∷ t) [] tt)

module _ (inet : Inet) where
  with_port4_lem :
      (t ds : Bytes) (b : Bytes4) (out : IPv4Address) (v : Bool × ℕ)
      → inet.pton4 t ≡ some b
      → stoi ds ≡ some v
      → with_port4 inet t ds out ≡ returns success (record { bytes = b; port = to_uint16 v })
  unfolding with_port4
  with_port4_lem t ds b out v h e = ground arith

  inet_pton4_with_port :
      (t ds : Bytes) (b : Bytes4) (out : IPv4Address) (v : Bool × ℕ)
      → IsText4 inet b t
      → IsPortText ds
      → stoi ds ≡ some v
      → inet_pton4 inet (t ++ b':' ∷ ds) out
        ≡ returns success (record { bytes = b; port = to_uint16 v })
  unfolding inet_pton4
  inet_pton4_with_port t ds b out v h p e =
      rw (rfind-middle b':' t ds p.no_colon, take-append t (b':' ∷ ds), drop-suc_append t b':' ds)
        (ground (
          arith,
          rfind-front b'.' t (b':' ∷ ds) ((λ q. ground arith), p.no_dot) h.3,
          with_port4_lem t ds b out v h.1 e,
        ))

  inet_ntop4_lem :
      (a : IPv4Address) (t : Bytes)
      → inet.ntop4 a.bytes ≡ some t
      → inet_ntop4 inet a ≡ t ++ b':' ∷ to_string a.port
  unfolding inet_ntop4
  inet_ntop4_lem a t h = ground arith

  -- An IPv4 address that is printed and parsed is the same again, with its port, whatever the target
  -- held before.
  pub inet_pton4-inet_ntop4 :
      (a out : IPv4Address) (t : Bytes)
      → IsText4 inet a.bytes t
      → a.port < 2 ^ 16
      → inet_pton4 inet (inet_ntop4 inet a) out ≡ returns success a
  inet_pton4-inet_ntop4 a out t h port = rw (inet_ntop4_lem a t h.0) (
      rw
        (
          inet_pton4_with_port t (to_string a.port) a.bytes out (false, a.port) h
              (to_string-IsPortText a.port) (stoi-to_string a.port (omega arith)),
          to_uint16-exact a.port port,
        )
        refl)

  with_port6_lem :
      (xs t ds : Bytes) (b : List ℕ) (out : IPv6Address) (v : Bool × ℕ)
      → trim_brackets xs ≡ some t
      → inet.pton6 t ≡ some b
      → stoi ds ≡ some v
      → with_port6 inet xs ds out ≡ returns success (record { bytes = b; port = to_uint16 v })
  unfolding with_port6
  with_port6_lem xs t ds b out v trim h e = ground arith

  inet_pton6_with_port :
      (t ds : Bytes) (b : List ℕ) (out : IPv6Address) (v : Bool × ℕ)
      → IsText6 inet b t
      → IsPortText ds
      → stoi ds ≡ some v
      → inet_pton6 inet (bracketed t ++ b':' ∷ ds) out
        ≡ returns success (record { bytes = b; port = to_uint16 v })
  unfolding inet_pton6
  inet_pton6_with_port t ds b out v h p e =
      let xs = bracketed t in
      rw
        (rfind-middle b':' xs ds p.no_colon, take-append xs (b':' ∷ ds), drop-suc_append xs b':' ds)
        (ground (
          arith,
          length-append t (b']' ∷ []),
          rfind-front b']' xs (b':' ∷ ds) ((λ q. ground arith), p.no_bracket) (bracketed_closes t),
          with_port6_lem xs t ds b out v (trim-bracketed t) h.1 e,
        ))

  inet_ntop6_lem :
      (a : IPv6Address) (t : Bytes)
      → inet.ntop6 a.bytes ≡ some t
      → inet_ntop6 inet a ≡ bracketed t ++ b':' ∷ to_string a.port
  unfolding inet_ntop6
  inet_ntop6_lem a t h = ground (arith, append_assoc t (b']' ∷ []) (b':' ∷ to_string a.port))

  -- An IPv6 address that is printed and parsed is the same again, with its port and without the
  -- brackets, whatever the target held before.
  pub inet_pton6-inet_ntop6 :
      (a out : IPv6Address) (t : Bytes)
      → IsText6 inet a.bytes t
      → a.port < 2 ^ 16
      → inet_pton6 inet (inet_ntop6 inet a) out ≡ returns success a
  inet_pton6-inet_ntop6 a out t h port = rw (inet_ntop6_lem a t h.0) (
      rw
        (
          inet_pton6_with_port t (to_string a.port) a.bytes out (false, a.port) h
              (to_string-IsPortText a.port) (stoi-to_string a.port (omega arith)),
          to_uint16-exact a.port port,
        )
        refl)

  -- The parser does not check the range of a port: on the text of an IPv4 address, a colon and a
  -- printed number below 100000, it succeeds with the address and with the number modulo 65536 as
  -- port.
  -- Condition: the text is one that Winsock's `inet_ntop` writes for the address and its
  -- `inet_pton` reads back, as documented.
  pub inet_pton4_wraps_port :
      (b : Bytes4) (out : IPv4Address) (t : Bytes) (n : ℕ)
      → IsText4 inet b t
      → n < 10 ^ 5
      → inet_pton4 inet (t ++ b':' ∷ to_string n) out
        ≡ returns success (record { bytes = b; port = n % 2 ^ 16 })
  inet_pton4_wraps_port b out t n h small =
      rw
        (
          inet_pton4_with_port t (to_string n) b out (false, n) h (to_string-IsPortText n)
              (stoi-to_string n small),
          to_uint16_mod n,
        )
        refl

-- The address in the endpoint has a text as documented.
abbrev pub HasText : Inet → Endpoint → Type 0
HasText inet blank = ⊥
HasText inet (of_ipv4 a) = (t : Bytes) × IsText4 inet a.bytes t
HasText inet (of_ipv6 a) = (t : Bytes) × IsText6 inet a.bytes t

-- An endpoint that fits the family is printed by `inet_ntop` and read back by `inet_pton` of the same
-- family unchanged, whatever the target endpoint held before. Condition: the address has a text as
-- documented, which Winsock's `inet_ntop` writes and its `inet_pton` reads back as the same address.
pub inet_pton-inet_ntop :
    (inet : Inet) (pun : Pun) (family : ℕ) (ep out : Endpoint)
    → Fits family ep
    → HasText inet ep
    → inet_pton inet family (inet_ntop inet pun family ep) out ≡ returns success ep
unfolding inet_pton inet_ntop
inet_pton-inet_ntop inet pun family blank out fits text = absurd fits
inet_pton-inet_ntop inet pun family (of_ipv4 a) out fits text =
    ground (arith, inet_pton4-inet_ntop4 inet a (any4 0) text.0 text.1 fits.2)
inet_pton-inet_ntop inet pun family (of_ipv6 a) out fits text =
    ground (arith, inet_pton6-inet_ntop6 inet a (any6 0) text.0 text.1 fits.1)
