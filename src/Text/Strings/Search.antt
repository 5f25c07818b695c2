-- ===== src/Text/Strings/Search.antt =====
-- Where `rfind` finds a character in a text of two parts.
use firelink_net.Prelude.{
  inl, inr, Option-cases, ℕ, zero, suc, ◌<◌, ◌≡◌, ◌≢◌, refl, none, some, [], ◌∷◌, ◌++◌, length,
  arith,
}
use firelink_net.Text.Strings.{Bytes, last_index, rfind}

abbrev pub Lacks : ℕ → Bytes → Type 0
Lacks c [] = Unit {0}
Lacks c (x ∷ xs) = (x ≢ c) × Lacks c xs

pub last_index-Lacks : (c : ℕ) (xs : Bytes) → Lacks c xs → last_index c xs ≡ none
unfolding last_index
last_index-Lacks c [] h = refl
last_index-Lacks c (x ∷ xs) h = ground (arith, last_index-Lacks c xs h.1)

-- The last occurrence is the one between the parts if the second part has none.
pub last_index-middle :
    (c : ℕ) (xs ys : Bytes) → Lacks c ys → last_index c (xs ++ c ∷ ys) ≡ some (length xs)
unfolding last_index
last_index-middle c [] ys h = ground (arith, last_index-Lacks c ys h)
last_index-middle c (x ∷ xs) ys h = ground (arith, last_index-middle c xs ys h)

-- A second part without the character changes nothing.
pub last_index-append :
    (c : ℕ) (xs ys : Bytes) → Lacks c ys → last_index c (xs ++ ys) ≡ last_index c xs
unfolding last_index
last_index-append c [] ys h = last_index-Lacks c ys h
last_index-append c (x ∷ xs) ys h = rw (last_index-append c xs ys h) refl

-- An index that is found is inside the text.
pub last_index-lt : (c : ℕ) (xs : Bytes) (i : ℕ) → last_index c xs ≡ some i → i < length xs
unfolding last_index
last_index-lt c [] i e = cc
last_index-lt c (x ∷ xs) zero e = omega arith
last_index-lt c (x ∷ xs) (suc i) e = ground (arith, last_index-lt c xs i)

pub rfind-middle : (c : ℕ) (xs ys : Bytes) → Lacks c ys → rfind c (xs ++ c ∷ ys) ≡ length xs
unfolding rfind
rfind-middle c xs ys h = rw (last_index-middle c xs ys h) refl

-- A character that stands in the first part only is found in it.
pub rfind-front :
    (c : ℕ) (xs ys : Bytes) → Lacks c ys → last_index c xs ≢ none → rfind c (xs ++ ys) < length xs
unfolding rfind
rfind-front c xs ys h some_there = elim (Option-cases (last_index c xs)) [
  | inl none_there ↦ absurd (some_there none_there)
  | inr (i, e) ↦ ground (arith, last_index-append c xs ys h, last_index-lt c xs i e)
]
