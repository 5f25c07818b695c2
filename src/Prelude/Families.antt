-- ===== src/Prelude/Families.antt =====
-- Families `ℕ → A`: the change of one member, and sums of weights over the first ones.
use Prim.Native.Nat.{ℕ, zero, suc, ◌+◌, ◌*◌, ◌≤◌}
use mathlib.Core.Path.{◌≡◌}
use native.Mathlib.Omega.{arith}
use firelink_net.Prelude.Tests.{◌==◌, ltb, if◌then◌else◌}

abbrev pub update {ℓ} : {A : Type ℓ} → (ℕ → A) → ℕ → A → ℕ → A
update f p a q = if p == q then a else f q

-- The sum of the weights of the first `n` members.
abbrev pub total {ℓ} : {A : Type ℓ} → (A → ℕ) → ℕ → (ℕ → A) → ℕ
total w zero members = 0
total w (suc k) members = w (members k) + total w k members

-- Changing the member `i` changes the sum by the difference of its weights, if it is one of them.
pub total-update :
    {A : Type 0} (w : A → ℕ) (i : ℕ) (a : A) (f : ℕ → A) (n : ℕ)
    → let counts = λ (x : A). if ltb i n then w x else 0 in
      total w n (update f i a) + counts (f i) ≡ total w n f + counts a
total-update w i a f zero = ground arith
total-update w i a f (suc n) = ground (arith, total-update w i a f n)

pub total-bound :
    {A : Type 0} (w : A → ℕ) (most : ℕ)
    → ((a : A) → w a ≤ most)
    → (f : ℕ → A) (n : ℕ) → total w n f ≤ most * n
total-bound w most small f zero = omega arith
total-bound w most small f (suc n) = ground (arith, small (f n), total-bound w most small f n)
