-- ===== src/Async/System/Drains.antt =====
-- How the operations that have been started come to an end (src/platform/windows/win_socket.cpp).
use firelink_net.Prelude.{
  ℕ, zero, suc, ◌+◌, ◌*◌, ◌≤◌, ◌≡◌, Bool, true, false, List, ◌∷◌, ◌++◌, length, length-append,
  arith,
}
use firelink_net.Os.{Os}
use firelink_net.Os.Laws.{SetsLastError}
use firelink_net.Async.Completion.Once.{routine_once, run_work_once}
use firelink_net.Async.System.{Sys, Step, starts, completes, runs, others}

-- The step is a call of a start method.
abbrev pub is_start : {os : Os} {s t : Sys os.World} → Step os s t → Bool
is_start (starts op) = true
is_start (completes xs p ys result n e) = false
is_start (runs xs w ys e) = false
is_start (others m sockets) = false

-- The step is a run of the completion routine or of posted work.
abbrev pub works : {os : Os} {s t : Sys os.World} → Step os s t → ℕ
works (starts op) = 0
works (completes xs p ys result n e) = 1
works (runs xs w ys e) = 1
works (others m sockets) = 0

-- Steps without a call of a start method, of which `k` run the completion routine or posted work.
pub data Drain (os : Os) (s : Sys os.World) : ℕ → Sys os.World → Type 0 where
  rest : Drain os s zero s
  then_step :
      {k : ℕ} {t u : Sys os.World}
      → Drain os s k t
      → (st : Step os t u) → is_start st ≡ false
      → Drain os s (k + works st) u

-- How many runs the operations can still cause, and how many calls of a handler there are or can be.
abbrev pub runs_left : {W : Type 0} → Sys W → ℕ
runs_left s = 2 * length s.in_flight + length s.store.posted

abbrev pub calls : {W : Type 0} → Sys W → ℕ
calls s = length s.store.called + length s.store.posted + length s.in_flight

length-middle :
    {A : Type 0} (xs : List A) (x : A) (ys : List A)
    → length (xs ++ x ∷ ys) ≡ suc (length (xs ++ ys))
length-middle xs x ys = omega (arith, length-append xs (x ∷ ys), length-append xs ys)

module _ (os : Os) (law : SetsLastError os) where
  Step-runs_left :
      {s t : Sys os.World} (st : Step os s t)
      → is_start st ≡ false
      → (works st + runs_left t ≤ runs_left s) × (calls t ≤ calls s)
  Step-runs_left {s} (completes xs p ys result n e) q =
      let flying : length s.in_flight ≡ suc (length (xs ++ ys)) = rw e (length-middle xs p ys) in
      ground (arith, routine_once os law p result n s.store)
  Step-runs_left {s} (runs xs w ys e) q =
      let t = record (s.store) { posted = xs ++ ys } in
      let queued : length s.store.posted ≡ suc (length (xs ++ ys)) = rw e (length-middle xs w ys) in
      ground (arith, run_work_once w t)
  Step-runs_left (others m sockets) q = ground arith
  Step-runs_left (starts op) q = absurd (ground arith)

  -- In steps without a call of a start method, in any order: the runs of the completion routine and
  -- of posted work, with two for each operation that is left in flight and one for each posted work
  -- that is left, are at most two for each operation in flight and one for each posted work at the
  -- beginning. And the calls of handlers, with one for each operation and each posted work that is
  -- left, do not become more.
  -- Condition: a failed call of the system sets the last error, to a code that is not 0.
  pub work_bounded :
      {s t : Sys os.World} {k : ℕ}
      → Drain os s k t
      → (k + runs_left t ≤ runs_left s) × (calls t ≤ calls s)
  work_bounded rest = ground arith
  work_bounded (then_step d st q) = omega (arith, work_bounded d, Step-runs_left st q)
