-- ===== src/Async/System/Counts.antt =====
-- How much work is posted for an operation (src/platform/windows/win_socket.cpp).
use firelink_net.Prelude.{
  zero, suc, count, if◌then◌else◌, one, ℕ, ◌+◌, ◌≡◌, List, [], ◌∷◌, ◌++◌, ◌==◌, arith, refl,
}
use firelink_net.Async.Store.{Handler, Work}
use firelink_net.Async.System.{repeat}
use firelink_net.Async.Completion.Fates.{PostedOne}

-- How much work is there for the operation.
abbrev pub count_work : ℕ → List Work → ℕ
count_work a [] = 0
count_work a (w ∷ ws) = one (w.io_data == a) + count_work a ws

pub count_work-middle :
    (a : ℕ) (xs : List Work) (w : Work) (ys : List Work)
    → count_work a (xs ++ w ∷ ys) ≡ one (w.io_data == a) + count_work a (xs ++ ys)
count_work-middle a [] w ys = refl
count_work-middle a (v ∷ xs) w ys = omega (arith, count_work-middle a xs w ys)

pub count_work-PostedOne :
    (a p : ℕ) (f : Handler) (ws old : List Work)
    → PostedOne p f ws old
    → count_work a ws ≡ one (p == a) + count_work a old
count_work-PostedOne a p f [] old h = absurd h
count_work-PostedOne a p f (w ∷ ws) old h = ground arith

pub count-repeat :
    (a n p : ℕ) (xs : List ℕ) → count a (repeat n p xs) ≡ (if p == a then n else 0) + count a xs
count-repeat a zero p xs = ground arith
count-repeat a (suc n) p xs = ground (arith, count-repeat a n p xs)
