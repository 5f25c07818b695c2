-- ===== src/IoCore/Post.antt =====
-- `post_io_work` and `post_user_work` (src/platform/windows/win_io_core.cpp): the closure moves to
-- the heap, and the pool that is given its address calls and deletes it.
pub mod Ownership
use firelink_net.Prelude.{
  update, ℕ, zero, suc, ◌≡◌, Bool, true, false, List, [], ◌∷◌, ◌++◌, ◌==◌, if◌then◌else◌,
}
use firelink_net.Types.{ErrorCode, success}
use firelink_net.Os.{Call, Os, Machine, pure, ◌>>=◌, ◌>>◌, sys, last_error_code}

-- Closures are named by numbers, which stand for their addresses. `queued` are those that a pool was
-- given and has not run; `invoked` and `freed` list the calls and the deletions, newest first.
pub record Closures (W : Type 0) : Type 0 where
  pub machine : Machine W
  pub on_heap : ℕ → Bool
  pub next_func : ℕ
  pub queued : List ℕ
  pub invoked : List ℕ
  pub freed : List ℕ

abbrev pub C : Type 0 → Type 0 → Type 0
C W A = Closures W → A × Closures W

-- `new std::move_only_function<void()>(std::move(func))`
abbrev new_func : {W : Type 0} → C W ℕ
new_func s = (
  s.next_func,
  record s { on_heap = update s.on_heap s.next_func true; next_func = suc s.next_func },
)

-- `delete heap_func`
abbrev delete_func : {W : Type 0} → ℕ → C W (Unit {0})
delete_func p s = (tt, record s { on_heap = update s.on_heap p false; freed = p ∷ s.freed })

-- `std::invoke(*f)`
abbrev invoke_func : {W : Type 0} → ℕ → C W (Unit {0})
invoke_func p s = (tt, record s { invoked = p ∷ s.invoked })

-- The pool has taken the callback.
abbrev queue_func : {W : Type 0} → ℕ → C W (Unit {0})
queue_func p s = (tt, record s { queued = p ∷ s.queued })

module _ (os : Os) where
  abbrev on_machine : {A : Type 0} → (Machine os.World → A × Machine os.World) → C os.World A
  on_machine x s = let (a, m) = x s.machine in (a, record s { machine = m })

  -- `WinIOCore::post_io_work`, and `post_user_work` with the environment of the other pool.
  pub post : ℕ → C os.World ErrorCode
  unfolding sys last_error_code
  post environ = do
    heap_func ← new_func
    r ← on_machine (sys os (Call.submit environ))
    if r.ret == 0
        then (do _ ← delete_func heap_func; on_machine (last_error_code os))
        else (do _ ← queue_func heap_func; pure success)

-- The callback that the pool runs.
pub callback : {W : Type 0} → ℕ → C W (Unit {0})
callback f = do _ ← invoke_func f; delete_func f

-- A post to either pool, or a run of a queued callback; between two of them the machine may change.
pub data Step (os : Os) (s : Closures os.World) : Closures os.World → Type 0 where
  posts : (environ : ℕ) → Step os s (post os environ s).1
  calls :
      (xs : List ℕ) (f : ℕ) (ys : List ℕ)
      → s.queued ≡ xs ++ f ∷ ys
      → Step os s (callback f (record s { queued = xs ++ ys })).1
  others : (m : Machine os.World) → Step os s (record s { machine = m })

abbrev pub empty : {W : Type 0} → Machine W → Closures W
empty m = record {
  machine = m;
  on_heap = λ p. false;
  next_func = 0;
  queued = [];
  invoked = [];
  freed = [];
}

pub data Reach (os : Os) (s : Closures os.World) : Closures os.World → Type 0 where
  here : Reach os s s
  next : {t u : Closures os.World} → Reach os s t → Step os t u → Reach os s u
