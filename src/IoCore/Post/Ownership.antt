-- ===== src/IoCore/Post/Ownership.antt =====
-- Every posted closure is deleted once, and called at most once
-- (src/platform/windows/win_io_core.cpp).
use firelink_net.Prelude.{ℕ, suc, ◌+◌, ◌≤◌, ◌≡◌, List, ◌∷◌, ◌++◌, leb, ◌==◌, arith}
use firelink_net.Os.{Os, Machine}
use firelink_net.Prelude.{one, count, count-middle}
use firelink_net.IoCore.Post.{
  Closures, post, callback, posts, calls, others, empty, Reach, here, next,
}

-- A closure that was made is on the heap, queued and not freed; or freed and neither. It was called
-- at most once, and only if it has been freed since.
abbrev pub OwnedAt : {W : Type 0} → Closures W → ℕ → Type 0
OwnedAt s p =
    let made = one (leb (suc p) s.next_func) in
    (count p s.queued + count p s.freed ≡ made)
    × (one (s.on_heap p) ≡ count p s.queued)
    × (count p s.invoked ≤ count p s.freed)

module _ (os : Os) where
  post-OwnedAt :
      (s : Closures os.World) (environ p : ℕ)
      → OwnedAt s p
      → OwnedAt s s.next_func
      → OwnedAt (post os environ s).1 p
  unfolding post
  post-OwnedAt s environ p h fresh = ground arith

  callback-OwnedAt :
      (s : Closures os.World) (xs : List ℕ) (f : ℕ) (ys : List ℕ) (p : ℕ)
      → s.queued ≡ xs ++ f ∷ ys
      → OwnedAt s p
      → OwnedAt (callback f (record s { queued = xs ++ ys })).1 p
  unfolding callback
  callback-OwnedAt s xs f ys p e h =
      let taken : count p s.queued ≡ one (f == p) + count p (xs ++ ys) =
        rw e (count-middle p xs f ys) in
      ground arith

  -- In every sequence of posts to either pool and runs of what they took, whether or not a pool
  -- takes a closure: each closure that was made is either on the heap and queued, once, or deleted,
  -- once; it was called at most once, and never without being deleted.
  pub closure_owned :
      (m : Machine os.World) {t : Closures os.World} → Reach os (empty m) t → (p : ℕ) → OwnedAt t p
  closure_owned m here p = ground arith
  closure_owned m (next {t = s} r (posts environ)) p =
      post-OwnedAt s environ p (closure_owned m r p) (closure_owned m r s.next_func)
  closure_owned m (next {t = s} r (calls xs f ys e)) p =
      callback-OwnedAt s xs f ys p e (closure_owned m r p)
  closure_owned m (next r (others n)) p = closure_owned m r p
